-- ===== src/Scheduler/Dispatch/Rounds.antt =====
-- A thread in `Scheduler::run` keeps its fibers in order (src/scheduler/scheduler.cc,
-- src/fiber/fiber.cc).
use coroutinelib.Base.{
  ℕ, ◌+◌, ◌%◌, ◌^◌, ◌<◌, ◌≡◌, ◌≢◌, refl, sym, subst, ap, ◌∙◌, none, some, true, false, [], ◌∷◌,
  ◌++◌, ◌⊎◌, inl, inr, arith, length, length-append, get_or-append_lt, get_or-append_length,
}
use native.Mathlib.Decide.{ℕ_discrete}
use coroutinelib.Faults.{Result}
use coroutinelib.Callback.{Callback}
use coroutinelib.Fiber.{World, Fiber, State, Context, fiber_at, home, no_fiber, new_fiber}
use coroutinelib.Fiber.Switch.{Own}
use coroutinelib.Fiber.Life.{IsResumable, Back, resume-yield, resume-end}
use coroutinelib.Scheduler.Dispatch.{Leaves, resume_until}

-- A fiber that has ended, or that can be resumed by the scheduler.
pub record IsParked (w : World) (i : ℕ) : Type 0 where
  pub in_scheduler : (fiber_at w i).run_in_scheduler ≡ true
  pub own : Own i (fiber_at w i).context
  pub at_rest : ((fiber_at w i).state ≡ State.ready) ⊎ ((fiber_at w i).state ≡ State.term)

-- The thread runs the loop in fiber `h`, with its idle fiber; all other fibers are at rest.
pub record IsLoop (w : World) (h idle_fiber : ℕ) : Type 0 where
  pub cpu : w.on_cpu ≡ h
  pub home : w.scheduler_fiber ≡ some h
  pub known : h < length w.fibers
  pub idle_known : idle_fiber < length w.fibers
  pub idle_apart : idle_fiber ≢ h
  pub parked : (i : ℕ) → i < length w.fibers → i ≢ h → IsParked w i

-- The fiber after it has left the thread.
abbrev pub left : World → ℕ → Leaves → Fiber
left w i Leaves.yields = record (fiber_at w i) { state = State.ready; context = Context.saved i }
left w i Leaves.returns = record (fiber_at w i) {
  state = State.term;
  context = Context.saved i;
  cb = none;
}

module _ (w : World) (h idle_fiber : ℕ) (v : IsLoop w h idle_fiber) where
  home-scheduler : (f : Fiber) → f.run_in_scheduler ≡ true → home w f ≡ some h
  home-scheduler f e = rw e (v.home)

  pub parked-IsResumable :
      (i : ℕ) → i < length w.fibers → i ≢ h → (fiber_at w i).state ≡ State.ready → IsResumable w i h
  parked-IsResumable i known n r =
      let p = v.parked i known n in
      record {
        known = known;
        home_known = v.known;
        apart = n;
        is_ready = r;
        to_home = home-scheduler (fiber_at w i) p.in_scheduler;
        on_cpu = v.cpu;
        own = p.own;
      }

  pub resume_until-Back :
      (i : ℕ) (leaves : Leaves)
      → IsResumable w i h
      → (w' : World) × (resume_until w i leaves false ≡ Result.ok w')
        × Back w i h (left w i leaves) w'
  unfolding resume_until
  resume_until-Back i Leaves.yields r = resume-yield w i h r
  resume_until-Back i Leaves.returns r = resume-end w i h r

  left-IsParked :
      (w' : World) (i : ℕ) (leaves : Leaves)
      → IsParked w i
      → fiber_at w' i ≡ left w i leaves
      → IsParked w' i
  left-IsParked w' i Leaves.yields p e = record {
    in_scheduler = ap (λ (f : Fiber). f.run_in_scheduler) e ∙ p.in_scheduler;
    own = inr (ap (λ (f : Fiber). f.context) e);
    at_rest = inl (ap (λ (f : Fiber). f.state) e);
  }
  left-IsParked w' i Leaves.returns p e = record {
    in_scheduler = ap (λ (f : Fiber). f.run_in_scheduler) e ∙ p.in_scheduler;
    own = inr (ap (λ (f : Fiber). f.context) e);
    at_rest = inr (ap (λ (f : Fiber). f.state) e);
  }

  IsParked-same : (w' : World) (i : ℕ) → fiber_at w' i ≡ fiber_at w i → IsParked w i → IsParked w' i
  IsParked-same w' i e p = record {
    in_scheduler = ap (λ (f : Fiber). f.run_in_scheduler) e ∙ p.in_scheduler;
    own = subst (λ (f : Fiber). Own i f.context) (sym e) p.own;
    at_rest =
        subst (λ (f : Fiber). (f.state ≡ State.ready) ⊎ (f.state ≡ State.term)) (sym e) p.at_rest;
  }

  -- After a fiber has had the thread.
  pub Back-IsLoop :
      (w' : World) (i : ℕ) (leaves : Leaves)
      → i < length w.fibers
      → i ≢ h
      → Back w i h (left w i leaves) w'
      → IsLoop w' h idle_fiber
  Back-IsLoop w' i leaves known n b = record {
    cpu = b.cpu ∙ v.cpu;
    home = b.scheduler_fiber ∙ v.home;
    known = omega (arith, b.size, v.known);
    idle_known = omega (arith, b.size, v.idle_known);
    idle_apart = v.idle_apart;
    parked = λ j l m. elim (ℕ_discrete j i) [
      | yes e ↦ subst (IsParked w') (sym e) (left-IsParked w' i leaves (v.parked i known n) b.fiber)
      | no d ↦ IsParked-same w' j (b.rest j d m) (v.parked j (omega (arith, b.size, l)) m)
    ];
  }

-- A new fiber for the scheduler.
abbrev pub added_fiber : World → Callback → World
added_fiber w cb = record w {
  fibers =
      w.fibers
      ++ record {
        id = w.fiber_id;
        state = State.ready;
        context = Context.entry;
        stack = some 128000;
        cb = some cb;
        run_in_scheduler = true;
      }
        ∷ [];
  fiber_count = (w.fiber_count + 1) % 2 ^ 64;
}

pub new_fiber-added :
    (w : World) (cb : Callback)
    → new_fiber w (some cb) 0 true false ≡ Result.ok (added_fiber w cb, length w.fibers)
unfolding new_fiber
new_fiber-added w cb = refl

module _ (w : World) (h idle_fiber : ℕ) (v : IsLoop w h idle_fiber) (cb : Callback) where
  pub added_size : length (added_fiber w cb).fibers ≡ length w.fibers + 1
  added_size = length-append w.fibers _

  pub added_old : (i : ℕ) → i < length w.fibers → fiber_at (added_fiber w cb) i ≡ fiber_at w i
  added_old i l = get_or-append_lt w.fibers _ i no_fiber l

  pub added_new : fiber_at (added_fiber w cb) (length w.fibers) ≡ record {
    id = w.fiber_id;
    state = State.ready;
    context = Context.entry;
    stack = some 128000;
    cb = some cb;
    run_in_scheduler = true;
  }
  added_new = get_or-append_length w.fibers _ no_fiber

  added-IsParked : IsParked (added_fiber w cb) (length w.fibers)
  added-IsParked = record {
    in_scheduler = ap (λ (f : Fiber). f.run_in_scheduler) added_new;
    own = inl (ap (λ (f : Fiber). f.context) added_new);
    at_rest = inl (ap (λ (f : Fiber). f.state) added_new);
  }

  pub added-IsLoop : IsLoop (added_fiber w cb) h idle_fiber
  added-IsLoop = record {
    cpu = v.cpu;
    home = v.home;
    known = omega (arith, added_size, v.known);
    idle_known = omega (arith, added_size, v.idle_known);
    idle_apart = v.idle_apart;
    parked = λ i l n. elim (ℕ_discrete i (length w.fibers)) [
      | yes e ↦ subst (IsParked (added_fiber w cb)) (sym e) added-IsParked
      | no d ↦
          let old : i < length w.fibers = omega (arith, added_size, l, d) in
          IsParked-same w h idle_fiber v (added_fiber w cb) i (added_old i old) (v.parked i old n)
    ];
  }
