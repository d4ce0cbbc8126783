-- ===== src/Fiber/Life.antt =====
-- The life of a fiber (src/fiber/fiber.cc): resumed, suspended, ended, reset.
use coroutinelib.Base.{
  ℕ, ◌<◌, ◌≡◌, ◌≢◌, sym, ap, ap₂, ◌∙◌, Option, none, some, Bool, false, arith, ◌⊎◌, inl, inr,
  length, length-set, if◌then◌else◌, ◌&&◌,
}
use coroutinelib.Callback.{Callback}
use coroutinelib.Faults.{Result, Fault, ◌>>=◌}
use coroutinelib.Fiber.{
  World, Fiber, State, Context, fiber_at, put_fiber, home, resume, yield, main_func_end, reset,
}
use coroutinelib.Fiber.Switch.{Own, Resumed, resume-enters, at-put_self, at-put_ne}
use coroutinelib.Fiber.Returns.{yield-returns, after_yield}

-- A fiber that can be resumed, on a thread that runs the code of the fiber that `i` yields to.
pub record IsResumable (w : World) (i h : ℕ) : Type 0 where
  pub known : i < length w.fibers
  pub home_known : h < length w.fibers
  pub apart : i ≢ h
  pub is_ready : (fiber_at w i).state ≡ State.ready
  pub to_home : home w (fiber_at w i) ≡ some h
  pub on_cpu : w.on_cpu ≡ h
  pub own : Own i (fiber_at w i).context

-- `w'` is `w` but for the two fibers of a switch, and runs the same code as `w`.
pub record Back (w : World) (i h : ℕ) (f : Fiber) (w' : World) : Type 0 where
  pub cpu : w'.on_cpu ≡ w.on_cpu
  pub current : w'.current ≡ some h
  pub fiber : fiber_at w' i ≡ f
  pub caller : fiber_at w' h ≡ record (fiber_at w h) { context = Context.saved h }
  pub rest : (j : ℕ) → j ≢ i → j ≢ h → fiber_at w' j ≡ fiber_at w j
  pub scheduler_fiber : w'.scheduler_fiber ≡ w.scheduler_fiber
  pub size : length w'.fibers ≡ length w.fibers

home-cong :
    (w w' : World) (f : Fiber)
    → w'.thread_fiber ≡ w.thread_fiber
    → w'.scheduler_fiber ≡ w.scheduler_fiber
    → home w' f ≡ home w f
home-cong w w' f e e' = ap₂ (λ (t s : Option ℕ). if f.run_in_scheduler then s else t) e e'

module _ (w : World) (i h : ℕ) (r : IsResumable w i h) where
  resumed : (w' : World) × (resume w i false ≡ Result.ok w') × Resumed w i h w'
  resumed = resume-enters w i h r.known r.home_known r.apart r.is_ready r.to_home r.on_cpu r.own

  abbrev suspended : Fiber
  suspended = record (fiber_at w i) { state = State.ready; context = Context.saved i }

  -- `resume` of a fiber that can be resumed followed by its `yield`: both succeed, the code that called
  -- `resume` goes on as the current fiber, the fiber is ready again with its place saved, the caller's
  -- context holds the caller's code, and no other fiber changes.
  pub resume-yield :
      (w' : World) × ((resume w i false >>= λ u. yield u i false) ≡ Result.ok w')
      × Back w i h suspended w'
  resume-yield =
      let (u, runs, s) = resumed in
      let running : (fiber_at u i).state ≡ State.running = ap (λ (f : Fiber). f.state) s.fiber in
      let (w', goes_back, y) =
        yield-returns u i h (omega (arith, s.size, r.known)) r.apart (inl running)
          (ap (home u) s.fiber
            ∙ home-cong w u (record (fiber_at w i) { state = State.running }) s.thread_fiber
                s.scheduler_fiber
            ∙ r.to_home)
          s.cpu (inr (ap (λ (f : Fiber). f.context) s.caller)) in
      (
        w',
        rw runs goes_back,
        record {
          cpu = y.cpu ∙ sym r.on_cpu;
          current = y.current;
          fiber =
              y.fiber
              ∙ ap
                  (λ (f : Fiber). record f {
                    state = after_yield f.state;
                    context = Context.saved i;
                  })
                  s.fiber;
          caller = y.rest h (λ q. r.apart (sym q)) ∙ s.caller;
          rest = λ j ni nh. y.rest j ni ∙ s.rest j ni nh;
          scheduler_fiber = y.scheduler_fiber ∙ s.scheduler_fiber;
          size = y.size ∙ s.size;
        },
      )

  abbrev ended : Fiber
  ended = record (fiber_at w i) { state = State.term; context = Context.saved i; cb = none }

  -- `resume` of a fiber that can be resumed, whose callback then returns: the code that called `resume`
  -- goes on as the current fiber, the fiber has ended without its callback, and no other fiber changes.
  pub resume-end :
      (w' : World) × ((resume w i false >>= λ u. main_func_end u i false) ≡ Result.ok w')
      × Back w i h ended w'
  unfolding main_func_end
  resume-end =
      let (u, runs, s) = resumed in
      let f : Fiber = record (fiber_at u i) { cb = none; state = State.term } in
      let known : i < length u.fibers = omega (arith, s.size, r.known) in
      let self : fiber_at (put_fiber u i f) i ≡ f = at-put_self u i f known in
      let other : (j : ℕ) → j ≢ i → fiber_at (put_fiber u i f) j ≡ fiber_at u j =
        λ j n. at-put_ne u i j f (λ e. n (sym e)) in
      let (w', goes_back, y) =
        yield-returns (put_fiber u i f) i h (omega (arith, length-set u.fibers i f, known)) r.apart
          (inr (ap (λ (g : Fiber). g.state) self))
          (ap (home u) self
            ∙ ap (λ (g : Fiber). home u (record g { cb = none; state = State.term })) s.fiber
            ∙ home-cong w u (fiber_at w i) s.thread_fiber s.scheduler_fiber
            ∙ r.to_home)
          s.cpu (inr (ap (λ (g : Fiber). g.context) (other h (λ q. r.apart (sym q)) ∙ s.caller))) in
      (
        w',
        rw runs goes_back,
        record {
          cpu = y.cpu ∙ sym r.on_cpu;
          current = y.current;
          fiber =
              y.fiber
              ∙ ap
                  (λ (g : Fiber). record g {
                    state = after_yield g.state;
                    context = Context.saved i;
                  })
                  self
              ∙ ap
                  (λ (g : Fiber). record g {
                    state = State.term;
                    context = Context.saved i;
                    cb = none;
                  })
                  s.fiber;
          caller = y.rest h (λ q. r.apart (sym q)) ∙ other h (λ q. r.apart (sym q)) ∙ s.caller;
          rest = λ j ni nh. y.rest j ni ∙ other j ni ∙ s.rest j ni nh;
          scheduler_fiber = y.scheduler_fiber ∙ s.scheduler_fiber;
          size = y.size ∙ length-set u.fibers i f ∙ s.size;
        },
      )

-- An ended fiber that has a stack: `resume` fails its assertion, and `reset` makes it ready to enter
-- the new callback, with its id and stack unchanged.
pub ended-reset :
    (w : World) (i : ℕ) (cb : Option Callback) (size : ℕ)
    → i < length w.fibers
    → (fiber_at w i).state ≡ State.term
    → (fiber_at w i).stack ≡ some size
    → (resume w i false ≡ Result.err Fault.assertion)
      × (w' : World) × (reset w i cb false ≡ Result.ok w')
      × (fiber_at w' i
          ≡ record (fiber_at w i) { state = State.ready; context = Context.entry; cb = cb })
unfolding reset resume
ended-reset w i cb size known e e' = (
  rw (e, resume),
  put_fiber w i (record (fiber_at w i) { state = State.ready; context = Context.entry; cb = cb }),
  rw (e', e, reset),
  at-put_self w i _ known,
)

and_false : (a b : Bool) → (a ≡ false) ⊎ (b ≡ false) → (a && b) ≡ false
and_false a b h = ground arith
