-- ===== src/Scheduler/Dispatch/Keeps.antt =====
-- Any round of `Scheduler::run` on a thread (src/scheduler/scheduler.cc, src/fiber/fiber.cc).
use coroutinelib.Base.{
  is_empty, ℕ, ◌+◌, ◌<◌, ◌≡◌, ◌≢◌, refl, subst, ap, Option, none, some, Bool, true, false, not,
  List, [], ◌∷◌, ◌++◌, inl, inr, arith, All, length, Option-cases,
}
use coroutinelib.Faults.{Result}
use coroutinelib.Callback.{Callback}
use coroutinelib.Fiber.{World, Fiber, State, fiber_at, is_term, new_fiber}
use coroutinelib.Fiber.Life.{Back}
use coroutinelib.Scheduler.{Scheduler, Task, take_task, is_foreign, is_task, no_task}
use coroutinelib.Scheduler.Queue.{Takes, take_task-Takes, take_asserts-HoldsTasks}
use coroutinelib.Scheduler.Dispatch.{
  Leaves, resume_until, run_fiber, run_callback_task, run_idle, execute, round, one_active_less,
  one_idle_less, one_idle_more,
}
use coroutinelib.Scheduler.Dispatch.Rounds.{
  IsLoop, left, parked-IsResumable, resume_until-Back, Back-IsLoop, added_fiber, added-IsLoop,
  added_new, added_size,
}

-- How a task has had the thread: its fiber had ended before, or ran until it left the thread, or a new
-- fiber did so with the task's callback.
pub data HasRun (w : World) (h : ℕ) (leaves : Leaves) (t : Task) (w' : World) : Type 0 where
  fiber_ended :
      (f : ℕ)
      → t.fiber ≡ some f
      → (fiber_at w f).state ≡ State.term
      → w' ≡ w
      → HasRun w h leaves t w'
  fiber_ran : (f : ℕ) → t.fiber ≡ some f → Back w f h (left w f leaves) w' → HasRun w h leaves t w'
  callback_ran :
      (cb : Callback)
      → t.fiber ≡ none
      → t.cb ≡ some cb
      → Back
          (added_fiber w cb)
          (length w.fibers)
          h
          (left (added_fiber w cb) (length w.fibers) leaves)
          w'
      → HasRun w h leaves t w'

-- What a round may do: run the first task that is not for another thread and count it off; give the
-- thread to the idle fiber, or leave the loop if that has ended, when there is none.
pub data Rounded (w : World) (h idle_fiber : ℕ) (s : Scheduler) (id : ℕ) (leaves : Leaves)
    : Result (Option (World × Scheduler)) → Type 0 where
  ran :
      {w' : World} {s' : Scheduler} (passed : List Task) (t : Task) (rest : List Task)
      → s.tasks ≡ passed ++ t ∷ rest
      → take_task s id ≡ (record s { tasks = passed ++ rest; active = s.active + 1 }, t, true)
      → All (λ u. is_foreign id u ≡ true) passed
      → is_foreign id t ≡ false
      → s' ≡ record s { tasks = passed ++ rest; active = s.active }
      → HasRun w h leaves t w'
      → IsLoop w' h idle_fiber
      → Rounded w h idle_fiber s id leaves (Result.ok (some (w', s')))
  idled :
      {w' : World} {s' : Scheduler}
      → take_task s id ≡ (s, no_task, not (is_empty s.tasks))
      → All (λ t. is_foreign id t ≡ true) s.tasks
      → (fiber_at w idle_fiber).state ≡ State.ready
      → s' ≡ s
      → Back w idle_fiber h (left w idle_fiber leaves) w'
      → IsLoop w' h idle_fiber
      → Rounded w h idle_fiber s id leaves (Result.ok (some (w', s')))
  left_loop :
      take_task s id ≡ (s, no_task, not (is_empty s.tasks))
      → All (λ t. is_foreign id t ≡ true) s.tasks
      → (fiber_at w idle_fiber).state ≡ State.term
      → Rounded w h idle_fiber s id leaves (Result.ok none)

-- A task has a callback, or a fiber other than the one that the loop runs in.
abbrev pub Fits : World → ℕ → Task → Type 0
Fits w h t = (is_task t ≡ true) × ((f : ℕ) → t.fiber ≡ some f → (f < length w.fibers) × (f ≢ h))

module _ (w : World) (h idle_fiber : ℕ) (v : IsLoop w h idle_fiber) (leaves : Leaves) where
  term-is_term : (f : ℕ) → (fiber_at w f).state ≡ State.term → is_term (fiber_at w f).state ≡ true
  term-is_term f e = rw e

  ready-is_term :
      (f : ℕ) → (fiber_at w f).state ≡ State.ready → is_term (fiber_at w f).state ≡ false
  ready-is_term f e = rw e

  -- The task's part of a round.
  record Executes (s : Scheduler) (t : Task) : Type 0 where
    world : World
    runs : execute w s idle_fiber t leaves false ≡ Result.ok (some (world, one_active_less s))
    has_run : HasRun w h leaves t world
    is_loop : IsLoop world h idle_fiber

  execute-fiber :
      (s : Scheduler) (t : Task) (f : ℕ)
      → t.fiber ≡ some f
      → (f < length w.fibers) × (f ≢ h)
      → Executes s t
  unfolding execute run_fiber
  execute-fiber s t f e (known, n) = elim (v.parked f known n).at_rest [
    | inr over ↦ record {
      world = w;
      runs = rw (e, term-is_term f over) refl;
      has_run = HasRun.fiber_ended f e over refl;
      is_loop = v;
    }
    | inl ready ↦
        let (w', runs, b) =
          resume_until-Back w h idle_fiber v f leaves
            (parked-IsResumable w h idle_fiber v f known n ready) in
        record {
          world = w';
          runs = rw (e, ready-is_term f ready, runs) refl;
          has_run = HasRun.fiber_ran f e b;
          is_loop = Back-IsLoop w h idle_fiber v w' f leaves known n b;
        }
  ]

  run_callback_task-eq :
      (s : Scheduler) (cb : Callback) (w' : World)
      → resume_until (added_fiber w cb) (length w.fibers) leaves false ≡ Result.ok w'
      → run_callback_task w s cb leaves false ≡ Result.ok (some (w', one_active_less s))
  unfolding run_callback_task new_fiber
  run_callback_task-eq s cb w' e = rw e refl

  execute-callback :
      (s : Scheduler) (t : Task) (cb : Callback) → t.fiber ≡ none → t.cb ≡ some cb → Executes s t
  unfolding execute
  execute-callback s t cb e e' =
      let u = added_fiber w cb in
      let f = length w.fibers in
      let known : f < length u.fibers = omega (arith, added_size w h idle_fiber v cb) in
      let n : f ≢ h = λ q. omega (arith, q, v.known) in
      let vu = added-IsLoop w h idle_fiber v cb in
      let (w', runs, b) = resume_until-Back u h idle_fiber vu f leaves (
        parked-IsResumable u h idle_fiber vu f known n
          (ap (λ (g : Fiber). g.state) (added_new w h idle_fiber v cb))) in
      record {
        world = w';
        runs = rw (e, e') (run_callback_task-eq s cb w' runs);
        has_run = HasRun.callback_ran cb e e' b;
        is_loop = Back-IsLoop u h idle_fiber vu w' f leaves known n b;
      }

  execute-task : (s : Scheduler) (t : Task) → Fits w h t → Executes s t
  execute-task s t (is, apart) = elim (Option-cases t.fiber) [
    | inr (f, e) ↦ execute-fiber s t f e (apart f e)
    | inl e ↦ elim (Option-cases t.cb) [
      | inr (cb, e') ↦ execute-callback s t cb e e'
      | inl e' ↦ absurd (no_task-either e e')
    ]
  ]
    where
      no_task-either : t.fiber ≡ none → t.cb ≡ none → ⊥
      no_task-either e e' = cc

Fits-is_task :
    (w : World) (h : ℕ) (ts : List Task) → All (Fits w h) ts → All (λ t. is_task t ≡ true) ts
Fits-is_task w h [] fits = tt
Fits-is_task w h (t ∷ ts) fits = (fits.0.0, Fits-is_task w h ts fits.1)

pub All-at :
    (P : Task → Type 0) (passed : List Task) (t : Task) (rest : List Task)
    → All P (passed ++ t ∷ rest)
    → P t
All-at P [] t rest (p, h) = p
All-at P (u ∷ passed) t rest (p, h) = All-at P passed t rest h

module _ (w : World) (h idle_fiber : ℕ) (v : IsLoop w h idle_fiber) (leaves : Leaves)
    (s : Scheduler) (id : ℕ) where
  round_without_task :
      take_task s id ≡ (s, no_task, not (is_empty s.tasks))
      → All (λ t. is_foreign id t ≡ true) s.tasks
      → Rounded w h idle_fiber s id leaves (execute w s idle_fiber no_task leaves false)
  unfolding execute run_idle
  round_without_task takes all = elim (v.parked idle_fiber v.idle_known v.idle_apart).at_rest [
    | inr over ↦
        rw (term-is_term w h idle_fiber v leaves idle_fiber over) (Rounded.left_loop takes all over)
    | inl ready ↦
        let (w', runs, b) =
          resume_until-Back w h idle_fiber v idle_fiber leaves
            (parked-IsResumable w h idle_fiber v idle_fiber v.idle_known v.idle_apart ready) in
        rw (ready-is_term w h idle_fiber v leaves idle_fiber ready, runs)
          (Rounded.idled takes all ready (back_and_forth s) b
            (Back-IsLoop w h idle_fiber v w' idle_fiber leaves v.idle_known v.idle_apart b))
  ]
    where
      back_and_forth : (s : Scheduler) → one_idle_less (one_idle_more s) ≡ s
      back_and_forth s = ap (λ (n : ℕ). record s { idle = n }) (omega arith)

  round_from :
      (r : Scheduler × Task × Bool)
      → take_task s id ≡ r
      → Takes s id r
      → All (Fits w h) s.tasks
      → Rounded w h idle_fiber s id leaves (execute w r.0 idle_fiber r.1 leaves false)
  round_from _ takes (Takes.nothing all) fits = round_without_task takes all
  round_from _ takes (Takes.first passed t rest split all own) fits =
      let e =
        execute-task w h idle_fiber v leaves
          (record s { tasks = passed ++ rest; active = s.active + 1 }) t
          (All-at (Fits w h) passed t rest (subst (All (Fits w h)) split fits)) in
      rw (e.runs) (
        Rounded.ran passed t rest split takes all own
          (ap (λ (n : ℕ). record s { tasks = passed ++ rest; active = n }) (omega arith)) e.has_run
          e.is_loop)

  -- A round of `run` on a thread whose other fibers have ended or can be resumed, with tasks that have a
  -- callback or such a fiber, when the code that gets the thread yields or returns, without resuming a
  -- fiber itself, and posts no task, system calls succeeding: it returns without a fault. The first task
  -- that is not for another thread is taken out of the queue, and its fiber, or a new one for its
  -- callback, has had the thread, unless it had ended; without such a task the idle fiber has had the
  -- thread, or the loop is left if that had ended. The counts of active and idle threads are as before,
  -- the thread runs the loop again, and its other fibers have ended or can be resumed.
  pub round-Rounded :
      All (Fits w h) s.tasks
      → Rounded w h idle_fiber s id leaves (round w s idle_fiber id leaves false)
  unfolding round
  round-Rounded fits =
      rw (take_asserts-HoldsTasks s id (Fits-is_task w h s.tasks fits))
        (round_from (take_task s id) refl (take_task-Takes s id) fits)
