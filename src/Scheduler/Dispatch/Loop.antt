-- ===== src/Scheduler/Dispatch/Loop.antt =====
-- The loop of `Scheduler::run` on one thread (src/scheduler/scheduler.cc), with its idle fiber in
-- `Scheduler::idle`.
use coroutinelib.Base.{
  ℕ, zero, suc, ◌≡◌, refl, Option, none, some, false, List, [], ◌∷◌, if◌then◌else◌,
}
use coroutinelib.Faults.{Result, ◌>>=◌}
use coroutinelib.Fiber.{World}
use coroutinelib.Scheduler.{Scheduler, Task, take_task, is_task}
use coroutinelib.Scheduler.Dispatch.{Leaves, round}
use coroutinelib.Scheduler.Dispatch.Idle.{idle_leaves}
use coroutinelib.Scheduler.Dispatch.Keeps.{HasRun}

-- Who has the thread in a round: the code of a task, or `idle`.
unfoldable pub leaves_in : Scheduler → (thread_id : ℕ) → Leaves → Leaves
leaves_in s thread_id user =
    if is_task (take_task s thread_id).1 then user else idle_leaves (take_task s thread_id).0

-- The loop, with the number of rounds at most, and what the tasks' code does in each; `none` if it is
-- not left in so many rounds.
unfoldable pub run_loop :
    ℕ
    → World
    → Scheduler
    → (idle_fiber thread_id : ℕ) → (users : ℕ → Leaves) → Result (Option (World × Scheduler))
unfolding round leaves_in
run_loop zero w s idle_fiber thread_id users = Result.ok none
run_loop (suc rounds) w s idle_fiber thread_id users =
    round w s idle_fiber thread_id (leaves_in s thread_id (users rounds)) false >>= λ r. elim r [
      | none ↦ Result.ok (some (w, s))
      | some (w', s') ↦ run_loop rounds w' s' idle_fiber thread_id users
    ]

-- The tasks have the thread one after the other, those of ended fibers left out.
pub data HaveRun (h : ℕ) : World → List Task → World → Type 0 where
  none_left : {w : World} → HaveRun h w [] w
  next :
      {w u w' : World} {t : Task} {ts : List Task} (leaves : Leaves)
      → HasRun w h leaves t u
      → HaveRun h u ts w'
      → HaveRun h w (t ∷ ts) w'

module _ (idle_fiber id : ℕ) (users : ℕ → Leaves) where
  abbrev pub round_of : ℕ → World → Scheduler → Result (Option (World × Scheduler))
  round_of n w s = round w s idle_fiber id (leaves_in s id (users n)) false

  pub loop_left :
      (n : ℕ) (w : World) (s : Scheduler)
      → round_of n w s ≡ Result.ok none
      → run_loop (suc n) w s idle_fiber id users ≡ Result.ok (some (w, s))
  unfolding run_loop
  loop_left n w s e = rw e refl

  pub loop_on :
      (n : ℕ) (w : World) (s : Scheduler) (w' : World) (s' : Scheduler)
      → round_of n w s ≡ Result.ok (some (w', s'))
      → run_loop (suc n) w s idle_fiber id users ≡ run_loop n w' s' idle_fiber id users
  unfolding run_loop
  loop_on n w s w' s' e = rw e refl
