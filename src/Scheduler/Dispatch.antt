-- ===== src/Scheduler/Dispatch.antt =====
-- `Scheduler::run` on one thread (src/scheduler/scheduler.cc): how it begins, and a round of its loop
-- with the switches to the fibers of src/fiber/fiber.cc. The scheduler's `idle` and the users' code in
-- the fibers are seen by how they leave the thread.
pub mod Rounds
pub mod Keeps
pub mod Refines
pub mod Idle
pub mod First
pub mod Loop
pub mod Drains
pub mod Serves
pub mod Callbacks
mod Tests
use coroutinelib.Base.{
  ℕ, zero, suc, ◌+◌, ◌-◌, Option, none, some, Bool, true, false, List, [], ◌∷◌, if◌then◌else◌, ◌==◌,
}
use coroutinelib.Faults.{Fault, Result, ◌>>=◌, ◌>>◌, assert}
use coroutinelib.Callback.{Callback}
use coroutinelib.Fiber.{World, fiber_at, is_term, get_this, new_fiber, resume, yield, main_func_end}
use coroutinelib.Scheduler.{Scheduler, Task, take_asserts, take_task}

-- `run` before its loop: the idle fiber. `is_root` says that the thread is `m_rootThread`; `garbage` and
-- `fails` are for the fibers that it makes.
unfoldable pub run_begin : World → (is_root garbage fails : Bool) → Result (World × ℕ)
unfolding get_this new_fiber
run_begin w is_root garbage fails = do
  w' ← (if is_root then Result.ok w else get_this w garbage fails >>= λ r. Result.ok r.0)
  new_fiber w' (some Callback.idle_scheduler) 0 true fails

-- What the code of a fiber that was resumed does next with the thread: it yields, or its callback
-- returns. Code that resumes another fiber itself (Fiber/Nested) or throws is not one of these, and what
-- it posts is not seen here (Scheduler/Dispatch/Serves).
pub data Leaves : Type 0 where
  yields returns : Leaves

-- `resume`, up to its return.
unfoldable pub resume_until : World → ℕ → Leaves → (fails : Bool) → Result World
unfolding resume yield main_func_end
resume_until w f Leaves.yields fails = resume w f fails >>= λ u. yield u f fails
resume_until w f Leaves.returns fails = resume w f fails >>= λ u. main_func_end u f fails

-- A task or the idle fiber has left the thread: `m_activeThreadCount--`, `m_idleThreadCount--`.
abbrev pub one_active_less : Scheduler → Scheduler
one_active_less s = record s { active = s.active - 1 }

abbrev pub one_idle_less : Scheduler → Scheduler
one_idle_less s = record s { idle = s.idle - 1 }

abbrev pub one_idle_more : Scheduler → Scheduler
one_idle_more s = record s { idle = s.idle + 1 }

-- A task with a fiber.
unfoldable pub run_fiber :
    World → Scheduler → ℕ → Leaves → (fails : Bool) → Result (Option (World × Scheduler))
unfolding resume_until
run_fiber w s f leaves fails =
    if is_term (fiber_at w f).state
    then Result.ok (some (w, one_active_less s))
    else resume_until w f leaves fails >>= λ w'. Result.ok (some (w', one_active_less s))

-- A task with a callback: a new fiber.
unfoldable pub run_callback_task :
    World → Scheduler → Callback → Leaves → (fails : Bool) → Result (Option (World × Scheduler))
unfolding new_fiber resume_until
run_callback_task w s cb leaves fails = do
  (w1, f) ← new_fiber w (some cb) 0 true fails
  w2 ← resume_until w1 f leaves fails
  Result.ok (some (w2, one_active_less s))

-- No task: the idle fiber, or the end of the loop.
unfoldable pub run_idle :
    World
    → Scheduler
    → (idle_fiber : ℕ) → Leaves
    → (fails : Bool) → Result (Option (World × Scheduler))
unfolding resume_until
run_idle w s idle_fiber leaves fails =
    if is_term (fiber_at w idle_fiber).state
    then Result.ok none
    else resume_until w idle_fiber leaves fails >>= λ w'.
        Result.ok (some (w', one_idle_less (one_idle_more s)))

-- The branches on the task.
unfoldable pub execute :
    World
    → Scheduler
    → (idle_fiber : ℕ) → Task
    → Leaves
    → (fails : Bool) → Result (Option (World × Scheduler))
unfolding run_fiber run_callback_task run_idle
execute w s idle_fiber task leaves fails = elim task.fiber [
  | some f ↦ run_fiber w s f leaves fails
  | none ↦ elim task.cb [
    | some cb ↦ run_callback_task w s cb leaves fails
    | none ↦ run_idle w s idle_fiber leaves fails
  ]
]

-- A round of the loop: `none` when it is left.
unfoldable pub round :
    World
    → Scheduler
    → (idle_fiber thread_id : ℕ) → Leaves
    → (fails : Bool) → Result (Option (World × Scheduler))
unfolding take_asserts take_task execute
round w s idle_fiber thread_id leaves fails =
    assert (take_asserts s thread_id)
    >> execute w (take_task s thread_id).0 idle_fiber (take_task s thread_id).1 leaves fails
