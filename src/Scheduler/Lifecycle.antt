-- ===== src/Scheduler/Lifecycle.antt =====
-- The constructor of `Scheduler`, `start` and `stop` (src/scheduler/scheduler.cc), on the thread that
-- makes the scheduler.
pub mod Workforce
use coroutinelib.Base.{
  ℕ, zero, suc, ◌+◌, ◌-◌, Option, none, some, Bool, true, false, not, ◌&&◌, List, [], ◌∷◌, ◌++◌,
  map, ◌==◌, if◌then◌else◌, is_some, is_empty,
}
use coroutinelib.Faults.{Fault, Result, ◌>>=◌, ◌>>◌, assert}
use coroutinelib.Callback.{Callback}
use coroutinelib.Fiber.{World, get_this, new_fiber, set_scheduler_fiber, resume}
use coroutinelib.Scheduler.{Scheduler, stopping}

-- The members of a `Scheduler` beside the queue and its counters. `threads` has the ids of the threads
-- in `m_threads`, and `scheduler_fiber` is `m_schedulerFiber`.
pub record Pool : Type 0 where
  pub sched : Scheduler
  pub thread_count : ℕ
  pub threads : List ℕ
  pub thread_ids : List (Option ℕ)
  pub use_caller : Bool
  pub scheduler_fiber : Option ℕ

-- The members as the constructor leaves them. `use_caller` is never set: `memory` is what it reads as.
abbrev pub made : (memory : Bool) → ℕ → List (Option ℕ) → Option ℕ → Pool
made memory count ids fiber = record {
  sched = record { tasks = []; active = 0; idle = 0; stop_flag = false };
  thread_count = count;
  threads = [];
  thread_ids = ids;
  use_caller = memory;
  scheduler_fiber = fiber;
}

-- The constructor's part for a caller that takes part: a main fiber, and the fiber of the scheduler.
-- `m_rootThread`, which it adds to the ids, is -1.
unfoldable pub construct_caller :
    World → (threads : ℕ) → (memory garbage fails : Bool) → Result (World × Pool)
unfolding get_this new_fiber set_scheduler_fiber
construct_caller w threads memory garbage fails = do
  (w1, main) ← get_this w garbage fails
  (w2, f) ← new_fiber w1 (some Callback.run_scheduler) 0 false fails
  Result.ok (set_scheduler_fiber w2 (some f), made memory (threads - 1) (none ∷ []) (some f))

-- The constructor. `occupied` says that the thread has a scheduler already; `garbage` and `fails` are
-- for the fibers that it makes.
unfoldable pub construct :
    World
    → (occupied : Bool) → (threads : ℕ) → (use_caller memory garbage fails : Bool)
    → Result (World × Pool)
unfolding construct_caller
construct w occupied threads use_caller memory garbage fails =
    assert (not (threads == 0) && not occupied)
    >> (if use_caller
        then construct_caller w threads memory garbage fails
        else Result.ok (w, made memory threads [] none))

-- The ids of the new threads, `tids` being the system's choice.
abbrev pub first : (ℕ → ℕ) → ℕ → List ℕ
first tids zero = []
first tids (suc n) = first tids n ++ tids n ∷ []

-- `start`.
unfoldable pub start : Pool → (tids : ℕ → ℕ) → Result Pool
start p tids = if p.sched.stop_flag then Result.ok p else do
  assert (is_empty p.threads)
  Result.ok (record p {
    threads = first tids p.thread_count;
    thread_ids = p.thread_ids ++ map some (first tids p.thread_count);
  })

-- How `stop` goes on: it returns at once, or it has called `tickle` so many times and, if there is a
-- scheduler fiber, has switched to it.
pub data Stop : Type 0 where
  returned : Stop
  waits : Pool → World → (tickles : ℕ) → Stop

-- `stop` up to the return of the scheduler fiber. `here` says that the scheduler is the thread's own.
unfoldable pub stop : Pool → World → (here fails : Bool) → Result Stop
unfolding stopping resume
stop p w here fails =
    let p' = record p { sched = record (p.sched) { stop_flag = true } } in
    if stopping p.sched then Result.ok Stop.returned else do
      assert (if p.use_caller then here else not here)
      elim p.scheduler_fiber [
        | none ↦ Result.ok (Stop.waits p' w p.thread_count)
        | some f ↦ resume w f fails >>= λ w'. Result.ok (Stop.waits p' w' (p.thread_count + 1))
      ]

-- The rest of `stop`: the threads that it joins.
unfoldable pub stop_end : Pool → Pool × List ℕ
stop_end p = (record p { threads = [] }, p.threads)
