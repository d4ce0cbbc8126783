-- ===== src/Scheduler.antt =====
-- src/scheduler/scheduler.h and src/scheduler/scheduler.cc: the task queue and the counters of
-- `Scheduler`, the choice of the next task in `run`, `stop` and `stopping`. A thread id of -1, for any
-- thread, is `none`. `tickle` is virtual: a Boolean result says that it is called.
pub mod Queue
pub mod Workers
pub mod Lifecycle
pub mod Dispatch
mod Tests
use coroutinelib.Base.{
  ℕ, zero, suc, ◌+◌, Option, none, some, Bool, true, false, not, ◌&&◌, ◌||◌, List, [], ◌∷◌, ◌++◌,
  ◌==◌, if◌then◌else◌, is_some, is_empty,
}
use coroutinelib.Callback.{Callback}

-- `ScheduleTask`.
pub record Task : Type 0 where
  pub fiber : Option ℕ
  pub cb : Option Callback
  pub thread : Option ℕ

-- The constructors from a fiber and from a callback; those from a pointer take its value and leave it
-- null.
abbrev pub fiber_task : Option ℕ → Option ℕ → Task
fiber_task f thread = record { fiber = f; cb = none; thread = thread }

abbrev pub cb_task : Option Callback → Option ℕ → Task
cb_task cb thread = record { fiber = none; cb = cb; thread = thread }

-- `ScheduleTask()` and `reset`.
abbrev pub no_task : Task
no_task = record { fiber = none; cb = none; thread = none }

-- `task.fiber || task.cb`.
abbrev pub is_task : Task → Bool
is_task t = is_some t.fiber || is_some t.cb

pub record Scheduler : Type 0 where
  pub tasks : List Task
  pub active : ℕ
  pub idle : ℕ
  pub stop_flag : Bool

-- `scheduleLock`, with the call of `tickle`.
unfoldable pub schedule_lock : Scheduler → Task → Scheduler × Bool
schedule_lock s task =
    let need_tickle = is_empty s.tasks in
    (if is_task task then record s { tasks = s.tasks ++ task ∷ [] } else s, need_tickle)

-- `it->thread != -1 && it->thread != thread_id`.
unfoldable pub is_foreign : ℕ → Task → Bool
is_foreign thread_id task = elim task.thread [ none ↦ false | some t ↦ not (t == thread_id) ]

-- The walk over the queue in `run`: the tasks passed over, and the rest from the task taken.
unfoldable pub skip_foreign : ℕ → List Task → List Task × List Task
unfolding is_foreign
skip_foreign id [] = ([], [])
skip_foreign id (t ∷ ts) =
    let (passed, rest) = skip_foreign id ts in
    if is_foreign id t then (t ∷ passed, rest) else ([], t ∷ ts)

-- `assert(it->fiber || it->cb)` in the locked block of `run`, for the task that it takes, if any.
unfoldable pub take_asserts : Scheduler → ℕ → Bool
unfolding skip_foreign
take_asserts s id = elim (skip_foreign id s.tasks).1 [ [] ↦ true | t ∷ ts ↦ is_task t ]

-- The locked block of `run`, but for that assertion: the task taken, `no_task` for none, and
-- `tickle_me`. A task that is taken leaves `it` at the erased node, which is not `end()`.
unfoldable pub take_from : Scheduler → List Task → List Task → Scheduler × Task × Bool
take_from s passed [] = (s, no_task, not (is_empty passed))
take_from s passed (t ∷ ts) = (record s { tasks = passed ++ ts; active = s.active + 1 }, t, true)

unfoldable pub take_task : Scheduler → ℕ → Scheduler × Task × Bool
unfolding skip_foreign take_from
take_task s id = take_from s (skip_foreign id s.tasks).0 (skip_foreign id s.tasks).1

-- `hasIdleThreads`.
unfoldable pub has_idle_threads : Scheduler → Bool
has_idle_threads s = not (s.idle == 0)

-- `Scheduler::stopping`.
unfoldable pub stopping : Scheduler → Bool
stopping s = s.stop_flag && is_empty s.tasks && s.active == 0
