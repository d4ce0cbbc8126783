-- ===== src/IoManager/Context.antt =====
-- `IOManager::FdContext` and its `EventContext`s (src/iomanager/ioscheduler.h,
-- src/iomanager/ioscheduler.cc).
pub mod Consistent
use coroutinelib.Base.{
  ℕ, zero, suc, ◌+◌, Option, none, some, Bool, true, false, not, ◌&&◌, List, [], ◌∷◌, if◌then◌else◌,
  is_some,
}
use coroutinelib.Faults.{Fault, Result, ◌>>=◌, ◌>>◌, assert, uses}
use coroutinelib.Callback.{Callback}
use coroutinelib.Scheduler.{Task, fiber_task, cb_task}
use coroutinelib.IoManager.Event.{Event, without, has, is_set}

-- `scheduled` says that the pointer `scheduler` is not null.
pub record EventContext : Type 0 where
  pub scheduled : Bool
  pub fiber : Option ℕ
  pub cb : Option Callback

-- `EventContext()`, and what `resetEventContext` makes of one.
abbrev pub no_context : EventContext
no_context = record { scheduled = false; fiber = none; cb = none }

pub record FdContext : Type 0 where
  pub read : EventContext
  pub write : EventContext
  pub fd : ℕ
  pub events : Event

-- `new FdContext()`, with the assignment of `fd` in `contextResize`.
abbrev pub new_context : ℕ → FdContext
new_context fd = record { read = no_context; write = no_context; fd = fd; events = Event.none }

-- `getEventContext`, which asserts that the event is READ or WRITE.
unfoldable pub get_event_context : FdContext → Event → Result EventContext
get_event_context c Event.read = Result.ok c.read
get_event_context c Event.write = Result.ok c.write
get_event_context c _ = Result.err Fault.assertion

-- A write through the reference that `getEventContext` gives.
unfoldable pub put_event_context : FdContext → Event → EventContext → FdContext
put_event_context c Event.read e = record c { read = e }
put_event_context c Event.write e = record c { write = e }
put_event_context c _ e = c

-- `resetEventContext`.
unfoldable pub reset_event_context : FdContext → Event → FdContext
unfolding put_event_context
reset_event_context c event = put_event_context c event no_context

-- `triggerEvent`: the context after it, and the task that it gives to `scheduleLock`.
unfoldable pub trigger_event : FdContext → Event → Result (FdContext × Task)
unfolding get_event_context reset_event_context
trigger_event c event = do
  assert (has c.events event)
  let c' = record c { events = without c.events event }
  e ← get_event_context c' event
  uses e.scheduled
  Result.ok (
    reset_event_context c' event,
    if is_some e.cb then cb_task e.cb none else fiber_task e.fiber none,
  )

-- `contextResize`, for the contexts from descriptor `fd` on.
unfoldable pub resize_from : (fd : ℕ) → (size : ℕ) → List FdContext → List FdContext
resize_from fd zero cs = []
resize_from fd (suc size) [] = new_context fd ∷ resize_from (fd + 1) size []
resize_from fd (suc size) (c ∷ cs) = c ∷ resize_from (fd + 1) size cs
