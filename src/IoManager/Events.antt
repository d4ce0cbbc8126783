-- ===== src/IoManager/Events.antt =====
-- The calls that register and remove events: `addEvent`, `delEvent`, `cancelEvent` and `cancelAll` of
-- src/iomanager/ioscheduler.cc. A Boolean result is the C++ one, with `return -1` in a function that
-- returns `bool` for true; `addEvent`'s 0 and -1 are true and false.
use coroutinelib.Base.{
  ℕ, Option, none, some, Bool, true, false, not, ◌&&◌, ◌||◌, if◌then◌else◌, is_some, ltb, length,
}
use coroutinelib.Faults.{Fault, Result, ◌>>=◌, ◌>>◌, assert}
use coroutinelib.Callback.{Callback}
use coroutinelib.IoManager.Event.{Event, or_event, without, has, not_and, is_set}
use coroutinelib.IoManager.Context.{
  FdContext, get_event_context, put_event_context, reset_event_context, trigger_event,
}
use coroutinelib.IoManager.{IoManager, context_at, put_context, count_up, count_down, schedule}

-- What `addEvent` stores: the scheduler of the calling thread, and the callback or the calling fiber,
-- with whether that fiber is running.
pub record Caller : Type 0 where
  pub scheduled : Bool
  pub fiber : ℕ
  pub running : Bool

-- `addEvent` from the point where the event context is filled.
unfoldable pub fill_event_context : FdContext → Event → Option Callback → Caller → Result FdContext
unfolding get_event_context put_event_context
fill_event_context c event cb caller = do
  e ← get_event_context c event
  assert (not e.scheduled && not (is_some e.fiber) && not (is_some e.cb))
  assert (is_some cb || caller.running)
  Result.ok (
      put_event_context c event (record {
        scheduled = caller.scheduled;
        fiber = if is_some cb then none else some caller.fiber;
        cb = cb;
      }))

-- `addEvent`. Beyond the last context it takes the lock on the contexts for writing while it holds
-- it for reading.
unfoldable pub add_event :
    IoManager
    → (fd : ℕ) → Event
    → Option Callback
    → Caller
    → (fails : Bool) → Result (IoManager × Bool)
unfolding fill_event_context
add_event m fd event cb caller fails =
    let c = context_at m fd in
    if not (ltb fd (length m.contexts))
    then Result.err Fault.deadlock
    else if has c.events event
    then Result.ok (m, false)
    else if fails
    then Result.ok (m, false)
    else do
      c' ← fill_event_context (record c { events = or_event c.events event }) event cb caller
      Result.ok (record (put_context m fd c') { pending = count_up m.pending }, true)

-- `delEvent`.
unfoldable pub del_event : IoManager → (fd : ℕ) → Event → (fails : Bool) → Result (IoManager × Bool)
unfolding get_event_context reset_event_context
del_event m fd event fails =
    let c = context_at m fd in
    if not (ltb fd (length m.contexts))
    then Result.ok (m, false)
    else if not_and c.events event
    then Result.ok (m, false)
    else if fails
    then Result.ok (m, true)
    else do
      e ← get_event_context c event
      Result.ok (
        record (put_context m fd
            (reset_event_context (record c { events = without c.events event }) event)) {
              pending = count_down m.pending;
            },
        true,
      )

-- `triggerEvent` on the context of a descriptor, which schedules the task.
unfoldable pub trigger : IoManager → (fd : ℕ) → Event → Result IoManager
unfolding trigger_event schedule
trigger m fd event = do
  (c, task) ← trigger_event (context_at m fd) event
  Result.ok (schedule (put_context m fd c) task)

-- `cancelEvent`.
unfoldable pub cancel_event :
    IoManager → (fd : ℕ) → Event → (fails : Bool) → Result (IoManager × Bool)
unfolding trigger
cancel_event m fd event fails =
    let c = context_at m fd in
    if not (ltb fd (length m.contexts))
    then Result.ok (m, false)
    else if not_and c.events event
    then Result.ok (m, false)
    else if fails
    then Result.ok (m, true)
    else do
      m' ← trigger (record m { pending = count_down m.pending }) fd event
      Result.ok (m', true)

-- `if (events & event) { triggerEvent(event); --m_pendingEventCount; }`.
unfoldable pub trigger_if : Bool → IoManager → (fd : ℕ) → Event → Result IoManager
unfolding trigger
trigger_if test m fd event =
    if not test
    then Result.ok m
    else do m' ← trigger m fd event; Result.ok (record m' { pending = count_down m'.pending })

-- `cancelAll`.
unfoldable pub cancel_all : IoManager → (fd : ℕ) → (fails : Bool) → Result (IoManager × Bool)
unfolding trigger_if
cancel_all m fd fails =
    if not (ltb fd (length m.contexts))
    then Result.ok (m, false)
    else if not (is_set (context_at m fd).events)
    then Result.ok (m, false)
    else if fails
    then Result.ok (m, true)
    else do
      m1 ← trigger_if (has (context_at m fd).events Event.read) m fd Event.read
      m2 ← trigger_if (has (context_at m1 fd).events Event.write) m1 fd Event.write
      assert (not (is_set (context_at m2 fd).events))
      Result.ok (m2, true)
