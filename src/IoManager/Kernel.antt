-- ===== src/IoManager/Kernel.antt =====
-- The manager together with the epoll instance `m_epfd` (src/iomanager/ioscheduler.cc): which
-- operation of `epoll_ctl` each call chooses, and the call with the kernel's answer.
pub mod Agreement
pub mod Adding
pub mod Removing
pub mod Calls
pub mod Closed
use coroutinelib.Base.{
  ℕ, Option, none, some, Bool, true, false, not, if◌then◌else◌, ltb, length, List, [], ◌∷◌,
}
use coroutinelib.Faults.{Fault, Result, ◌>>=◌, ◌>>◌, assert}
use coroutinelib.Callback.{Callback}
use coroutinelib.Epoll.{Op, Epoll}
use coroutinelib.Timer.Manager.{Manager}
use coroutinelib.IoManager.Event.{Event, or_event, without, has, not_and, is_set}
use coroutinelib.IoManager.{IoManager, context_at, new_io_manager}
use coroutinelib.IoManager.Events
use coroutinelib.IoManager.Events.{Caller, add_event, del_event, cancel_event}
use coroutinelib.IoManager.Idle.{Ready, real_events, handle_ready}

-- What is asked of `epoll_ctl`; `none` if the call returns before it.
abbrev pub Request : Type 0
Request = Option (Op × Event)

-- `events ? EPOLL_CTL_MOD : EPOLL_CTL_ADD`, with the events watched so far.
unfoldable pub add_op : Event → Op
add_op events = if is_set events then Op.modify else Op.add

-- `events ? EPOLL_CTL_MOD : EPOLL_CTL_DEL`, with the events left.
unfoldable pub remove_op : Event → Op
remove_op left = if is_set left then Op.modify else Op.delete

-- `addEvent`.
unfoldable pub add_request : IoManager → (fd : ℕ) → Event → Request
unfolding add_op
add_request m fd event =
    let events = (context_at m fd).events in
    if not (ltb fd (length m.contexts))
    then none
    else if has events event
    then none
    else some (add_op events, or_event events event)

-- `delEvent` and `cancelEvent`.
unfoldable pub remove_request : IoManager → (fd : ℕ) → Event → Request
unfolding remove_op
remove_request m fd event =
    let events = (context_at m fd).events in
    if not (ltb fd (length m.contexts))
    then none
    else if not_and events event
    then none
    else some (remove_op (without events event), without events event)

-- `cancelAll`.
unfoldable pub cancel_all_request : IoManager → (fd : ℕ) → Request
cancel_all_request m fd =
    if not (ltb fd (length m.contexts))
    then none
    else if not (is_set (context_at m fd).events)
    then none
    else some (Op.delete, Event.none)

-- A ready descriptor in `idle`.
unfoldable pub ready_request : IoManager → (fd : ℕ) → (mask : Event) → (trouble : Bool) → Request
unfolding remove_op
ready_request m fd mask trouble =
    let events = (context_at m fd).events in
    let real = real_events events mask trouble in
    if not (has events real)
    then none
    else some (remove_op (without events real), without events real)

-- The calls that register and remove events, and the reports of ready descriptors.
pub data Call : Type 0 where
  add : (fd : ℕ) → Event → Option Callback → Caller → Call
  del : (fd : ℕ) → Event → Call
  cancel : (fd : ℕ) → Event → Call
  cancel_all : (fd : ℕ) → Call
  ready : (fd : ℕ) → (mask : Event) → (trouble : Bool) → Call

abbrev pub fd_of : Call → ℕ
fd_of (Call.add fd event cb caller) = fd
fd_of (Call.del fd event) = fd
fd_of (Call.cancel fd event) = fd
fd_of (Call.cancel_all fd) = fd
fd_of (Call.ready fd mask trouble) = fd

unfoldable pub request : IoManager → Call → Request
unfolding add_request remove_request cancel_all_request ready_request
request m (Call.add fd event cb caller) = add_request m fd event
request m (Call.del fd event) = remove_request m fd event
request m (Call.cancel fd event) = remove_request m fd event
request m (Call.cancel_all fd) = cancel_all_request m fd
request m (Call.ready fd mask trouble) = ready_request m fd mask trouble

-- The call, with the result of its `epoll_ctl`.
unfoldable pub run : IoManager → Call → (fails : Bool) → Result IoManager
unfolding add_event del_event cancel_event Events.cancel_all handle_ready
run m (Call.add fd event cb caller) fails =
    add_event m fd event cb caller fails >>= λ r. Result.ok r.0
run m (Call.del fd event) fails = del_event m fd event fails >>= λ r. Result.ok r.0
run m (Call.cancel fd event) fails = cancel_event m fd event fails >>= λ r. Result.ok r.0
run m (Call.cancel_all fd) fails = Events.cancel_all m fd fails >>= λ r. Result.ok r.0
run m (Call.ready fd mask trouble) fails = handle_ready m (Ready.descriptor fd mask trouble fails)

module _ (k : Epoll) where
  open k use {State, interest, ctl}

  -- The kernel's answer.
  abbrev pub ask : State → (fd : ℕ) → Request → State × Bool
  ask s fd none = (s, false)
  ask s fd (some (op, e)) = ctl s op fd e

  -- A call on the manager and the epoll instance.
  unfoldable pub run_in : IoManager → State → Call → Result (IoManager × State)
  unfolding request run
  run_in m s c =
      let (s', fails) = ask s (fd_of c) (request m c) in run m c fails >>= λ m'. Result.ok (m', s')

  -- Any number of calls.
  unfoldable pub run_all : IoManager → State → List Call → Result (IoManager × State)
  unfolding run_in
  run_all m s [] = Result.ok (m, s)
  run_all m s (c ∷ cs) = run_in m s c >>= λ r. run_all r.0 r.1 cs

  -- The constructor: the pipe's reading end is watched.
  unfoldable pub construct : Manager → State → (pipe : ℕ) → Result (IoManager × State)
  unfolding new_io_manager
  construct timer s pipe =
      let (s', fails) = ctl s Op.add pipe Event.read in
      do assert (not fails); Result.ok (new_io_manager timer, s')
