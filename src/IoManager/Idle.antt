-- ===== src/IoManager/Idle.antt =====
-- `IOManager::idle` (src/iomanager/ioscheduler.cc): one round of its loop, with the clock readings
-- and the results of `epoll_wait` and `epoll_ctl` as arguments.
use coroutinelib.Base.{ℕ, Option, none, some, Bool, not, List, [], ◌∷◌, if◌then◌else◌, ltb}
use coroutinelib.Faults.{Result, ◌>>=◌}
use coroutinelib.Callback.{Callback}
use coroutinelib.Timer.Manager.{get_next_timer, list_expired_cb}
use coroutinelib.Scheduler.{cb_task}
use coroutinelib.IoManager.Event.{Event, or_event, has}
use coroutinelib.IoManager.{IoManager, context_at, schedule, stopping}
use coroutinelib.IoManager.Events.{trigger_if}

-- An `epoll_event`: the pipe's, or that of a descriptor's context, with the flags EPOLLIN and EPOLLOUT
-- as an event set and whether EPOLLERR or EPOLLHUP is there. `fails` is the result of the `epoll_ctl`
-- that its handling makes.
pub data Ready : Type 0 where
  pipe : Ready
  descriptor : (fd : ℕ) → (mask : Event) → (trouble : Bool) → (fails : Bool) → Ready

-- `real_events`, after EPOLLERR and EPOLLHUP were turned into the registered events.
abbrev pub real_events : Event → Event → Bool → Event
real_events events mask trouble = if trouble then or_event mask events else mask

-- The body of the loop over the ready events.
unfoldable pub handle_ready : IoManager → Ready → Result IoManager
unfolding trigger_if
handle_ready m Ready.pipe = Result.ok (record m { pipe = 0 })
handle_ready m (Ready.descriptor fd mask trouble fails) =
    let real = real_events (context_at m fd).events mask trouble in
    if not (has (context_at m fd).events real)
    then Result.ok m
    else if fails
    then Result.ok m
    else do
      m' ← trigger_if (has real Event.read) m fd Event.read
      trigger_if (has real Event.write) m' fd Event.write

-- That loop.
unfoldable pub handle_all : IoManager → List Ready → Result IoManager
unfolding handle_ready
handle_all m [] = Result.ok m
handle_all m (r ∷ rs) = handle_ready m r >>= λ m'. handle_all m' rs

-- `scheduleLock` for each callback of an expired timer.
unfoldable pub schedule_all : IoManager → List (Option Callback) → IoManager
unfolding schedule
schedule_all m [] = m
schedule_all m (cb ∷ cbs) = schedule_all (schedule m (cb_task cb none)) cbs

-- `std::min(getNextTimer(), MAX_TIMEOUT)`.
abbrev pub max_timeout : ℕ
max_timeout = 5000

unfoldable pub wait_timeout : IoManager → (now : ℕ) → IoManager × ℕ
unfolding get_next_timer
wait_timeout m now =
    let (timer, timeout) = get_next_timer m.timer now in
    (record m { timer = timer }, if ltb max_timeout timeout then max_timeout else timeout)

-- A return of `epoll_wait`: interrupted by a signal, or with events (none after another error).
pub data Poll : Type 0 where
  interrupted : Poll
  returned : List Ready → Poll

-- The loop around `epoll_wait`, over its returns with the clock before each call; `none` when all of
-- them are interrupted.
unfoldable pub wait_events : IoManager → List (ℕ × Poll) → Option (IoManager × List Ready)
unfolding wait_timeout
wait_events m [] = none
wait_events m ((now, Poll.interrupted) ∷ polls) = wait_events (wait_timeout m now).0 polls
wait_events m ((now, Poll.returned rs) ∷ polls) = some ((wait_timeout m now).0, rs)

-- How a round ends: `idle` returns, or it yields, or it does not come to an end.
pub data Round : Type 0 where
  ended : IoManager → Round
  yielded : IoManager → Round
  unfinished : Round

-- A round: `stopping` at `stop_now`, the wait, the expired timers at `now` and `checked`, in at most
-- `rounds` rounds of `listExpiredCb`, and the ready events.
unfoldable pub idle_round :
    (rounds : ℕ) → IoManager → (stop_now : ℕ) → List (ℕ × Poll) → (now checked : ℕ) → Result Round
unfolding stopping wait_events list_expired_cb schedule_all handle_all
idle_round rounds m stop_now polls now checked =
    if (stopping m stop_now).1
    then Result.ok (Round.ended (stopping m stop_now).0)
    else elim (wait_events (stopping m stop_now).0 polls) [
      | none ↦ Result.ok Round.unfinished
      | some (m1, rs) ↦ elim (list_expired_cb rounds m1.timer [] now checked) [
        | none ↦ Result.ok Round.unfinished
        | some (timer, cbs) ↦
            handle_all (schedule_all (record m1 { timer = timer }) cbs) rs >>= λ m2.
            Result.ok (Round.yielded m2)
      ]
    ]
