-- ===== src/IoManager/Actions.antt =====
-- Everything that changes an `IOManager`, by its threads and from outside, in any order: one action for
-- each stretch of code that runs under a lock (src/iomanager/ioscheduler.cc, src/timer/timer.cc,
-- src/scheduler/scheduler.h, src/scheduler/scheduler.cc).
pub mod Ordered
pub mod Closed
mod Tests
use coroutinelib.Base.{ℕ, suc, ◌+◌, ◌-◌, Option, none, some, true, [], if◌then◌else◌, length}
use coroutinelib.Faults.{Result, ◌>>=◌}
use coroutinelib.Callback.{Callback}
use coroutinelib.Epoll.{Epoll}
use coroutinelib.Timer.Front
use coroutinelib.Timer.Manager.{get_next_timer, list_expired_cb}
use coroutinelib.Scheduler.{Task, take_task}
use coroutinelib.IoManager.{IoManager, tickle, schedule}
use coroutinelib.IoManager.Idle.{schedule_all}
use coroutinelib.IoManager.Kernel
use coroutinelib.IoManager.Kernel.{run_in}

-- The actions that `epoll_ctl` has no part in.
pub data Inner : Type 0 where
  -- A call of a timer or of the manager of timers, at a time.
  timer_call : (now : ℕ) → Front.Call → Inner
  -- `getNextTimer` in `idle` and `stopping`.
  next_timer : (now : ℕ) → Inner
  -- `listExpiredCb` in `idle`, and `scheduleLock` of what it finds.
  expire : (now checked : ℕ) → Inner
  -- The pipe is read.
  drain : Inner
  -- `scheduleLock`.
  post : Task → Inner
  -- The locked block of `run` in a thread.
  take : (thread_id : ℕ) → Inner
  -- A task has left its thread.
  finish : Inner
  -- A thread gives itself to its idle fiber, and gets back.
  sleep : Inner
  wake : Inner
  -- `m_stopping = true` in `stop`.
  stop : Inner

pub data Action : Type 0 where
  -- A call about events, or a report of a ready descriptor.
  event : Kernel.Call → Action
  inner : Inner → Action

-- A call of a timer, with `onTimerInsertedAtFront`.
unfoldable pub io_timer_call : IoManager → (now : ℕ) → Front.Call → IoManager
unfolding tickle Front.call
io_timer_call m now c =
    let (timer, at_front) = Front.call m.timer (now, c) in
    let m' = record m { timer = timer } in if at_front then tickle m' else m'

-- The expired timers; `none` if the loop of `listExpiredCb` has not ended after a round for each timer
-- and one more.
unfoldable pub expire_timers : IoManager → (now checked : ℕ) → Option IoManager
unfolding list_expired_cb schedule_all
expire_timers m now checked =
    elim (list_expired_cb (suc (length m.timer.timers)) m.timer [] now checked) [
      | none ↦ none
      | some (timer, cbs) ↦ some (schedule_all (record m { timer = timer }) cbs)
    ]

unfoldable pub act : IoManager → Inner → Option IoManager
unfolding io_timer_call get_next_timer expire_timers schedule take_task
act m (Inner.timer_call now c) = some (io_timer_call m now c)
act m (Inner.next_timer now) = some (record m { timer = (get_next_timer m.timer now).0 })
act m (Inner.expire now checked) = expire_timers m now checked
act m Inner.drain = some (record m { pipe = 0 })
act m (Inner.post t) = some (schedule m t)
act m (Inner.take id) = some (record m { sched = (take_task m.sched id).0 })
act m Inner.finish = some (record m { sched = record (m.sched) { active = m.sched.active - 1 } })
act m Inner.sleep = some (record m { sched = record (m.sched) { idle = m.sched.idle + 1 } })
act m Inner.wake = some (record m { sched = record (m.sched) { idle = m.sched.idle - 1 } })
act m Inner.stop = some (record m { sched = record (m.sched) { stop_flag = true } })

-- An action on the manager and its epoll instance.
unfoldable pub perform :
    (k : Epoll) → IoManager → Epoll.State k → Action → Result (Option (IoManager × Epoll.State k))
unfolding run_in act
perform k m s (Action.event c) = run_in k m s c >>= λ r. Result.ok (some r)
perform k m s (Action.inner a) = Result.ok (elim (act m a) [ none ↦ none | some m' ↦ some (m', s) ])
