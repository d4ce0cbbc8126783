-- ===== src/IoManager.antt =====
-- src/iomanager/ioscheduler.h and src/iomanager/ioscheduler.cc: `IOManager`, which is a `Scheduler`
-- and a `TimerManager`, with the events registered for each file descriptor. File descriptors are
-- not negative. The only scheduler is the manager itself: a `Scheduler*` is it or null. The result
-- of `epoll_ctl` is an argument, `fails`.
pub mod Event
pub mod Context
pub mod Events
pub mod Idle
pub mod Invariant
pub mod Registered
pub mod Removal
pub mod Triggering
pub mod Cancel
pub mod TwoEvents
pub mod Delivery
pub mod Reports
pub mod IdleRound
pub mod Waiting
pub mod Kernel
pub mod Registry
pub mod Actions
mod Tests
use coroutinelib.Base.{
  ℕ, zero, suc, ◌+◌, ◌-◌, ◌%◌, ◌^◌, Option, none, some, Bool, true, false, not, ◌&&◌, ◌||◌, List,
  [], ◌∷◌, if◌then◌else◌, ◌==◌, length, get_or, set,
}
use coroutinelib.Callback.{Callback}
use coroutinelib.Timer.Manager.{Manager, add_timer, get_next_timer, no_timer}
use coroutinelib.Scheduler
use coroutinelib.Scheduler.{Scheduler, Task, schedule_lock, has_idle_threads}
use Context.{FdContext, new_context, resize_from}

-- `pipe` counts the bytes in the pipe `m_tickleFds`; `pending` is `m_pendingEventCount`.
pub record IoManager : Type 0 where
  pub sched : Scheduler
  pub timer : Manager
  pub contexts : List FdContext
  pub pending : ℕ
  pub pipe : ℕ

-- `contextResize`.
unfoldable pub context_resize : IoManager → ℕ → IoManager
unfolding resize_from
context_resize m size = record m { contexts = resize_from 0 size m.contexts }

-- The constructor, as far as the manager's own data goes; it starts with 32 contexts.
unfoldable pub new_io_manager : Manager → IoManager
unfolding context_resize
new_io_manager timer =
    context_resize
      (record {
        sched = record { tasks = []; active = 0; idle = 0; stop_flag = false };
        timer = timer;
        contexts = [];
        pending = 0;
        pipe = 0;
      })
      32

abbrev pub context_at : IoManager → ℕ → FdContext
context_at m fd = get_or m.contexts fd (new_context fd)

abbrev pub put_context : IoManager → ℕ → FdContext → IoManager
put_context m fd c = record m { contexts = set m.contexts fd c }

-- `m_pendingEventCount` is a `size_t`.
abbrev pub count_up : ℕ → ℕ
count_up n = (n + 1) % 2 ^ 64

abbrev pub count_down : ℕ → ℕ
count_down n = (n + 2 ^ 64 - 1) % 2 ^ 64

-- `tickle`: a byte into the pipe, if a thread is idle.
unfoldable pub tickle : IoManager → IoManager
tickle m = if has_idle_threads m.sched then record m { pipe = m.pipe + 1 } else m

-- `scheduleLock` with this class's `tickle`.
unfoldable pub schedule : IoManager → Task → IoManager
unfolding tickle schedule_lock
schedule m task =
    let (sched, need_tickle) = schedule_lock m.sched task in
    let m' = record m { sched = sched } in if need_tickle then tickle m' else m'

-- `addTimer` with `onTimerInsertedAtFront`, which tickles.
unfoldable pub add_io_timer :
    IoManager → (ms : ℕ) → Option Callback → (recurring : Bool) → (now : ℕ) → IoManager × ℕ
unfolding tickle add_timer
add_io_timer m ms cb recurring now =
    let (timer, i, at_front) = add_timer m.timer ms cb recurring now in
    let m' = record m { timer = timer } in (if at_front then tickle m' else m', i)

-- `IOManager::stopping`: the timers are looked at first, which clears their mark.
unfoldable pub stopping : IoManager → (now : ℕ) → IoManager × Bool
unfolding get_next_timer Scheduler.stopping
stopping m now =
    let (timer, timeout) = get_next_timer m.timer now in
    (
      record m { timer = timer },
      (timeout == no_timer) && m.pending == 0 && Scheduler.stopping m.sched,
    )
