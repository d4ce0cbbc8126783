-- ===== src/Thread.antt =====
-- src/thread/thread.h and src/thread/thread.cc: `Semaphore`, and `Thread`, whose constructor waits on
-- one until the new thread has set itself up. A thread id of -1 is `none`.
pub mod Semaphore
pub mod Handshake
pub mod Handle
mod Tests
use coroutinelib.Base.{ℕ, ◌+◌, ◌-◌, Option, none, some, ◌==◌, if◌then◌else◌}
use coroutinelib.Callback.{Callback}

-- The test in `Semaphore::wait` under its lock: the count after it, or none to wait for a signal.
unfoldable pub wait_test : ℕ → Option ℕ
wait_test count = if count == 0 then none else some (count - 1)

-- `Semaphore::signal`, but for `notify_one`.
unfoldable pub signal : ℕ → ℕ
signal count = count + 1

-- A `Thread`, but for the `pthread_t`. `name` stands for a string.
pub record Thread : Type 0 where
  pub id : Option ℕ
  pub cb : Option Callback
  pub name : ℕ
  pub semaphore : ℕ

-- The constructor up to the call of `pthread_create`.
unfoldable pub new_thread : Option Callback → ℕ → Thread
new_thread cb name = record { id = none; cb = cb; name = name; semaphore = 0 }
