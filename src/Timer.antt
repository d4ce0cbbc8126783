-- ===== src/Timer.antt =====
-- src/timer/timer.h and src/timer/timer.cc: `Timer`, its comparator and the `std::set` that
-- `TimerManager` keeps of them. A `shared_ptr<Timer>` is an address in the store of all timers; a
-- time point counts nanoseconds, as `system_clock` does here, without wrapping.
pub mod OrderedSet
pub mod Store
pub mod Manager
pub mod Expiry
pub mod Endless
pub mod NextTimer
pub mod Cancel
pub mod Collision
pub mod Front
pub mod Calls
mod Tests
use coroutinelib.Base.{
  ℕ, ◌+◌, ◌*◌, Option, none, some, Bool, true, false, not, List, [], ◌∷◌, ltb, get_or,
  if◌then◌else◌,
}
use coroutinelib.Callback.{Callback}

pub record Timer : Type 0 where
  pub recurring : Bool
  pub ms : ℕ
  pub next : ℕ
  pub cb : Option Callback

-- `std::chrono::milliseconds(ms)` in clock ticks.
abbrev pub milliseconds : ℕ → ℕ
milliseconds ms = ms * 1000000

-- What a dangling address would read; no operation reads one.
abbrev pub null_timer : Timer
null_timer = record { recurring = false; ms = 0; next = 0; cb = none }

abbrev pub deref : List Timer → ℕ → Timer
deref store i = get_or store i null_timer

-- The constructor `Timer::Timer`, which reads the clock.
unfoldable pub new_timer : ℕ → Option Callback → Bool → ℕ → Timer
new_timer ms cb recurring now = record {
  recurring = recurring;
  ms = ms;
  next = now + milliseconds ms;
  cb = cb;
}

abbrev pub deadline : List Timer → ℕ → ℕ
deadline store i = (deref store i).next

-- `Timer::Comparator::operator()`: earlier deadline first, and nothing else is compared.
abbrev pub comparator : List Timer → ℕ → ℕ → Bool
comparator store lhs rhs = ltb (deadline store lhs) (deadline store rhs)
