-- ===== src/Hook.antt =====
-- src/hook/hook.cc: the hooks of `sleep`, `usleep` and `nanosleep`, which suspend the calling fiber and
-- leave a timer that schedules it again. Arguments are not negative.
pub mod Sleep
pub mod Wake
pub mod Served
pub mod Init
mod Tests
use coroutinelib.Base.{
  ℕ, ◌+◌, ◌-◌, ◌*◌, ◌/◌, ◌%◌, ◌^◌, Option, some, Bool, false, not, ltb, if◌then◌else◌,
}
use coroutinelib.Faults.{Result, ◌>>=◌, non_null}
use coroutinelib.Callback.{Callback}
use coroutinelib.Fiber.{World, get_this, yield}
use coroutinelib.IoManager.{IoManager, add_io_timer}

-- What a thread's calls work on: `t_hook_enable`, its fibers, and `IOManager::GetThis()`.
pub record Local : Type 0 where
  pub enabled : Bool
  pub world : World
  pub iom : Option IoManager

-- `is_hook_enable` and `set_hook_enable`.
unfoldable pub is_hook_enable : Local → Bool
is_hook_enable l = l.enabled

unfoldable pub set_hook_enable : Local → Bool → Local
set_hook_enable l flag = record l { enabled = flag }

-- Whether the call goes to the original function, or leaves the fiber suspended with a timer.
pub data Outcome : Type 0 where
  original : Outcome
  suspended : Local → (timer : ℕ) → Outcome

-- The milliseconds: `seconds * 1000` on an `unsigned int`, `usec / 1000`, and what `nanosleep` puts into
-- an `int`, which becomes the `uint64_t` of `addTimer`.
abbrev pub sleep_ms : ℕ → ℕ
sleep_ms seconds = (seconds * 1000) % 2 ^ 32

abbrev pub usleep_ms : ℕ → ℕ
usleep_ms usec = usec / 1000

abbrev pub nanosleep_ms : ℕ → ℕ → ℕ
nanosleep_ms sec nsec =
    let low = (sec * 1000 + nsec / 1000 / 1000) % 2 ^ 32 in
    if ltb low (2 ^ 31) then low else low + (2 ^ 64 - 2 ^ 32)

-- What the three have in common. `garbage` and `fails` are for a first `GetThis`, `swap_fails` is the
-- result of `swapcontext`.
unfoldable pub suspend : Local → (ms now : ℕ) → (garbage fails swap_fails : Bool) → Result Outcome
unfolding get_this add_io_timer yield
suspend l ms now garbage fails swap_fails = do
  (w, fiber) ← get_this l.world garbage fails
  iom ← non_null l.iom
  let (iom', timer) = add_io_timer iom ms (some (Callback.schedule_fiber fiber)) false now
  w' ← yield w fiber swap_fails
  Result.ok (Outcome.suspended (record l { world = w'; iom = some iom' }) timer)

unfoldable pub sleep :
    Local → (seconds now : ℕ) → (garbage fails swap_fails : Bool) → Result Outcome
unfolding suspend is_hook_enable
sleep l seconds now garbage fails swap_fails =
    if not (is_hook_enable l)
    then Result.ok Outcome.original
    else suspend l (sleep_ms seconds) now garbage fails swap_fails

unfoldable pub usleep : Local → (usec now : ℕ) → (garbage fails swap_fails : Bool) → Result Outcome
unfolding suspend is_hook_enable
usleep l usec now garbage fails swap_fails =
    if not (is_hook_enable l)
    then Result.ok Outcome.original
    else suspend l (usleep_ms usec) now garbage fails swap_fails

unfoldable pub nanosleep :
    Local → (sec nsec now : ℕ) → (garbage fails swap_fails : Bool) → Result Outcome
unfolding suspend is_hook_enable
nanosleep l sec nsec now garbage fails swap_fails =
    if not (is_hook_enable l)
    then Result.ok Outcome.original
    else suspend l (nanosleep_ms sec nsec) now garbage fails swap_fails
