-- ===== src/Callback.antt =====
-- The `std::function<void()>` values that the program stores: callbacks of its users, and the closures
-- that src/timer/timer.cc, src/hook/hook.cc and src/scheduler/scheduler.cc build.
use coroutinelib.Base.{ℕ, Option, none, some, Bool, if◌then◌else◌}

pub data Callback : Type 0 where
  -- A callback from outside the library, by its name.
  user : ℕ → Callback
  -- `std::bind(&OnTimer, weak_cond, cb)`; `on_timer_null` for a null `cb`.
  on_timer : (weak_cond : ℕ) → Callback → Callback
  on_timer_null : (weak_cond : ℕ) → Callback
  -- `[fiber, iom]() { iom->scheduleLock(fiber, -1); }`
  schedule_fiber : (fiber : ℕ) → Callback
  -- `std::bind(&Scheduler::run, this)`
  run_scheduler : Callback
  -- `std::bind(&Scheduler::idle, this)`
  idle_scheduler : Callback

-- `std::bind(&OnTimer, weak_cond, cb)`.
unfoldable pub bind_on_timer : ℕ → Option Callback → Callback
bind_on_timer weak_cond none = Callback.on_timer_null weak_cond
bind_on_timer weak_cond (some cb) = Callback.on_timer weak_cond cb

-- The innermost call that running a callback makes: `OnTimer` locks its condition, and calls `cb` only
-- if the object is still alive. A call of a null function throws, which `threw` records.
pub data Effect : Type 0 where
  calls : ℕ → Effect
  schedules : ℕ → Effect
  runs : Effect
  idles : Effect
  nothing : Effect
  threw : Effect

unfoldable pub run_callback : (ℕ → Bool) → Callback → Effect
run_callback alive (Callback.user k) = Effect.calls k
run_callback alive (Callback.on_timer weak_cond cb) =
    let run = run_callback alive cb in if alive weak_cond then run else Effect.nothing
run_callback alive (Callback.on_timer_null weak_cond) =
    if alive weak_cond then Effect.threw else Effect.nothing
run_callback alive (Callback.schedule_fiber fiber) = Effect.schedules fiber
run_callback alive Callback.run_scheduler = Effect.runs
run_callback alive Callback.idle_scheduler = Effect.idles
