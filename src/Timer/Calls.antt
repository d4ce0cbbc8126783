-- ===== src/Timer/Calls.antt =====
-- The calls of `Timer` and `TimerManager` from outside keep the manager valid
-- (src/timer/timer.h, src/timer/timer.cc).
use coroutinelib.Base.{ℕ, ◌<◌, length}
use coroutinelib.Timer.Manager.{Manager, add_condition_timer}
use coroutinelib.Timer.Manager.Valid.{IsValid, add_timer-IsValid}
use coroutinelib.Timer.Manager.Kept.{cancel-IsValid, refresh-IsValid, reset-IsValid}
use coroutinelib.Timer.Front.{Call, call}

-- The timer that a call is made on exists.
abbrev pub IsKnown : Manager → Call → Type 0
IsKnown m (Call.refreshes i) = i < length m.store
IsKnown m (Call.resets i ms from_now) = i < length m.store
IsKnown m _ = Unit {0}

-- Every call on a manager, or on a timer of it that exists, whatever its arguments and the time, keeps
-- the manager valid: its set in order of the deadlines without two equal ones, its timers known, and
-- every deadline at least one period after the clock's origin.
pub call-IsValid :
    (m : Manager) (now : ℕ) (c : Call) → IsValid m → IsKnown m c → IsValid (call m (now, c)).0
unfolding call add_condition_timer
call-IsValid m now (Call.add ms cb recurring) v k = add_timer-IsValid m ms cb recurring now v
call-IsValid m now (Call.add_condition ms cb weak_cond recurring) v k =
    add_timer-IsValid m ms _ recurring now v
call-IsValid m now (Call.cancels i) v k = cancel-IsValid m i v
call-IsValid m now (Call.refreshes i) v k = refresh-IsValid m i k v now
call-IsValid m now (Call.resets i ms from_now) v k = reset-IsValid m i k v ms from_now now
