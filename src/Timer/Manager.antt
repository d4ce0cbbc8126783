-- ===== src/Timer/Manager.antt =====
-- `TimerManager` and the methods of `Timer` that work on its set (src/timer/timer.cc). Each method is
-- what it does under the manager's lock; a reading of the clock is an argument. A Boolean result
-- `at_front` says that the method ends with a call of the virtual `onTimerInsertedAtFront`.
pub mod Valid
pub mod Kept
use coroutinelib.Base.{
  ℕ, zero, suc, ◌+◌, ◌-◌, ◌*◌, ◌/◌, ◌^◌, Option, none, some, Bool, true, false, not, ◌&&◌, ◌||◌,
  List, [], ◌∷◌, ◌++◌, ltb, leb, ◌==◌, if◌then◌else◌, is_some, length, set,
}
use coroutinelib.Callback.{Callback, bind_on_timer}
use coroutinelib.Timer.{Timer, milliseconds, deref, deadline, comparator, new_timer}
use coroutinelib.Timer.OrderedSet.{insert, inserts_at_begin, find, erase}

-- `store` holds every timer ever made; `timers` is the set `m_timers`, earliest first.
pub record Manager : Type 0 where
  pub store : List Timer
  pub timers : List ℕ
  pub tickled : Bool
  pub previous_time : ℕ

-- `TimerManager::TimerManager`.
unfoldable pub new_manager : ℕ → Manager
new_manager now = record { store = []; timers = []; tickled = false; previous_time = now }

-- `addTimer(std::shared_ptr<Timer>)`.
unfoldable pub insert_timer : Manager → ℕ → Manager × Bool
insert_timer m i =
    let at_front = inserts_at_begin (comparator m.store) i m.timers && not m.tickled in
    (
      record m {
        timers = insert (comparator m.store) i m.timers;
        tickled = if at_front then true else m.tickled;
      },
      at_front,
    )

-- `addTimer(ms, cb, recurring)`: the manager, the new timer and `at_front`.
unfoldable pub add_timer : Manager → ℕ → Option Callback → Bool → ℕ → Manager × ℕ × Bool
unfolding insert_timer new_timer
add_timer m ms cb recurring now =
    let created = record m { store = m.store ++ new_timer ms cb recurring now ∷ [] } in
    let i = length m.store in let (m', at_front) = insert_timer created i in (m', i, at_front)

-- `addConditionTimer`.
unfoldable pub add_condition_timer :
    Manager → ℕ → Option Callback → ℕ → Bool → ℕ → Manager × ℕ × Bool
unfolding add_timer bind_on_timer
add_condition_timer m ms cb weak_cond recurring now =
    add_timer m ms (some (bind_on_timer weak_cond cb)) recurring now

-- `Timer::cancel`.
unfoldable pub cancel : Manager → ℕ → Manager × Bool
cancel m i =
    let t = deref m.store i in
    let store = set m.store i (record t { cb = none }) in
    if not (is_some t.cb) then (m, false) else elim (find (comparator store) i m.timers) [
      | none ↦ (record m { store = store }, true)
      | some it ↦ (record m { store = store; timers = erase it m.timers }, true)
    ]

-- `Timer::refresh`.
unfoldable pub refresh : Manager → ℕ → ℕ → Manager × Bool
refresh m i now =
    let t = deref m.store i in
    let store = set m.store i (record t { next = now + milliseconds t.ms }) in
    if not (is_some t.cb) then (m, false) else elim (find (comparator m.store) i m.timers) [
      | none ↦ (m, false)
      | some it ↦ (
        record m { store = store; timers = insert (comparator store) i (erase it m.timers) },
        true,
      )
    ]

-- The part of `Timer::reset` that follows the removal from the set.
unfoldable pub reset_period : Manager → ℕ → ℕ → Bool → ℕ → Manager × Bool
unfolding insert_timer
reset_period m i ms from_now now =
    let t = deref m.store i in
    let start = if from_now then now else t.next - milliseconds t.ms in
    insert_timer
      (record m { store = set m.store i (record t { ms = ms; next = start + milliseconds ms }) }) i

-- `Timer::reset`: the manager, the result and `at_front`.
unfoldable pub reset : Manager → ℕ → ℕ → Bool → ℕ → Manager × Bool × Bool
unfolding reset_period
reset m i ms from_now now =
    let t = deref m.store i in
    if (ms == t.ms) && not from_now
    then (m, true, false)
    else if not (is_some t.cb)
    then (m, false, false)
    else elim (find (comparator m.store) i m.timers) [
      | none ↦ (m, false, false)
      | some it ↦
          let (m', at_front) =
            reset_period (record m { timers = erase it m.timers }) i ms from_now now in
          (m', true, at_front)
    ]

-- `~0ull`.
abbrev pub no_timer : ℕ
no_timer = 2 ^ 64 - 1

-- The value that `getNextTimer` computes from the set: the time to the earliest deadline in
-- milliseconds, rounded down.
unfoldable pub next_timeout : List Timer → List ℕ → ℕ → ℕ
next_timeout store [] now = no_timer
next_timeout store (i ∷ rest) now =
    if leb (deadline store i) now then 0 else (deadline store i - now) / 1000000

-- `getNextTimer`.
unfoldable pub get_next_timer : Manager → ℕ → Manager × ℕ
unfolding next_timeout
get_next_timer m now = (record m { tickled = false }, next_timeout m.store m.timers now)

-- `hasTimer`.
unfoldable pub has_timer : Manager → Bool
has_timer m = elim m.timers [ [] ↦ false | i ∷ rest ↦ true ]

-- `detectClockRollover`: did the clock go back by more than an hour?
unfoldable pub detect_clock_rollover : Manager → ℕ → Manager × Bool
detect_clock_rollover m now =
    (record m { previous_time = now }, ltb now (m.previous_time - milliseconds (60 * 60 * 1000)))

-- The test of the loop in `listExpiredCb`: the head of the set, if the loop goes on.
unfoldable pub next_expired : Bool → ℕ → List Timer → List ℕ → Option ℕ
next_expired rollover now store [] = none
next_expired rollover now store (i ∷ rest) =
    if rollover || leb (deadline store i) now then some i else none

-- The body of that loop, but for `cbs.push_back`.
unfoldable pub expire_one : ℕ → Manager → ℕ → Manager
expire_one now m i =
    let t = deref m.store i in
    let rest = erase i m.timers in
    let again = set m.store i (record t { next = now + milliseconds t.ms }) in
    if t.recurring
    then record m { store = again; timers = insert (comparator again) i rest }
    else record m { store = set m.store i (record t { cb = none }); timers = rest }

-- The loop itself, with a bound on its rounds: `none` when they run out.
unfoldable pub expire_loop :
    ℕ → Bool → ℕ → Manager → List (Option Callback) → Option (Manager × List (Option Callback))
unfolding next_expired expire_one
expire_loop zero rollover now m cbs = none
expire_loop (suc fuel) rollover now m cbs = elim (next_expired rollover now m.store m.timers) [
  | none ↦ some (m, cbs)
  | some i ↦ expire_loop fuel rollover now (expire_one now m i) (cbs ++ (deref m.store i).cb ∷ [])
]

-- `listExpiredCb`, which reads the clock twice: `now` before the lock, `checked` for the rollover.
unfoldable pub list_expired_cb :
    ℕ → Manager → List (Option Callback) → ℕ → ℕ → Option (Manager × List (Option Callback))
unfolding expire_loop detect_clock_rollover
list_expired_cb fuel m cbs now checked =
    let (m', rollover) = detect_clock_rollover m checked in expire_loop fuel rollover now m' cbs
