-- ===== src/Timer/Tests.antt =====
-- A manager with two timers, and the theorems on src/timer/timer.cc applied to it.
use coroutinelib.Base.{
  ℕ, ◌≤◌, ◌≡◌, ◌≢◌, ◌+◌, refl, none, some, true, false, [], ◌∷◌, arith, List, Option, ◌⊎◌, inl, inr,
  In, All,
}
use coroutinelib.Callback.{Callback}
use coroutinelib.Timer.{Timer, deref, deadline}
use coroutinelib.Timer.Manager.{
  Manager, add_timer, cancel, get_next_timer, detect_clock_rollover, list_expired_cb,
}
use coroutinelib.Timer.Manager.Valid.{IsValid}
use coroutinelib.Timer.Expiry.{list_expired_cb-delivers}
use coroutinelib.Timer.Expiry.Round.{expired, callbacks}
use coroutinelib.Timer.OrderedSet.{erase}
use coroutinelib.Timer.Endless.{list_expired_cb-endless}
use coroutinelib.Timer.NextTimer.{IsTimeout, get_next_timer-IsTimeout}
use coroutinelib.Timer.Cancel.{cancel-pending}
use coroutinelib.Timer.Collision.{add_timer-dropped}
use coroutinelib.Timer.Expiry.Pending.{list_expired_cb-keeps}
use coroutinelib.Timer.Front.{Call, Request, notified, notified_once}

-- One timer every 5 ms, and one that expires once after 20 ms.
abbrev every_5 : Timer
every_5 = record { recurring = true; ms = 5; next = 5000000; cb = some (Callback.user 1) }

abbrev once_20 : Timer
once_20 = record { recurring = false; ms = 20; next = 20000000; cb = some (Callback.user 2) }

abbrev two : Manager
two = record {
  store = every_5 ∷ once_20 ∷ [];
  timers = 0 ∷ 1 ∷ [];
  tickled = false;
  previous_time = 0;
}

two-IsValid : IsValid two
two-IsValid = record {
  sorted = ((omega arith, tt), (tt, tt));
  known = (omega arith, (omega arith, tt));
  periods = (omega arith, (omega arith, tt));
}

list_expired_cb-delivers_example :
    let rollover = (detect_clock_rollover two 6000000).1 in
    (m' : Manager) × (list_expired_cb 3 two [] 6000000 6000000
      ≡ some (m', callbacks two.store (expired rollover 6000000 two.store two.timers)))
    × IsValid m'
    × (expired rollover 6000000 m'.store m'.timers ≡ [])
unfolding detect_clock_rollover
list_expired_cb-delivers_example =
    list_expired_cb-delivers two [] 6000000 6000000 two-IsValid
      (inr (ground arith, omega arith), (inl refl, tt))

-- The clock went back by two hours: the recurring timer alone is stuck.
abbrev after_rollover : Manager
after_rollover = record {
  store = every_5 ∷ [];
  timers = 0 ∷ [];
  tickled = false;
  previous_time = 10000000000000;
}

list_expired_cb-endless_example : list_expired_cb 100 after_rollover [] 7 7 ≡ none
unfolding detect_clock_rollover
list_expired_cb-endless_example = list_expired_cb-endless 100 after_rollover [] 7 7 (record {
  some_timer = λ e. cc;
  known = (omega arith, tt);
  restart = ((refl, inl (ground arith)), tt);
})

get_next_timer-IsTimeout_example :
    IsTimeout two 1000000 (get_next_timer two 1000000).1
    × ((get_next_timer two 1000000).0.tickled ≡ false)
get_next_timer-IsTimeout_example = get_next_timer-IsTimeout two 1000000 two-IsValid

abbrev requests : List (ℕ × Request)
requests =
    (0, Request.timer_call (Call.add 1 none false))
    ∷ (6000000, Request.expires 3 6000000)
    ∷ (6000000, Request.timer_call (Call.resets 0 2 true))
    ∷ []

notified_once_example : notified two requests + 0 ≤ 1
notified_once_example = notified_once two requests

cancel-pending_example :
    let (m', r) = cancel two 1 in
    (r ≡ true)
    × (m'.timers ≡ erase 1 two.timers)
    × All (λ z. z ≢ 1) m'.timers
    × (cancel m' 1 ≡ (m', false))
cancel-pending_example = cancel-pending two 1 (Callback.user 2) two-IsValid (inr (inl refl)) refl

add_timer-dropped_example :
    let (m', i, at_front) = add_timer two 4 (some (Callback.user 3)) false 1000000 in
    ((deref m'.store i).cb ≡ some (Callback.user 3))
    × (m'.timers ≡ two.timers)
    × All (λ w. w ≢ i) m'.timers
    × (callbacks m'.store (expired false 30000000 m'.store m'.timers)
        ≡ callbacks two.store (expired false 30000000 two.store two.timers))
add_timer-dropped_example =
    add_timer-dropped two 4 (some (Callback.user 3)) false 1000000 two-IsValid 0 (inl refl) refl
      false 30000000

-- Timer 2 has the deadline of timer 0, which is in the set instead of it.
abbrev three : Manager
three = record two { store = every_5 ∷ once_20 ∷ every_5 ∷ [] }

three-IsValid : IsValid three
three-IsValid = record {
  sorted = ((omega arith, tt), (tt, tt));
  known = (omega arith, (omega arith, tt));
  periods = (omega arith, (omega arith, (omega arith, tt)));
}

list_expired_cb-keeps_example :
    (m' : Manager) × (cbs' : List (Option Callback)) × (list_expired_cb 3 two [] 6000000 6000000
      ≡ some (m', cbs'))
    × All
        (λ z.
          (deadline two.store z ≤ 6000000)
          ⊎ (In z m'.timers × (deref m'.store z ≡ deref two.store z)))
        two.timers
unfolding detect_clock_rollover
list_expired_cb-keeps_example =
    list_expired_cb-keeps two [] 6000000 6000000 two-IsValid (ground arith)
      (inr (refl, omega arith), (inl refl, tt))
