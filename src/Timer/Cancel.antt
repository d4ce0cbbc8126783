-- ===== src/Timer/Cancel.antt =====
-- Cancelling a timer (src/timer/timer.cc).
use coroutinelib.Base.{
  ℕ, ◌<◌, ◌≡◌, ◌≢◌, refl, ap, none, some, true, false, List, All, In, length, set, get_or-set_self,
}
use coroutinelib.Callback.{Callback}
use coroutinelib.Timer.{Timer, deref, deadline, comparator, null_timer}
use coroutinelib.Timer.OrderedSet.{erase, find}
use coroutinelib.Timer.OrderedSet.Order.{All-map, All-In, find_self, erase-keys}
use coroutinelib.Timer.Store.{set_same-IsSorted}
use coroutinelib.Timer.Manager.{Manager, cancel}
use coroutinelib.Timer.Manager.Valid.{IsValid}

abbrev pub cleared : Manager → ℕ → List Timer
cleared m i = set m.store i (record (deref m.store i) { cb = none })

-- `find` in `cancel` reads the store after the callback is gone, with the same deadlines.
find-cleared :
    (m : Manager) (i : ℕ)
    → IsValid m
    → In i m.timers
    → find (comparator (cleared m i)) i m.timers ≡ some i
find-cleared m i v h =
    find_self (deadline (cleared m i)) i m.timers
      (set_same-IsSorted m.store i _ m.timers refl v.sorted) h

cancel-eq :
    (m : Manager) (i : ℕ) (f : Callback)
    → IsValid m
    → In i m.timers
    → (deref m.store i).cb ≡ some f
    → cancel m i ≡ (record m { store = cleared m i; timers = erase i m.timers }, true)
unfolding cancel
cancel-eq m i f v h e = rw (e, find-cleared m i v h, cancel)

erase-gone : (m : Manager) (i : ℕ) → IsValid m → In i m.timers → All (λ z. z ≢ i) (erase i m.timers)
erase-gone m i v h =
    All-map (erase i m.timers) (λ z n e. n (ap (deadline m.store) e))
      (erase-keys (deadline m.store) i m.timers v.sorted h)

cancel-null : (m : Manager) (i : ℕ) → (deref m.store i).cb ≡ none → cancel m i ≡ (m, false)
unfolding cancel
cancel-null m i e = rw (e, cancel)

-- `cancel` of a timer that is in the set of a valid manager with a callback: it returns true, erases
-- that element from the set, which does not hold it any more, and a second `cancel` returns false and
-- changes nothing.
pub cancel-pending :
    (m : Manager) (i : ℕ) (f : Callback)
    → IsValid m
    → In i m.timers
    → (deref m.store i).cb ≡ some f
    → let (m', r) = cancel m i in
      (r ≡ true)
      × (m'.timers ≡ erase i m.timers)
      × All (λ z. z ≢ i) m'.timers
      × (cancel m' i ≡ (m', false))
cancel-pending m i f v h e = rw (cancel-eq m i f v h e) (
  refl,
  refl,
  erase-gone m i v h,
  cancel-null _ i (
      ap (λ (t : Timer). t.cb)
        (get_or-set_self m.store i (record (deref m.store i) { cb = none }) null_timer
          (All-In (λ z. z < length m.store) m.timers i v.known h))),
)
