-- ===== src/Timer/Manager/Kept.antt =====
-- The methods of src/timer/timer.cc that remove timers from the set, move them or drop their callback
-- keep the manager valid.
use coroutinelib.Base.{
  All-set, ℕ, ◌+◌, ◌<◌, ◌≡◌, refl, none, some, Bool, not, ◌&&◌, arith, length, set, length-set,
  Bool-cases, Option-cases, ◌==◌, inl, inr,
}
use coroutinelib.Timer.{Timer, milliseconds, deref, deadline, comparator}
use coroutinelib.Timer.OrderedSet.{insert, find, erase}
use coroutinelib.Timer.OrderedSet.Order.{erase-IsSorted, erase-All}
use coroutinelib.Timer.Store.{HasPeriod, All-deref, set_same-IsSorted}
use coroutinelib.Timer.Manager.{Manager, insert_timer, cancel, refresh, reset}
use coroutinelib.Timer.Manager.Valid.{
  IsValid, Found, find-Found, rewrite-IsValid, insert_timer-IsValid,
}

-- Dropping a callback moves no timer.
pub clear_cb-IsValid :
    (m : Manager) (i : ℕ)
    → IsValid m
    → IsValid (record m { store = set m.store i (record (deref m.store i) { cb = none }) })
clear_cb-IsValid m i v = record {
  sorted = set_same-IsSorted m.store i _ m.timers refl v.sorted;
  known = rw (length-set m.store i (record (deref m.store i) { cb = none })) v.known;
  periods =
      All-set HasPeriod m.store i _ (All-deref HasPeriod m.store i (omega arith) v.periods)
        v.periods;
}

pub erase-IsValid :
    (m : Manager) (i : ℕ) → IsValid m → IsValid (record m { timers = erase i m.timers })
erase-IsValid m i v = record {
  sorted = erase-IsSorted (deadline m.store) i m.timers v.sorted;
  known = erase-All (λ z. z < length m.store) i m.timers v.known;
  periods = v.periods;
}

-- `Timer::cancel`, on whatever timer, keeps a manager valid.
pub cancel-IsValid : (m : Manager) (i : ℕ) → IsValid m → IsValid (cancel m i).0
unfolding cancel
cancel-IsValid m i v = elim (Option-cases (deref m.store i).cb) [
  | inl e ↦ rw (e, cancel) v
  | inr (f, e) ↦
      elim (Option-cases
        (find (comparator (set m.store i (record (deref m.store i) { cb = none }))) i m.timers)) [
          | inl q ↦ rw (e, q, cancel) (clear_cb-IsValid m i v)
          | inr (it, q) ↦ rw (e, q, cancel) (erase-IsValid _ it (clear_cb-IsValid m i v))
        ]
]

module _ (m : Manager) (i : ℕ) (exists : i < length m.store) (v : IsValid m) where
  -- Moving a timer that `find` has taken out of the set, and putting it back.
  moved-IsValid :
      (it : ℕ) (t : Timer)
      → find (comparator m.store) i m.timers ≡ some it
      → HasPeriod t
      → IsValid
          (insert_timer (record m { store = set m.store i t; timers = erase it m.timers }) i).0
  moved-IsValid it t q p =
      insert_timer-IsValid _ i (omega (arith, length-set m.store i t))
        (rewrite-IsValid m i t (erase it m.timers) v found.sorted found.known found.without p)
    where
      found : Found m i it
      found = find-Found m i it v q

  -- `Timer::refresh` of a timer that exists keeps a manager valid, on every branch.
  pub refresh-IsValid : (now : ℕ) → IsValid (refresh m i now).0
  unfolding refresh
  refresh-IsValid now = elim (Option-cases (deref m.store i).cb) [
    | inl e ↦ rw (e, refresh) v
    | inr (f, e) ↦ elim (Option-cases (find (comparator m.store) i m.timers)) [
      | inl q ↦ rw (e, q, refresh) v
      | inr (it, q) ↦ rw (e, q, refresh) (unmarked it q)
    ]
  ]
    where
      t : Timer
      t = record (deref m.store i) { next = now + milliseconds (deref m.store i).ms }

      unmarked :
          (it : ℕ)
          → find (comparator m.store) i m.timers ≡ some it
          → IsValid (record m {
            store = set m.store i t;
            timers = insert (comparator (set m.store i t)) i (erase it m.timers);
          })
      unmarked it q =
          let w : IsValid _ = moved-IsValid it t q (omega arith) in
          unfold insert_timer in record { sorted = w.sorted; known = w.known; periods = w.periods }

  -- `Timer::reset` of a timer that exists keeps a manager valid, on every branch, with either start of
  -- the new period.
  pub reset-IsValid : (ms : ℕ) (from_now : Bool) (now : ℕ) → IsValid (reset m i ms from_now now).0
  unfolding reset
  reset-IsValid ms from_now now = elim (Bool-cases ((ms == (deref m.store i).ms) && not from_now)) [
    | inl same ↦ rw (same, reset) v
    | inr other ↦ elim (Option-cases (deref m.store i).cb) [
      | inl e ↦ rw (other, e, reset) v
      | inr (f, e) ↦ elim (Option-cases (find (comparator m.store) i m.timers)) [
        | inl q ↦ rw (other, e, q, reset) v
        | inr (it, q) ↦ rw (other, e, q, reset) (moved-IsValid it _ q (omega arith))
      ]
    ]
  ]
