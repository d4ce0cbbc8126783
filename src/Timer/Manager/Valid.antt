-- ===== src/Timer/Manager/Valid.antt =====
-- The invariant of `TimerManager`: its set is ordered by deadline and holds timers that exist, and no
-- deadline is less than one period. Every method of src/timer/timer.cc keeps it.
use coroutinelib.Base.{
  All-set, ℕ, ◌<◌, ◌≤◌, ◌≡◌, ◌≢◌, subst, ap, Option, some, Bool, List, [], ◌∷◌, arith, All, length,
  set, length-set, length-append,
}
use coroutinelib.Callback.{Callback}
use coroutinelib.Timer.{Timer, deadline, comparator, new_timer}
use coroutinelib.Timer.OrderedSet.{find, erase}
use coroutinelib.Timer.OrderedSet.Order.{
  IsSorted, insert-IsSorted, erase-IsSorted, insert-All, erase-All, All-map, find-some, erase-keys,
}
use coroutinelib.Timer.Store.{HasPeriod, All-snoc, set-IsSorted, snoc-IsSorted}
use coroutinelib.Timer.Manager.{Manager, new_manager, insert_timer, add_timer}

pub record IsValid (m : Manager) : Type 0 where
  pub sorted : IsSorted (deadline m.store) m.timers
  pub known : All (λ z. z < length m.store) m.timers
  pub periods : All HasPeriod m.store

pub new_manager-IsValid : (now : ℕ) → IsValid (new_manager now)
unfolding new_manager
new_manager-IsValid now = record { sorted = tt; known = tt; periods = tt }

pub insert_timer-IsValid :
    (m : Manager) (i : ℕ) → i < length m.store → IsValid m → IsValid (insert_timer m i).0
unfolding insert_timer
insert_timer-IsValid m i h v = record {
  sorted = insert-IsSorted (deadline m.store) i m.timers v.sorted;
  known = insert-All (λ z. z < length m.store) (comparator m.store) i m.timers h v.known;
  periods = v.periods;
}

All-lt_mono : (a b : ℕ) (s : List ℕ) → a ≤ b → All (λ z. z < a) s → All (λ z. z < b) s
All-lt_mono a b s h = All-map s (λ z l. omega arith)

-- `addTimer` keeps a manager valid: its set in order of the deadlines and without two equal ones, its
-- timers known, and every deadline at least one period after the clock's origin.
pub add_timer-IsValid :
    (m : Manager) (ms : ℕ) (cb : Option Callback) (recurring : Bool) (now : ℕ)
    → IsValid m
    → IsValid (add_timer m ms cb recurring now).0
unfolding add_timer new_timer
add_timer-IsValid m ms cb recurring now v =
    insert_timer-IsValid _ (length m.store)
      (omega (arith, length-append m.store (new_timer ms cb recurring now ∷ [])))
      (record {
        sorted = snoc-IsSorted m.store _ m.timers v.known v.sorted;
        known =
            All-lt_mono (length m.store) _ m.timers
              (omega (arith, length-append m.store (new_timer ms cb recurring now ∷ []))) v.known;
        periods = All-snoc HasPeriod m.store _ (omega arith) v.periods;
      })

-- The set without the element that `find` gave for timer `i`: in order, and without `i`.
pub record Found (m : Manager) (i it : ℕ) : Type 0 where
  pub sorted : IsSorted (deadline m.store) (erase it m.timers)
  pub known : All (λ z. z < length m.store) (erase it m.timers)
  pub others : All (λ z. deadline m.store z ≢ deadline m.store i) (erase it m.timers)
  pub without : All (λ z. z ≢ i) (erase it m.timers)

pub find-Found :
    (m : Manager) (i it : ℕ)
    → IsValid m
    → find (comparator m.store) i m.timers ≡ some it
    → Found m i it
find-Found m i it v e = record {
  sorted = erase-IsSorted (deadline m.store) it m.timers v.sorted;
  known = erase-All (λ z. z < length m.store) it m.timers v.known;
  others = others;
  without = All-map (erase it m.timers) (λ z n q. n (ap (deadline m.store) q)) others;
}
  where
    found : (deadline m.store it ≡ deadline m.store i)
    found = (find-some (deadline m.store) i it m.timers e).1

    others : All (λ z. deadline m.store z ≢ deadline m.store i) (erase it m.timers)
    others =
        subst (λ k. All (λ z. deadline m.store z ≢ k) (erase it m.timers)) found
          (erase-keys (deadline m.store) it m.timers v.sorted
            (find-some (deadline m.store) i it m.timers e).0)

-- Writing a timer that is not in the set, with a deadline of at least its period, and inserting it.
pub rewrite-IsValid :
    (m : Manager) (i : ℕ) (t : Timer) (s : List ℕ)
    → IsValid m
    → IsSorted (deadline m.store) s
    → All (λ z. z < length m.store) s
    → All (λ z. z ≢ i) s
    → HasPeriod t
    → IsValid (record m { store = set m.store i t; timers = s })
rewrite-IsValid m i t s v o k n p = record {
  sorted = set-IsSorted m.store i t s n o;
  known = rw (length-set m.store i t) k;
  periods = All-set HasPeriod m.store i t p v.periods;
}
