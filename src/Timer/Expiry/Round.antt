-- ===== src/Timer/Expiry/Round.antt =====
-- One round of the loop of `listExpiredCb` (src/timer/timer.cc), for the timer at the head of the set.
use coroutinelib.Base.{
  ℕ, ◌+◌, ◌<◌, ◌≡◌, ◌≢◌, refl, sym, subst, Option, none, Bool, true, false, ◌||◌, List, [], ◌∷◌,
  arith, All, length, set, Bool-cases, leb, if◌then◌else◌, inl, inr, ◌⊎◌,
}
use coroutinelib.Callback.{Callback}
use coroutinelib.Timer.{Timer, milliseconds, deref, deadline, comparator}
use coroutinelib.Timer.OrderedSet.{insert, erase}
use coroutinelib.Timer.OrderedSet.Order.{IsSorted, All-ne_head}
use coroutinelib.Timer.Manager.{Manager, expire_one}
use coroutinelib.Timer.Manager.Valid.{IsValid}
use coroutinelib.Timer.Store.{deref-set_ne}

-- The elements of the set whose deadline has passed, in the set's order; all of them after a rollover.
unfoldable pub expired : Bool → ℕ → List Timer → List ℕ → List ℕ
expired rollover now store [] = []
expired rollover now store (i ∷ s) =
    let rest = expired rollover now store s in
    if rollover || leb (deadline store i) now then i ∷ rest else rest

abbrev pub callbacks : List Timer → List ℕ → List (Option Callback)
callbacks store [] = []
callbacks store (i ∷ s) = (deref store i).cb ∷ callbacks store s

-- A timer after which the loop comes to an end: after a rollover it must not come back to the set,
-- and otherwise not with a deadline that has passed already.
abbrev pub Ends : Bool → Timer → Type 0
Ends rollover t = (t.recurring ≡ false) ⊎ ((rollover ≡ false) × (0 < t.ms))

-- The same timers, read through another store.
abbrev pub Agrees : List Timer → List Timer → List ℕ → Type 0
Agrees other store s = All (λ z. deref other z ≡ deref store z) s

pub Agrees-set :
    (store : List Timer) (i : ℕ) (t : Timer) (s : List ℕ)
    → All (λ z. i ≢ z) s
    → Agrees (set store i t) store s
Agrees-set store i t [] h = tt
Agrees-set store i t (z ∷ s) h =
    (deref-set_ne store i z t (λ e. h.0 (sym e)), Agrees-set store i t s h.1)

pub expired-Agrees :
    (rollover : Bool) (now : ℕ) (other store : List Timer) (s : List ℕ)
    → Agrees other store s
    → expired rollover now other s ≡ expired rollover now store s
unfolding expired
expired-Agrees rollover now other store [] h = refl
expired-Agrees rollover now other store (i ∷ s) h =
    ground (arith, h.0, expired-Agrees rollover now other store s h.1)

pub callbacks-Agrees :
    (other store : List Timer) (s : List ℕ)
    → Agrees other store s
    → callbacks other s ≡ callbacks store s
callbacks-Agrees other store [] h = refl
callbacks-Agrees other store (i ∷ s) h = rw (h.0, callbacks-Agrees other store s h.1)

pub Agrees-expired :
    (rollover : Bool) (now : ℕ) (other store : List Timer) (s : List ℕ)
    → Agrees other store s
    → Agrees other store (expired rollover now store s)
unfolding expired
Agrees-expired rollover now other store [] h = tt
Agrees-expired rollover now other store (i ∷ s) h =
    elim (Bool-cases (rollover || leb (deadline store i) now)) [
      | inl e ↦ rw e (h.0, Agrees-expired rollover now other store s h.1)
      | inr e ↦ rw e (Agrees-expired rollover now other store s h.1)
    ]

pub Ends-Agrees :
    (rollover : Bool) (other store : List Timer) (s : List ℕ)
    → Agrees other store s
    → All (λ z. Ends rollover (deref store z)) s
    → All (λ z. Ends rollover (deref other z)) s
Ends-Agrees rollover other store [] h e = tt
Ends-Agrees rollover other store (i ∷ s) h e =
    (rw (h.0) e.0, Ends-Agrees rollover other store s h.1 e.1)

-- A timer that has not expired does not change what has, wherever it is inserted.
pub expired-insert :
    (lt : ℕ → ℕ → Bool) (now : ℕ) (store : List Timer) (i : ℕ) (s : List ℕ)
    → now < deadline store i
    → expired false now store (insert lt i s) ≡ expired false now store s
unfolding expired insert
expired-insert lt now store i [] h = ground arith
expired-insert lt now store i (y ∷ s) h = ground (arith, expired-insert lt now store i s h)

erase-head : (i : ℕ) (s : List ℕ) → erase i (i ∷ s) ≡ s
unfolding erase
erase-head i s = ground arith

-- The timer's new value: moved on by its period, or without its callback.
abbrev pub restarted : ℕ → List Timer → ℕ → Timer
restarted now store i = record (deref store i) { next = now + milliseconds (deref store i).ms }

abbrev pub fired : List Timer → ℕ → Timer
fired store i = record (deref store i) { cb = none }

-- The round's new state, for the set `i ∷ s` of a valid manager.
module _ (now : ℕ) (m : Manager) (i : ℕ) (s : List ℕ) (head : m.timers ≡ i ∷ s)
    (v : IsValid m) where
  pub order : IsSorted (deadline m.store) (i ∷ s)
  order = subst (IsSorted (deadline m.store)) head v.sorted

  pub bound : All (λ z. z < length m.store) (i ∷ s)
  bound = subst (All (λ z. z < length m.store)) head v.known

  pub others : All (λ z. i ≢ z) s
  others = All-ne_head (deadline m.store) i s order.0

  pub expire_recurring :
      (deref m.store i).recurring ≡ true
      → expire_one now m i ≡ record m {
        store = set m.store i (restarted now m.store i);
        timers = insert (comparator (set m.store i (restarted now m.store i))) i s;
      }
  unfolding expire_one
  expire_recurring e = rw (head, e, erase-head i s, expire_one)

  pub expire_once :
      (deref m.store i).recurring ≡ false
      → expire_one now m i ≡ record m { store = set m.store i (fired m.store i); timers = s }
  unfolding expire_one
  expire_once e = rw (head, e, erase-head i s, expire_one)
