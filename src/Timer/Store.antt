-- ===== src/Timer/Store.antt =====
-- How the store of timers reads after an update: what the methods of src/timer/timer.cc rely on when
-- they write through a `shared_ptr`.
use coroutinelib.Base.{
  ℕ, zero, suc, ◌<◌, ◌≡◌, ◌≢◌, refl, sym, ap, List, [], ◌∷◌, ◌++◌, All, length, set, get_or-set_ne,
  get_or-append_lt, ◌≤◌, All-get_or,
}
use coroutinelib.Timer.{Timer, milliseconds, null_timer, deref, deadline}
use coroutinelib.Timer.OrderedSet.Order.{IsSorted, IsSorted-congr}

pub deref-set_ne :
    (store : List Timer) (i z : ℕ) (t : Timer) → z ≢ i → deref (set store i t) z ≡ deref store z
deref-set_ne store i z t h = get_or-set_ne store i z t null_timer (λ e. h (sym e))

pub deadline-set_same :
    (store : List Timer) (i z : ℕ) (t : Timer)
    → t.next ≡ deadline store i
    → deadline (set store i t) z ≡ deadline store z
deadline-set_same [] i z t h = refl
deadline-set_same (u ∷ store) zero zero t h = h
deadline-set_same (u ∷ store) zero (suc z) t h = refl
deadline-set_same (u ∷ store) (suc i) zero t h = refl
deadline-set_same (u ∷ store) (suc i) (suc z) t h = deadline-set_same store i z t h

pub All-deref {κ} :
    (P : Timer → Type κ) (store : List Timer) (i : ℕ)
    → P null_timer
    → All P store
    → P (deref store i)
All-deref P store i p h = All-get_or P store i null_timer p h

pub All-snoc {κ} :
    (P : Timer → Type κ) (store : List Timer) (t : Timer)
    → P t
    → All P store
    → All P (store ++ t ∷ [])
All-snoc P [] t p h = (p, tt)
All-snoc P (u ∷ store) t p h = (h.0, All-snoc P store t p h.1)

-- Every timer's deadline is at least one period after the clock's origin.
abbrev pub HasPeriod : Timer → Type 0
HasPeriod t = milliseconds t.ms ≤ t.next

-- The keys of a set whose elements are not the timer written.
module _ (store : List Timer) (i : ℕ) (t : Timer) where
  pub set-keys :
      (s : List ℕ) → All (λ z. z ≢ i) s → All (λ z. deadline (set store i t) z ≡ deadline store z) s
  set-keys [] h = tt
  set-keys (z ∷ s) h = (ap (λ (u : Timer). u.next) (deref-set_ne store i z t h.0), set-keys s h.1)

  pub set-IsSorted :
      (s : List ℕ)
      → All (λ z. z ≢ i) s
      → IsSorted (deadline store) s
      → IsSorted (deadline (set store i t)) s
  set-IsSorted s h o = IsSorted-congr (deadline store) (deadline (set store i t)) s (set-keys s h) o

  set_same-keys :
      (s : List ℕ)
      → t.next ≡ deadline store i
      → All (λ z. deadline (set store i t) z ≡ deadline store z) s
  set_same-keys [] h = tt
  set_same-keys (z ∷ s) h = (deadline-set_same store i z t h, set_same-keys s h)

  pub set_same-IsSorted :
      (s : List ℕ)
      → t.next ≡ deadline store i
      → IsSorted (deadline store) s
      → IsSorted (deadline (set store i t)) s
  set_same-IsSorted s h o =
      IsSorted-congr (deadline store) (deadline (set store i t)) s (set_same-keys s h) o

module _ (store : List Timer) (t : Timer) where
  pub snoc-keys :
      (s : List ℕ)
      → All (λ z. z < length store) s
      → All (λ z. deadline (store ++ t ∷ []) z ≡ deadline store z) s
  snoc-keys [] h = tt
  snoc-keys (z ∷ s) h = (
    ap (λ (u : Timer). u.next) (get_or-append_lt store (t ∷ []) z null_timer h.0),
    snoc-keys s h.1,
  )

  pub snoc-IsSorted :
      (s : List ℕ)
      → All (λ z. z < length store) s
      → IsSorted (deadline store) s
      → IsSorted (deadline (store ++ t ∷ [])) s
  snoc-IsSorted s h o =
      IsSorted-congr (deadline store) (deadline (store ++ t ∷ [])) s (snoc-keys s h) o
