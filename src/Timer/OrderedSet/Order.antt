-- ===== src/Timer/OrderedSet/Order.antt =====
-- What the operations of the ordered set keep, for elements compared by a key.
use coroutinelib.Base.{
  ℕ, ap, ◌==◌, Bool-cases, lt_cases, ◌<◌, ◌≡◌, ◌≢◌, inl, inr, some, Bool, true, List, [], ◌∷◌,
  arith, ltb, All, In,
}
use coroutinelib.Timer.OrderedSet.{insert, find, erase}

abbrev pub by_key : (ℕ → ℕ) → ℕ → ℕ → Bool
by_key key a b = ltb (key a) (key b)

-- Strictly increasing keys: the invariant of the set.
abbrev pub IsSorted : (ℕ → ℕ) → List ℕ → Type 0
IsSorted key [] = Unit {0}
IsSorted key (x ∷ xs) = All (λ y. key x < key y) xs × IsSorted key xs

pub All-map {ℓ κ} :
    {A : Type ℓ} {P Q : A → Type κ} (xs : List A) → ((a : A) → P a → Q a) → All P xs → All Q xs
All-map [] f h = tt
All-map (x ∷ xs) f h = (f x h.0, All-map xs f h.1)

pub All-In {κ} : (P : ℕ → Type κ) (xs : List ℕ) (a : ℕ) → All P xs → In a xs → P a
All-In P [] a h m = absurd m
All-In P (x ∷ xs) a h (inl e) = rw e h.0
All-In P (x ∷ xs) a h (inr m) = All-In P xs a h.1 m

pub insert-All {κ} :
    (P : ℕ → Type κ) (lt : ℕ → ℕ → Bool) (x : ℕ) (s : List ℕ)
    → P x
    → All P s
    → All P (insert lt x s)
unfolding insert
insert-All P lt x [] p h = (p, tt)
insert-All P lt x (y ∷ ys) p h = elim (Bool-cases (lt x y)) [
  | inl e ↦ rw e (p, h)
  | inr e ↦ elim (Bool-cases (lt y x)) [
    | inl f ↦ rw (e, f) (h.0, insert-All P lt x ys p h.1)
    | inr f ↦ rw (e, f) h
  ]
]

pub erase-All {κ} : (P : ℕ → Type κ) (x : ℕ) (s : List ℕ) → All P s → All P (erase x s)
unfolding erase
erase-All P x [] h = tt
erase-All P x (y ∷ ys) h = elim (Bool-cases (x == y)) [
  | inl e ↦ rw e h.1
  | inr e ↦ rw e (h.0, erase-All P x ys h.1)
]

==→eq : (a b : ℕ) → (a == b) ≡ true → a ≡ b
==→eq a b h = ground arith

module _ (key : ℕ → ℕ) where
  All-below : (a b : ℕ) (s : List ℕ) → a < b → All (λ z. b < key z) s → All (λ z. a < key z) s
  All-below a b [] l h = tt
  All-below a b (z ∷ s) l h = (omega arith, All-below a b s l h.1)

  pub insert-IsSorted :
      (x : ℕ) (s : List ℕ) → IsSorted key s → IsSorted key (insert (by_key key) x s)
  unfolding insert
  insert-IsSorted x [] h = (tt, tt)
  insert-IsSorted x (y ∷ ys) h = elim (Bool-cases (by_key key x y)) [
    | inl e ↦ rw e ((ground arith, All-below (key x) (key y) ys (ground arith) h.0), h)
    | inr e ↦ elim (Bool-cases (by_key key y x)) [
      | inl f ↦
          rw (e, f)
            (
              insert-All (λ z. key y < key z) (by_key key) x ys (ground arith) h.0,
              insert-IsSorted x ys h.1,
            )
      | inr f ↦ rw (e, f) h
    ]
  ]

  pub erase-IsSorted : (x : ℕ) (s : List ℕ) → IsSorted key s → IsSorted key (erase x s)
  unfolding erase
  erase-IsSorted x [] h = tt
  erase-IsSorted x (y ∷ ys) h = elim (Bool-cases (x == y)) [
    | inl e ↦ rw e h.1
    | inr e ↦ rw e (erase-All (λ z. key y < key z) x ys h.0, erase-IsSorted x ys h.1)
  ]

  -- Another key that agrees on the elements keeps the order.
  IsSorted-congr_above :
      (other : ℕ → ℕ) (b : ℕ) (s : List ℕ)
      → All (λ z. other z ≡ key z) s
      → All (λ z. b < key z) s
      → All (λ z. b < other z) s
  IsSorted-congr_above other b [] e h = tt
  IsSorted-congr_above other b (z ∷ s) e h = (rw (e.0) h.0, IsSorted-congr_above other b s e.1 h.1)

  pub IsSorted-congr :
      (other : ℕ → ℕ) (s : List ℕ)
      → All (λ z. other z ≡ key z) s
      → IsSorted key s
      → IsSorted other s
  IsSorted-congr other [] e h = tt
  IsSorted-congr other (x ∷ xs) e h =
      (rw (e.0) (IsSorted-congr_above other (key x) xs e.1 h.0), IsSorted-congr other xs e.1 h.1)

  -- The head of a sorted set is none of the others.
  pub All-ne_head : (x : ℕ) (s : List ℕ) → All (λ z. key x < key z) s → All (λ z. x ≢ z) s
  All-ne_head x [] h = tt
  All-ne_head x (z ∷ s) h = (λ e. omega (arith, ap key e), All-ne_head x s h.1)

  -- `find` on a sorted set: the element found has the key of the one looked for.
  pub find-some : (x y : ℕ) (s : List ℕ) → find (by_key key) x s ≡ some y → In y s × (key y ≡ key x)
  unfolding find
  find-some x y [] e = cc
  find-some x y (z ∷ s) e = elim (lt_cases (key x) (key z)) [
    | inl l ↦ let (m, k) = find-some x y s (ground arith) in (inr m, k)
    | inr (inl l) ↦ let (m, k) = find-some x y s (ground arith) in (inr m, k)
    | inr (inr q) ↦ (inl (ground arith), ground arith)
  ]

  -- An element of the set is found, and found as itself.
  pub find_self : (x : ℕ) (s : List ℕ) → IsSorted key s → In x s → find (by_key key) x s ≡ some x
  unfolding find
  find_self x [] h m = absurd m
  find_self x (z ∷ s) h (inl e) = rw e (ground arith)
  find_self x (z ∷ s) h (inr m) =
      ground (arith, All-In (λ w. key z < key w) s x h.0 m, find_self x s h.1 m)

  -- What is left of a sorted set without an element has other keys.
  pub erase-keys :
      (x : ℕ) (s : List ℕ) → IsSorted key s → In x s → All (λ z. key z ≢ key x) (erase x s)
  unfolding erase
  erase-keys x [] h m = absurd m
  erase-keys x (y ∷ ys) h m = elim (Bool-cases (x == y)) [
    | inl e ↦ rw e (All-map ys (λ z l q. omega (arith, ap key (==→eq x y e))) h.0)
    | inr e ↦ elim m [
      | inl q ↦ absurd (ground arith)
      | inr in_rest ↦ rw e (
        (λ q. omega (arith, All-In (λ z. key y < key z) ys x h.0 in_rest)),
        erase-keys x ys h.1 in_rest,
      )
    ]
  ]
