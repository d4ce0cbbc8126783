-- ===== src/Timer/OrderedSet/Members.antt =====
-- Which elements the operations of the ordered set find, keep and drop.
use coroutinelib.Base.{
  ℕ, ◌<◌, ◌≡◌, ◌≢◌, refl, sym, ap, some, Bool, List, [], ◌∷◌, arith, All, In, ltb, inl, inr,
  lt_cases,
}
use coroutinelib.Timer.OrderedSet.{insert, erase, find}
use coroutinelib.Timer.OrderedSet.Order.{IsSorted, All-In}

module _ (key : ℕ → ℕ) where
  abbrev pub lt : ℕ → ℕ → Bool
  lt a b = ltb (key a) (key b)

  -- A set that has the key already stays as it is.
  pub insert-same :
      (x z : ℕ) (s : List ℕ) → IsSorted key s → In z s → key z ≡ key x → insert lt x s ≡ s
  unfolding insert
  insert-same x z [] o m e = absurd m
  insert-same x z (y ∷ s) o (inl q) e = ground (arith, ap key q)
  insert-same x z (y ∷ s) o (inr m) e =
      ground (arith, All-In (λ w. key y < key w) s z o.0 m, insert-same x z s o.1 m e)

  -- Otherwise the element is in the set.
  pub insert-In : (x : ℕ) (s : List ℕ) → All (λ z. key z ≢ key x) s → In x (insert lt x s)
  unfolding insert
  insert-In x [] n = inl refl
  insert-In x (y ∷ s) n = elim (lt_cases (key x) (key y)) [
    | inl l ↦ ground arith
    | inr (inl l) ↦ ground (arith, insert-In x s n.1)
    | inr (inr e) ↦ absurd (n.0 (sym e))
  ]

  -- An element of the same key is found in the place of the one looked for.
  pub find-equal :
      (x z : ℕ) (s : List ℕ) → IsSorted key s → In z s → key z ≡ key x → find lt x s ≡ some z
  unfolding find
  find-equal x z [] o m e = absurd m
  find-equal x z (y ∷ s) o (inl q) e = ground (arith, ap key q)
  find-equal x z (y ∷ s) o (inr m) e =
      ground (arith, All-In (λ w. key y < key w) s z o.0 m, find-equal x z s o.1 m e)

pub insert-keeps : (less : ℕ → ℕ → Bool) (x z : ℕ) (s : List ℕ) → In z s → In z (insert less x s)
unfolding insert
insert-keeps less x z [] m = absurd m
insert-keeps less x z (y ∷ s) (inl e) = ground arith
insert-keeps less x z (y ∷ s) (inr m) = ground (arith, insert-keeps less x z s m)

pub erase-keeps : (x z : ℕ) (s : List ℕ) → z ≢ x → In z s → In z (erase x s)
unfolding erase
erase-keeps x z [] n m = absurd m
erase-keeps x z (y ∷ s) n (inl e) = ground arith
erase-keeps x z (y ∷ s) n (inr m) = ground (arith, erase-keeps x z s n m)

-- What holds of every member.
pub All-In_self {κ} : {P : ℕ → Type κ} (s : List ℕ) → ((z : ℕ) → In z s → P z) → All P s
All-In_self [] h = tt
All-In_self (x ∷ s) h = (h x (inl refl), All-In_self s (λ z m. h z (inr m)))
