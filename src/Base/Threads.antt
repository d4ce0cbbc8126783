-- ===== src/Base/Threads.antt =====
-- The threads of a program as a function from their numbers, with a sum over the first `n` of them.
use coroutinelib.Base.{ℕ, zero, suc, ◌+◌, ◌≤◌, ◌<◌, ◌≡◌, ◌≢◌, refl, arith}
use mathlib.Core.Logic.{ite}
use native.Mathlib.Decide.{dec_lt, ℕ_discrete}

-- Thread `i` becomes `a`.
abbrev pub assign {ℓ} : {A : Type ℓ} → (ℕ → A) → ℕ → A → ℕ → A
assign f i a j = ite (ℕ_discrete j i) a (f j)

module _ {ℓ} {A : Type ℓ} (f : ℕ → A) (i : ℕ) (a : A) where
  pub assign_self : (j : ℕ) → j ≡ i → assign f i a j ≡ a
  assign_self j e = ground arith

  pub assign_other : (j : ℕ) → j ≢ i → assign f i a j ≡ f j
  assign_other j n = ground arith

module _ {ℓ} {A : Type ℓ} (weight : A → ℕ) where
  unfoldable pub sum_threads : (ℕ → A) → ℕ → ℕ
  sum_threads f zero = 0
  sum_threads f (suc n) = weight (f n) + sum_threads f n

  sum-outside :
      (f : ℕ → A) (i : ℕ) (a : A) (n : ℕ) → n ≤ i → sum_threads (assign f i a) n ≡ sum_threads f n
  unfolding sum_threads
  sum-outside f i a zero h = refl
  sum-outside f i a (suc n) h = ground (arith, sum-outside f i a n)

  -- Only the assigned thread's part of the sum changes.
  pub sum-assign :
      (f : ℕ → A) (i : ℕ) (a : A) (n : ℕ)
      → i < n
      → sum_threads (assign f i a) n + weight (f i) ≡ weight a + sum_threads f n
  unfolding sum_threads
  sum-assign f i a zero h = absurd (omega arith)
  sum-assign f i a (suc n) h = elim (dec_lt i n) [
    | yes inside ↦ ground (arith, sum-assign f i a n inside)
    | no at_end ↦ ground (arith, sum-outside f i a n)
  ]

  -- The sum is at least each part.
  pub sum-ge : (f : ℕ → A) (n i : ℕ) → i < n → weight (f i) ≤ sum_threads f n
  unfolding sum_threads
  sum-ge f zero i h = absurd (omega arith)
  sum-ge f (suc n) i h = elim (ℕ_discrete i n) [
    | yes q ↦ rw q (omega arith)
    | no q ↦ omega (arith, sum-ge f n i (omega arith))
  ]
