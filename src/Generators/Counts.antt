-- ===== src/Generators/Counts.antt =====
-- What the loop over `sequence` (20co/coroutine.cc) prints.
use coroutinelib.Base.{
  ℕ, ℤ, zero, suc, ◌+◌, ◌<◌, ◌≤◌, ◌≡◌, refl, some, true, false, List, [], ◌∷◌, arith, leb, ltb,
}
use coroutinelib.Faults.{Fault, Result}
use coroutinelib.Generators.{Point, int_max}
use coroutinelib.Generators.Sequence.{
  Frame, sequence, begin, print_from, main, loop_from, increment, resume, at_end, deref,
}

-- The numbers from `i` on, `k` of them.
pub counts : (i k : ℕ) → List ℕ
counts i zero = []
counts i (suc k) = i ∷ counts (i + 1) k

-- The frame suspended at the `co_yield` of `i`.
abbrev at : ℕ → ℕ → Frame
at n i = record { n = ℤ.pos n; current_value = some i; point = Point.yielded i }

leb-true : (a b : ℕ) → a ≤ b → leb a b ≡ true
leb-true a b h = ground arith

leb-false : (a b : ℕ) → b < a → leb a b ≡ false
leb-false a b h = ground arith

ltb-false : (a b : ℕ) → b ≤ a → ltb a b ≡ false
ltb-false a b h = ground arith

ltb-true : (a b : ℕ) → a < b → ltb a b ≡ true
ltb-true a b h = ground arith

print_from-at :
    (n i k fuel : ℕ)
    → i + k ≡ n
    → n < int_max
    → suc k < fuel
    → print_from fuel (at n i) ≡ Result.ok (counts i (suc k), true)
unfolding print_from at_end deref increment resume loop_from counts
print_from-at n i k zero e h l = absurd (omega arith)
print_from-at n i zero (suc zero) e h l = absurd (omega arith)
print_from-at n i zero (suc (suc fuel)) e h l =
    rw (ltb-true i int_max (omega arith), leb-false (i + 1) n (omega arith), print_from) refl
print_from-at n i (suc k) (suc fuel) e h l =
    rw
      (
        ltb-true i int_max (omega arith),
        leb-true (i + 1) n (omega arith),
        print_from-at n (i + 1) k fuel (omega arith) h (omega arith),
      )
      refl

print_from-overflow :
    (i k fuel : ℕ)
    → i + k ≡ int_max
    → k < fuel
    → print_from fuel (at int_max i) ≡ Result.err Fault.undefined
unfolding print_from at_end deref increment resume loop_from
print_from-overflow i k zero e l = absurd (omega arith)
print_from-overflow i zero (suc fuel) e l = rw (ltb-false i int_max (omega arith), print_from) refl
print_from-overflow i (suc k) (suc fuel) e l =
    rw
      (
        ltb-true i int_max (omega arith),
        leb-true (i + 1) int_max (omega arith),
        print_from-overflow (i + 1) k fuel (omega arith) (omega arith),
      )
      refl

-- The loop of `main` over `sequence(n)`, for n below INT_MAX and given more rounds than there are
-- numbers, prints 1 to n in order and ends.
pub main-counts :
    (n fuel : ℕ) → n < int_max → n < fuel → main fuel (ℤ.pos n) ≡ Result.ok (counts 1 n, true)
unfolding main begin resume loop_from sequence print_from at_end counts
main-counts zero zero h l = refl
main-counts zero (suc fuel) h l = refl
main-counts (suc n) fuel h l =
    rw
      (
        leb-true 1 (suc n) (omega arith),
        print_from-at (suc n) 1 n fuel (omega arith) h (omega arith),
      )
      refl

-- For a negative `n` it prints nothing and ends.
main-negative : (k fuel : ℕ) → main fuel (ℤ.negsuc k) ≡ Result.ok ([], true)
unfolding main begin resume loop_from sequence print_from at_end
main-negative k zero = refl
main-negative k (suc fuel) = refl

-- For INT_MAX the counter of `sequence` overflows.
main-overflow : (fuel : ℕ) → int_max ≤ fuel → main fuel (ℤ.pos int_max) ≡ Result.err Fault.undefined
unfolding main begin resume loop_from sequence
main-overflow fuel l = print_from-overflow 1 0x7ffffffe fuel refl (omega arith)
