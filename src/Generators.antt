-- ===== src/Generators.antt =====
-- The coroutines of C++20 in 20co/: numbers that bound their loops, and where a body is suspended.
pub mod Sequence
pub mod Async
pub mod Single
pub mod Optional
pub mod Counts
pub mod Same
mod Tests
use coroutinelib.Base.{ℕ, ℤ, Bool, true, false, leb}

-- `i <= n`, for a counter that starts at 1.
abbrev pub at_most : ℕ → ℤ → Bool
at_most i (ℤ.pos n) = leb i n
at_most i (ℤ.negsuc k) = false

-- INT_MAX.
abbrev pub int_max : ℕ
int_max = 0x7fffffff

-- Where the body of a loop over `co_yield i` is suspended: before it, at the `co_yield` of `i`, after
-- it.
pub data Point : Type 0 where
  initial : Point
  yielded : (i : ℕ) → Point
  final : Point

abbrev pub is_final : Point → Bool
is_final Point.final = true
is_final _ = false
