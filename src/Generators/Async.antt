-- ===== src/Generators/Async.antt =====
-- 20co/AsyncSeq.cc: `AsyncSequence`, the coroutine `generate_sequence`, and the range-based loop of
-- `main`.
use coroutinelib.Base.{ℕ, ℤ, zero, suc, ◌+◌, Bool, true, List, [], ◌∷◌, if◌then◌else◌, ltb}
use coroutinelib.Faults.{Fault, Result, ◌>>=◌, ◌>>◌, defined_if}
use coroutinelib.Generators.{at_most, int_max, Point, is_final}

-- The frame: the argument, the promise's `current_value`, and where the body is suspended.
pub record Frame : Type 0 where
  pub n : ℤ
  pub current_value : ℕ
  pub point : Point

-- `generate_sequence(n)`; `garbage` is what `current_value` holds before the first `co_yield`.
unfoldable pub generate_sequence : (garbage : ℕ) → ℤ → Frame
generate_sequence garbage n = record { n = n; current_value = garbage; point = Point.initial }

-- The loop of `generate_sequence` from its test.
unfoldable pub loop_from : Frame → ℕ → Frame
loop_from g i =
    if at_most i g.n
    then record g { current_value = i; point = Point.yielded i }
    else record g { point = Point.final }

-- `handle.resume()`.
unfoldable pub resume : Frame → Result Frame
unfolding loop_from
resume g = elim g.point [
  | Point.initial ↦ Result.ok (loop_from g 1)
  | Point.yielded i ↦ do defined_if (ltb i int_max); Result.ok (loop_from g (i + 1))
  | Point.final ↦ Result.err Fault.undefined
]

-- `operator==` with the end of the range.
unfoldable pub at_end : Frame → Bool
at_end g = is_final g.point

-- The loop of `main` from its test, for at most `fuel` rounds: what it prints, and whether it ends.
unfoldable pub print_from : (fuel : ℕ) → Frame → Result (List ℕ × Bool)
unfolding at_end resume
print_from zero g = Result.ok ([], at_end g)
print_from (suc fuel) g =
    if at_end g
    then Result.ok ([], true)
    else do g' ← resume g; (vs, ends) ← print_from fuel g'; Result.ok (g.current_value ∷ vs, ends)

-- `main`, for any argument of `generate_sequence`.
unfoldable pub main : (fuel garbage : ℕ) → ℤ → Result (List ℕ × Bool)
unfolding generate_sequence resume print_from
main fuel garbage n = resume (generate_sequence garbage n) >>= print_from fuel
