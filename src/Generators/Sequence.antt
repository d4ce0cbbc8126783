-- ===== src/Generators/Sequence.antt =====
-- 20co/coroutine.cc: `Generator`, the coroutine `sequence`, and the range-based loop of `main`.
use coroutinelib.Base.{
  ℕ, ℤ, zero, suc, ◌+◌, Option, none, some, Bool, true, List, [], ◌∷◌, if◌then◌else◌, ltb,
}
use coroutinelib.Faults.{Fault, Result, ◌>>=◌, ◌>>◌, defined_if}
use coroutinelib.Generators.{at_most, int_max, Point, is_final}

-- The frame that `handle` refers to: the argument, the promise, and where the body is suspended.
pub record Frame : Type 0 where
  pub n : ℤ
  pub current_value : Option ℕ
  pub point : Point

-- `sequence(n)`: `get_return_object`, and `initial_suspend`, which always suspends.
unfoldable pub sequence : ℤ → Frame
sequence n = record { n = n; current_value = none; point = Point.initial }

-- The loop of `sequence` from its test: `yield_value` keeps the value and suspends; after the loop,
-- `final_suspend` suspends.
unfoldable pub loop_from : Frame → ℕ → Frame
loop_from g i =
    if at_most i g.n
    then record g { current_value = some i; point = Point.yielded i }
    else record g { point = Point.final }

-- `handle.resume()`, with the `++i` of the loop, which must not overflow.
unfoldable pub resume : Frame → Result Frame
unfolding loop_from
resume g = elim g.point [
  | Point.initial ↦ Result.ok (loop_from g 1)
  | Point.yielded i ↦ do defined_if (ltb i int_max); Result.ok (loop_from g (i + 1))
  | Point.final ↦ Result.err Fault.undefined
]

-- `begin` and `operator++`, which resume the body alike.
unfoldable pub begin : Frame → Result Frame
unfolding resume
begin g = resume g

unfoldable pub increment : Frame → Result Frame
unfolding resume
increment g = resume g

-- `operator*`.
unfoldable pub deref : Frame → Result ℕ
deref g = elim g.current_value [ none ↦ Result.err Fault.undefined | some v ↦ Result.ok v ]

-- `operator==` with the end of the range.
unfoldable pub at_end : Frame → Bool
at_end g = is_final g.point

-- The loop of `main` from its test, for at most `fuel` rounds: what it prints, and whether it ends.
unfoldable pub print_from : (fuel : ℕ) → Frame → Result (List ℕ × Bool)
unfolding at_end deref increment
print_from zero g = Result.ok ([], at_end g)
print_from (suc fuel) g =
    if at_end g
    then Result.ok ([], true)
    else do v ← deref g; g' ← increment g; (vs, ends) ← print_from fuel g'; Result.ok (v ∷ vs, ends)

-- `main`, for any argument of `sequence`.
unfoldable pub main : (fuel : ℕ) → ℤ → Result (List ℕ × Bool)
unfolding sequence begin print_from
main fuel n = begin (sequence n) >>= print_from fuel
