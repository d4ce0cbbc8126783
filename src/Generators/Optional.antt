-- ===== src/Generators/Optional.antt =====
-- 20co/AsyncOpt.cc: `AsyncOptionalExit`, the coroutine `generate_until_optional`, and `main`.
use coroutinelib.Base.{
  ℕ, zero, suc, ◌<◌, ◌≡◌, refl, Option, none, some, List, [], ◌∷◌, get_or, arith,
}
use coroutinelib.Faults.{Fault, Result, ◌>>=◌}

-- Where the body is suspended: before it, at its four `co_yield`s, at its end.
pub data Point : Type 0 where
  initial first second third fourth final : Point

pub record Frame : Type 0 where
  pub value : Option ℕ
  pub point : Point

-- The call of `generate_until_optional`, which suspends before the body.
unfoldable pub generate_until_optional : Frame
generate_until_optional = record { value = none; point = Point.initial }

-- `yield_value`, which suspends.
unfoldable pub yield_value : Option ℕ → Point → Frame
yield_value v p = record { value = v; point = p }

-- `handle.resume()`: the body up to its next suspension.
unfoldable pub resume : Frame → Result Frame
unfolding yield_value
resume g = elim g.point [
  | Point.initial ↦ Result.ok (yield_value none Point.first)
  | Point.first ↦ Result.ok (yield_value (some 10) Point.second)
  | Point.second ↦ Result.ok (yield_value (some 20) Point.third)
  | Point.third ↦ Result.ok (yield_value (some 30) Point.fourth)
  | Point.fourth ↦ Result.ok (record g { point = Point.final })
  | Point.final ↦ Result.err Fault.undefined
]

-- `get_value`.
unfoldable pub get_value : Frame → Option ℕ
get_value g = g.value

-- What `main` prints.
pub data Output : Type 0 where
  generated_value : ℕ → Output
  no_value_generated : Output

unfoldable pub main : Output
unfolding generate_until_optional get_value
main = elim (get_value generate_until_optional) [
  | some v ↦ Output.generated_value v
  | none ↦ Output.no_value_generated
]

-- `k` calls of `handle.resume()`.
unfoldable pub resumes : (k : ℕ) → Frame → Result Frame
unfolding resume
resumes zero g = Result.ok g
resumes (suc k) g = resume g >>= resumes k

-- The values after so many resumptions.
abbrev values : List (Option ℕ)
values = none ∷ none ∷ some 10 ∷ some 20 ∷ some 30 ∷ some 30 ∷ []

-- After up to five resumptions `get_value` gives nothing, nothing, 10, 20, 30 and 30 in turn, and
-- `main`, which does not resume the body at all, prints that there is no value; further resumptions
-- are undefined.
pub values-by_resumptions :
    (main ≡ Output.no_value_generated)
    × ((k : ℕ)
        → k < 6
        → (g : Frame) × (resumes k generate_until_optional ≡ Result.ok g)
          × (get_value g ≡ get_or values k none))
    × ((k : ℕ)
        → resumes (suc (suc (suc (suc (suc (suc k)))))) generate_until_optional
          ≡ Result.err Fault.undefined)
unfolding main resumes resume yield_value get_value generate_until_optional
values-by_resumptions = (refl, upto, λ k. refl)
  where
    upto :
        (k : ℕ)
        → k < 6
        → (g : Frame) × (resumes k generate_until_optional ≡ Result.ok g)
          × (get_value g ≡ get_or values k none)
    upto zero h = (_, refl, refl)
    upto (suc zero) h = (_, refl, refl)
    upto (suc (suc zero)) h = (_, refl, refl)
    upto (suc (suc (suc zero))) h = (_, refl, refl)
    upto (suc (suc (suc (suc zero)))) h = (_, refl, refl)
    upto (suc (suc (suc (suc (suc zero))))) h = (_, refl, refl)
    upto (suc (suc (suc (suc (suc (suc k)))))) h = absurd (omega arith)
