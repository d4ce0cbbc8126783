-- ===== src/Generators/Same.antt =====
-- The generators of 20co/coroutine.cc and 20co/AsyncSeq.cc.
use coroutinelib.Base.{ℕ, ℤ, zero, suc, ◌+◌, ◌≡◌, refl, none, some, inl, inr, Bool-cases, ltb}
use coroutinelib.Generators.{Point, at_most, int_max}
use coroutinelib.Generators.Sequence
use coroutinelib.Generators.Async

module _ (n : ℤ) where
  abbrev at : ℕ → Sequence.Frame
  at i = record { n = n; current_value = some i; point = Point.yielded i }

  abbrev async_at : ℕ → Async.Frame
  async_at i = record { n = n; current_value = i; point = Point.yielded i }

  print_from-final :
      (fuel : ℕ) (g : Sequence.Frame) (h : Async.Frame)
      → g.point ≡ Point.final
      → h.point ≡ Point.final
      → Async.print_from fuel h ≡ Sequence.print_from fuel g
  unfolding Async.print_from Sequence.print_from Async.at_end Sequence.at_end
  print_from-final zero g h e e' = rw (e, e') refl
  print_from-final (suc fuel) g h e e' = rw (e, e', Async.print_from, Sequence.print_from) refl

  print_from-same :
      (fuel i : ℕ) → Async.print_from fuel (async_at i) ≡ Sequence.print_from fuel (at i)
  unfolding Async.print_from Sequence.print_from Async.at_end Sequence.at_end Async.resume
      Sequence.increment Sequence.resume Sequence.deref Async.loop_from Sequence.loop_from
  print_from-same zero i = refl
  print_from-same (suc fuel) i = elim (Bool-cases (ltb i int_max)) [
    | inr e ↦ rw (e, Async.print_from, Sequence.print_from) refl
    | inl e ↦ elim (Bool-cases (at_most (i + 1) n)) [
      | inl p ↦ rw (e, p, print_from-same fuel (i + 1)) refl
      | inr p ↦
          rw
            (
              e,
              p,
              print_from-final fuel (record (at i) { point = Point.final })
                  (record (async_at i) { point = Point.final }) refl refl,
            )
            refl
    ]
  ]

  -- For every `n`, any number of rounds of the loop of 20co/AsyncSeq.cc print, end and fail as those of
  -- the loop of 20co/coroutine.cc do: the value that is not set before the first `co_yield` is not read.
  pub main-same : (fuel garbage : ℕ) → Async.main fuel garbage n ≡ Sequence.main fuel n
  unfolding Async.main Sequence.main Async.resume Sequence.begin Sequence.resume Async.loop_from
      Sequence.loop_from Async.generate_sequence Sequence.sequence
  main-same fuel garbage = elim (Bool-cases (at_most 1 n)) [
    | inl p ↦ rw p (print_from-same fuel 1)
    | inr p ↦ rw p (
        print_from-final fuel (record { n = n; current_value = none; point = Point.final })
          (record { n = n; current_value = garbage; point = Point.final }) refl refl)
  ]
