-- ===== src/Generators/Tests.antt =====
-- The theorems on 20co/coroutine.cc, 20co/AsyncSeq.cc and 20co/AsyncSin.cc applied.
use coroutinelib.Base.{ℤ, ◌≡◌, true, arith}
use coroutinelib.Faults.{Result}
use coroutinelib.Generators.Sequence
use coroutinelib.Generators.Async
use coroutinelib.Generators.Counts.{counts, main-counts}
use coroutinelib.Generators.Same.{main-same}

main-counts_example : Sequence.main 6 (ℤ.pos 5) ≡ Result.ok (counts 1 5, true)
main-counts_example = main-counts 5 6 (omega arith) (omega arith)

main-same_example : Async.main 6 77 (ℤ.pos 5) ≡ Sequence.main 6 (ℤ.pos 5)
main-same_example = main-same (ℤ.pos 5) 6 77
