-- ===== src/Faults.antt =====
-- How the code of src/ can fail to return: the result of an operation, with `do` blocks for its steps.
use coroutinelib.Base.{Option, none, some, Bool, true, false, if◌then◌else◌}

-- A failed `assert`, the use of a null pointer, `pthread_exit` or `exit` after a failed system
-- call, a thread that waits for a lock it holds itself, and other behaviour that C++ leaves
-- undefined.
pub data Fault : Type 0 where
  assertion null_pointer thread_exit process_exit deadlock undefined : Fault

pub data Result {ℓ} (A : Type ℓ) : Type ℓ where
  ok : A → Result A
  err : Fault → Result A

infixl 5 ◌>>=◌ ◌>>◌
abbrev pub ◌>>=◌ {ℓ κ} : {A : Type ℓ} {B : Type κ} → Result A → (A → Result B) → Result B
Result.ok a >>= f = f a
Result.err e >>= f = Result.err e

abbrev pub ◌>>◌ {ℓ} : {B : Type ℓ} → Result (Unit {0}) → Result B → Result B
m >> k = m >>= λ _. k

abbrev pub assert : Bool → Result (Unit {0})
assert true = Result.ok tt
assert false = Result.err Fault.assertion

-- The test of a system call's result.
abbrev pub or_exit : Bool → Result (Unit {0})
or_exit fails = if fails then Result.err Fault.thread_exit else Result.ok tt

abbrev pub non_null {ℓ} : {A : Type ℓ} → Option A → Result A
non_null none = Result.err Fault.null_pointer
non_null (some a) = Result.ok a

-- The use of a pointer, by its test against null.
abbrev pub uses : Bool → Result (Unit {0})
uses true = Result.ok tt
uses false = Result.err Fault.null_pointer

-- The test of a system call's result in a `main`.
abbrev pub or_process_exit : Bool → Result (Unit {0})
or_process_exit fails = if fails then Result.err Fault.process_exit else Result.ok tt

-- The condition under which C++ defines what comes next.
abbrev pub defined_if : Bool → Result (Unit {0})
defined_if true = Result.ok tt
defined_if false = Result.err Fault.undefined
