-- ===== src/Generators/Single.antt =====
-- 20co/AsyncSin.cc: `AsyncSingleValue`, whose body runs at the call, and `generate_single_value`.
use coroutinelib.Base.{ℕ, ◌≡◌, refl}
use coroutinelib.Faults.{Fault, Result, ◌>>=◌}

-- What a coroutine does at `initial_suspend` or `final_suspend`.
pub data Suspend : Type 0 where
  always never : Suspend

-- What the handle refers to: a frame suspended before its body or after it, with the promise's value,
-- or the memory of a frame that has been destroyed.
pub data Frame : Type 0 where
  initial : Frame
  final : (value : ℕ) → Frame
  destroyed : Frame

-- The body `co_return v` up to the end: without a suspension there the frame is destroyed.
unfoldable pub finish : Suspend → ℕ → Frame
finish Suspend.always v = Frame.final v
finish Suspend.never v = Frame.destroyed

-- The call of a coroutine with body `co_return v`: what its handle refers to when the call returns.
unfoldable pub call : (initial final : Suspend) → ℕ → Frame
unfolding finish
call Suspend.always f v = Frame.initial
call Suspend.never f v = finish f v

-- `initial_suspend` and `final_suspend` of `promise_type`.
abbrev pub initial_suspend : Suspend
initial_suspend = Suspend.never

abbrev pub final_suspend : Suspend
final_suspend = Suspend.never

-- `generate_single_value`, for any value.
unfoldable pub generate_single_value : ℕ → Frame
unfolding call
generate_single_value v = call initial_suspend final_suspend v

-- `get_value`; the promise's value is not set before the body has run.
unfoldable pub get_value : Frame → Result ℕ
get_value (Frame.final v) = Result.ok v
get_value _ = Result.err Fault.undefined

-- `handle.resume()`, which a frame suspended at its end does not allow.
unfoldable pub resume : (final : Suspend) → ℕ → Frame → Result Frame
unfolding finish
resume f v Frame.initial = Result.ok (finish f v)
resume f v _ = Result.err Fault.undefined

-- `handle.destroy()`.
unfoldable pub destroy : Frame → Result (Unit {0})
destroy Frame.destroyed = Result.err Fault.undefined
destroy _ = Result.ok tt

-- `~AsyncSingleValue`; the handle is never null.
unfoldable pub delete_value : (final : Suspend) → ℕ → Frame → Result (Unit {0})
unfolding resume destroy
delete_value f v g = do g' ← resume f v g; destroy g'

-- Whatever value `generate_single_value` returns, the handle that the caller gets refers to a destroyed
-- frame: `get_value` and the destructor are undefined behaviour. With a suspension at the end,
-- `get_value` would give the value; but the destructor, which resumes, would still be undefined.
pub single_value-undefined :
    (v : ℕ)
    → (get_value (generate_single_value v) ≡ Result.err Fault.undefined)
      × (delete_value final_suspend v (generate_single_value v) ≡ Result.err Fault.undefined)
      × (get_value (call initial_suspend Suspend.always v) ≡ Result.ok v)
      × (delete_value Suspend.always v (call initial_suspend Suspend.always v)
          ≡ Result.err Fault.undefined)
unfolding get_value generate_single_value delete_value resume call finish
single_value-undefined v = (refl, refl, refl, refl)
