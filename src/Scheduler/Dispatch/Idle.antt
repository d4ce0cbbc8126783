-- ===== src/Scheduler/Dispatch/Idle.antt =====
-- `Scheduler::idle` (src/scheduler/scheduler.cc), from its test to the switch of contexts, with the
-- `sleep` of src/hook/hook.cc. The scheduler is not an `IOManager`, which has an `idle` of its own.
use coroutinelib.Base.{
  ℕ, ◌≡◌, refl, none, some, Bool, true, false, if◌then◌else◌, Bool-cases, inl, inr,
}
use coroutinelib.Faults.{Fault, Result, ◌>>=◌}
use coroutinelib.Fiber.{World, get_this, yield, main_func_end}
use coroutinelib.Hook.{Outcome, sleep, suspend, is_hook_enable}
use coroutinelib.Hook.Sleep.{get_this-current}
use coroutinelib.Scheduler.{Scheduler, stopping}
use coroutinelib.Scheduler.Dispatch.{Leaves}

-- What `idle` does with the thread: its loop ends, or it yields.
pub data Idling : Type 0 where
  ended : Idling
  yielded : World → Idling

-- After `sleep(1)`, which has yielded already if the fiber is suspended in it.
unfoldable pub after_sleep : World → Outcome → (garbage fails swap_fails : Bool) → Result Idling
unfolding get_this yield
after_sleep w Outcome.original garbage fails swap_fails = do
  (w', fiber) ← get_this w garbage fails
  w'' ← yield w' fiber swap_fails
  Result.ok (Idling.yielded w'')
after_sleep w (Outcome.suspended l timer) garbage fails swap_fails =
    Result.ok (Idling.yielded l.world)

-- `enabled` is `t_hook_enable`; `IOManager::GetThis()` is null.
unfoldable pub idle_step :
    Scheduler
    → World
    → (enabled : Bool) → (now : ℕ) → (garbage fails swap_fails : Bool) → Result Idling
unfolding stopping sleep after_sleep
idle_step s w enabled now garbage fails swap_fails =
    if stopping s
    then Result.ok Idling.ended
    else sleep (record { enabled = enabled; world = w; iom = none }) 1 now garbage fails swap_fails
      >>= λ o. after_sleep w o garbage fails swap_fails

-- The idle fiber `i` up to the switch: when `idle` returns, `MainFunc` ends the fiber.
unfoldable pub leave_idle : World → ℕ → (fails : Bool) → Idling → Result World
unfolding main_func_end
leave_idle w i fails Idling.ended = main_func_end w i fails
leave_idle w i fails (Idling.yielded w') = Result.ok w'

unfoldable pub idle_turn :
    Scheduler → World → ℕ → (enabled : Bool) → (now : ℕ) → (garbage fails : Bool) → Result World
unfolding idle_step leave_idle
idle_turn s w i enabled now garbage fails =
    idle_step s w enabled now garbage fails fails >>= leave_idle w i fails

-- How `idle` leaves the thread without the hooks.
abbrev pub idle_leaves : Scheduler → Leaves
idle_leaves s = if stopping s then Leaves.returns else Leaves.yields

-- What the code of a fiber does with the thread once it has it.
abbrev pub leave_by : World → ℕ → Leaves → (fails : Bool) → Result World
leave_by w i Leaves.yields fails = yield w i fails
leave_by w i Leaves.returns fails = main_func_end w i fails

leave_idle-yielded :
    (w : World) (i : ℕ) (fails : Bool) (q : Result World)
    → (q >>= (λ u. Result.ok (Idling.yielded u)) >>= leave_idle w i fails) ≡ q
unfolding leave_idle
leave_idle-yielded w i fails (Result.ok u) = refl
leave_idle-yielded w i fails (Result.err f) = refl

module _ (w : World) (i now : ℕ) (garbage fails : Bool) (e : w.current ≡ some i) where
  asleep : Bool → Result Idling
  unfolding sleep after_sleep
  asleep enabled =
      sleep (record { enabled = enabled; world = w; iom = none }) 1 now garbage fails fails >>= λ o.
      after_sleep w o garbage fails fails

  asleep-leaves :
      (enabled : Bool)
      → (asleep enabled >>= leave_idle w i fails)
        ≡ (if enabled then Result.err Fault.null_pointer else leave_by w i Leaves.yields fails)
  unfolding asleep sleep suspend is_hook_enable after_sleep
  asleep-leaves true = rw (get_this-current w i garbage fails e) refl
  asleep-leaves false =
      rw (get_this-current w i garbage fails e) (leave_idle-yielded w i fails (yield w i fails))

-- In the idle fiber of a scheduler that is no `IOManager`, `idle` ends when the scheduler is stopping,
-- and yields otherwise, unless the hooks are on: then its `sleep` uses the null pointer of the missing
-- `IOManager`.
pub idle_turn-leaves :
    (s : Scheduler) (w : World) (i now : ℕ) (enabled garbage fails : Bool)
    → w.current ≡ some i
    → idle_turn s w i enabled now garbage fails ≡ (
        if stopping s
        then leave_by w i Leaves.returns fails
        else (if enabled then Result.err Fault.null_pointer else leave_by w i Leaves.yields fails))
unfolding idle_turn idle_step leave_idle asleep
idle_turn-leaves s w i now enabled garbage fails e = elim (Bool-cases (stopping s)) [
  | inl stops ↦ rw stops refl
  | inr goes ↦ rw goes (asleep-leaves w i now garbage fails e enabled)
]
