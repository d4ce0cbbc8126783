-- ===== src/IoManager/Waiting.antt =====
-- How long `idle` waits and when `IOManager` may stop (src/iomanager/ioscheduler.cc).
use coroutinelib.Base.{
  ℕ, zero, suc, ◌+◌, ◌*◌, ◌^◌, ◌<◌, ◌≤◌, ◌≡◌, refl, sym, subst, ap, ◌∙◌, Bool, true, ◌&&◌, [],
  arith, All, length, ◌⊎◌, inl, inr, ◌==◌, ◌↔◌,
}
use coroutinelib.Timer.{deadline}
use coroutinelib.Timer.Manager.{Manager, get_next_timer, no_timer, next_timeout}
use coroutinelib.Timer.Manager.Valid.{IsValid}
use coroutinelib.Timer.NextTimer.{IsTimeout, get_next_timer-IsTimeout}
use coroutinelib.Timer.OrderedSet.Order.{All-map, All-In}
use coroutinelib.Scheduler
use coroutinelib.Scheduler.{Scheduler, Task}
use coroutinelib.IoManager.Context.{resize_from}
use coroutinelib.IoManager.Context.Consistent.{IsConsistent}
use coroutinelib.IoManager.{IoManager, stopping, new_io_manager}
use coroutinelib.IoManager.Idle.{wait_timeout, max_timeout}
use coroutinelib.IoManager.Invariant.{registered, Inv}

shorter :
    (m : Manager) (now r t : ℕ)
    → IsTimeout m now r
    → t ≤ r
    → All (λ z. (t ≡ 0) ⊎ (now + t * 1000000 ≤ deadline m.store z)) m.timers
shorter m now r t (inl (empty, e)) h =
    subst (All (λ z. (t ≡ 0) ⊎ (now + t * 1000000 ≤ deadline m.store z))) (sym empty) tt
shorter m now r t (inr (i, member, least, below, above)) h =
    All-map m.timers (λ z l. ground arith) least

-- `idle` waits at most `MAX_TIMEOUT` milliseconds, and never past the deadline of a timer in the set of
-- a valid manager: it does not wait, or what it waits for ends before the deadline.
pub wait_timeout_bounds :
    (m : IoManager) (now : ℕ)
    → IsValid m.timer
    → let t = (wait_timeout m now).1 in
      (t ≤ max_timeout)
      × All (λ z. (t ≡ 0) ⊎ (now + t * 1000000 ≤ deadline m.timer.store z)) m.timer.timers
unfolding wait_timeout
wait_timeout_bounds m now v = (
  ground arith,
  shorter m.timer now (get_next_timer m.timer now).1 (wait_timeout m now).1
      (get_next_timer-IsTimeout m.timer now v).0 (ground arith),
)

-- With time points below 2^63 only an empty set of timers gives `~0`.
no_timer-empty :
    (m : Manager) (now : ℕ)
    → IsTimeout m now (get_next_timer m now).1
    → All (λ z. deadline m.store z < 2 ^ 63) m.timers
    → (get_next_timer m now).1 ≡ no_timer
    → m.timers ≡ []
no_timer-empty m now (inl (empty, e)) h q = empty
no_timer-empty m now (inr (i, member, least, below, above)) h q =
    absurd (omega (arith, q, below, All-In (λ z. deadline m.store z < 2 ^ 63) m.timers i h member))

-- Nothing is left to do: no timer, no registered event, and the scheduler itself may stop.
abbrev pub IsDone : IoManager → Type 0
IsDone m = (m.timer.timers ≡ []) × (registered m.contexts ≡ 0) × (Scheduler.stopping m.sched ≡ true)

timeout-empty : (m : Manager) (now : ℕ) → m.timers ≡ [] → (get_next_timer m now).1 ≡ no_timer
unfolding get_next_timer
timeout-empty m now e = rw (e, next_timeout)

stopping-eq :
    (m : IoManager) (now : ℕ)
    → (stopping m now).1 ≡ (
        ((get_next_timer m.timer now).1 == no_timer)
        && m.pending == 0
        && Scheduler.stopping m.sched)
unfolding stopping
stopping-eq m now = refl

and-true : (a b c : Bool) → (a && b && c) ≡ true → (a ≡ true) × (b ≡ true) × (c ≡ true)
and-true a b c h = ground arith

==→≡ : (a b : ℕ) → (a == b) ≡ true → a ≡ b
==→≡ a b h = ground arith

≡→== : (a b : ℕ) → a ≡ b → (a == b) ≡ true
≡→== a b h = ground arith

-- `IOManager::stopping`, for a manager in order whose timers have deadlines below 2^63 (which the
-- clock's type grants): it is true exactly when the set of timers is empty, no event is registered,
-- `stop` was called, the queue is empty and no thread runs a task (the last three are
-- `Scheduler::stopping`).
pub stopping_iff :
    (m : IoManager) (now : ℕ)
    → IsValid m.timer
    → All (λ z. deadline m.timer.store z < 2 ^ 63) m.timer.timers
    → Inv m
    → ((stopping m now).1 ≡ true) ↔ IsDone m
stopping_iff m now v bound inv = (
  (λ h.
      let (a, b, c) =
        and-true ((get_next_timer m.timer now).1 == no_timer) (m.pending == 0)
          (Scheduler.stopping m.sched) (sym (stopping-eq m now) ∙ h) in
      (
        no_timer-empty m.timer now (get_next_timer-IsTimeout m.timer now v).0 bound
            (==→≡ (get_next_timer m.timer now).1 no_timer a),
        sym inv.counted ∙ ==→≡ m.pending 0 b,
        c,
      )),
  (λ d.
      stopping-eq m now
      ∙ rw (
        ≡→== (get_next_timer m.timer now).1 no_timer (timeout-empty m.timer now d.0),
        ≡→== m.pending 0 (inv.counted ∙ d.1),
        d.2,
      )),
)

fresh-contexts :
    (fd size : ℕ)
    → All IsConsistent (resize_from fd size [])
      × (registered (resize_from fd size []) ≡ 0)
      × (length (resize_from fd size []) ≡ size)
unfolding resize_from registered
fresh-contexts fd zero = (tt, refl, refl)
fresh-contexts fd (suc size) =
    let (a, b, c) = fresh-contexts (fd + 1) size in
    ((record { reads = refl; writes = refl }, a), omega (arith, b), ap suc c)

-- A new `IOManager` is in order, with 32 contexts and nothing registered.
pub new_io_manager-Inv :
    (timer : Manager) → Inv (new_io_manager timer) × (length (new_io_manager timer).contexts ≡ 32)
unfolding new_io_manager
new_io_manager-Inv timer =
    let (a, b, c) = fresh-contexts 0 32 in
    (record { consistent = a; counted = sym b; room = omega (arith, c) }, c)
