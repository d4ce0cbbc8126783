-- ===== src/Thread/Tests.antt =====
-- Runs of the semaphore and of a thread's start, and the theorems on src/thread applied to them.
use coroutinelib.Base.{◌+◌, ◌≤◌, ◌≡◌, refl, none, some, [], arith, ◌⊎◌}
use coroutinelib.Callback.{Callback}
use coroutinelib.Thread.{new_thread, wait_test, signal}
use coroutinelib.Thread.Semaphore
use coroutinelib.Thread.Semaphore.{Waiters, no_lost_wakeup}
use coroutinelib.Thread.Handshake.{Runner, Waiter, State, Step, Reach}
use coroutinelib.Thread.Handshake.Completes.{IsDone, constructor-returns_ready, handshake-completes}

-- One thread sleeps on a semaphore without units, and another calls `wait` after a signal.
abbrev signalled : Waiters
signalled = record { count = 1; awake = 1; sleeping = 1; passed = 0; signals = 1 }

signalled-Reach : Semaphore.Reach 0 signalled
unfolding wait_test signal
signalled-Reach =
    Semaphore.Reach.next
      (Semaphore.Reach.next
        (Semaphore.Reach.next
          (Semaphore.Reach.next (Semaphore.Reach.next Semaphore.Reach.begin Semaphore.Step.enter)
            (Semaphore.Step.sleep (omega arith) (ground arith)))
          Semaphore.Step.enter)
        (Semaphore.Step.sleep (omega arith) (ground arith)))
      (Semaphore.Step.signal_one (omega arith))

no_lost_wakeup_example : signalled.count ≤ signalled.awake
no_lost_wakeup_example = no_lost_wakeup signalled-Reach (omega arith)

-- The constructor has slept on the condition variable, with a spurious return, and has returned before
-- the callback is called.
abbrev set_up : State
set_up = record {
  thread = record { id = some 12; cb = none; name = 0; semaphore = 0 };
  held = some (Callback.user 1);
  called = [];
  runner = Runner.signalled;
  waiter = Waiter.returned;
}

set_up-Reach : Reach 12 (some (Callback.user 1)) 0 6 1 set_up
unfolding new_thread signal wait_test
set_up-Reach =
    let asleep = Reach.next Reach.begin (Step.sleep refl refl (ground arith)) in
    let again =
      Reach.next (Reach.spurious asleep refl refl) (Step.sleep refl refl (ground arith)) in
    let ready = Reach.next (Reach.next again (Step.identify refl)) (Step.take refl) in
    Reach.next (Reach.next ready (Step.announce refl)) (Step.return 0 refl refl (ground arith))

constructor-returns_ready_example :
    (set_up.thread.id ≡ some 12)
    × (set_up.thread.cb ≡ none)
    × (set_up.held ≡ some (Callback.user 1))
    × (set_up.thread.semaphore ≡ 0)
constructor-returns_ready_example = constructor-returns_ready set_up-Reach refl

handshake-completes_example :
    (6 ≤ 6 + 1) × (IsDone (some (Callback.user 1)) set_up ⊎ ((t : State) × Step 12 set_up t))
handshake-completes_example = handshake-completes set_up-Reach
