-- ===== src/Thread/Handshake.antt =====
-- The constructor of `Thread` and the new thread's `Thread::run` (src/thread/thread.cc),
-- interleaved, with the condition variable of the semaphore that joins them (src/thread/thread.h).
pub mod Completes
use coroutinelib.Base.{
  ℕ, ◌+◌, ◌≤◌, ◌≡◌, refl, sym, ap, ◌∙◌, subst, Bool-cases, Option, none, some, Bool, true, false,
  List, [], ◌∷◌, if◌then◌else◌, arith, ◌⊎◌, inl, inr,
}
use coroutinelib.Callback.{Callback}
use coroutinelib.Thread.{Thread, new_thread, wait_test, signal}

-- Where the new thread stands in `run`: at the start, with its id set, with the callback taken, with the
-- semaphore signalled, at the end; `threw` when it has called a null function, which ends the program.
pub data Runner : Type 0 where
  born named ready signalled ended threw : Runner

-- Where the constructor stands in `wait`: about to test the count, waiting on the condition variable, or
-- past it.
pub data Waiter : Type 0 where
  testing sleeping returned : Waiter

-- The object, the local `cb` of `run` and the callbacks that were called, and where the two threads
-- stand.
pub record State : Type 0 where
  pub thread : Thread
  pub held : Option Callback
  pub called : List Callback
  pub runner : Runner
  pub waiter : Waiter

-- After `pthread_create`.
abbrev pub created : Option Callback → ℕ → State
created cb name = record {
  thread = new_thread cb name;
  held = none;
  called = [];
  runner = Runner.born;
  waiter = Waiter.testing;
}

-- `notify_one`, and a return from the wait on the condition variable.
abbrev pub notify_one : Waiter → Waiter
notify_one Waiter.testing = Waiter.testing
notify_one Waiter.sleeping = Waiter.testing
notify_one Waiter.returned = Waiter.returned

abbrev pub is_alive : Runner → Bool
is_alive Runner.threw = false
is_alive _ = true

pub data Step (tid : ℕ) (s : State) : State → Type 0 where
  -- `m_id = GetThreadID()`.
  identify :
      s.runner ≡ Runner.born
      → Step tid s
          (record s { thread = record (s.thread) { id = some tid }; runner = Runner.named })
  -- `cb.swap(m_cb)`.
  take :
      s.runner ≡ Runner.named
      → Step tid s (record s {
        thread = record (s.thread) { cb = s.held };
        held = s.thread.cb;
        runner = Runner.ready;
      })
  -- `m_semaphore.signal()`.
  announce :
      s.runner ≡ Runner.ready
      → Step tid s (record s {
        thread = record (s.thread) { semaphore = signal s.thread.semaphore };
        runner = Runner.signalled;
        waiter = notify_one s.waiter;
      })
  -- `cb()`, to its return.
  run :
      (f : Callback)
      → s.runner ≡ Runner.signalled
      → s.held ≡ some f
      → Step tid s (record s { called = f ∷ s.called; runner = Runner.ended })
  -- `cb()` of a null function.
  throw :
      s.runner ≡ Runner.signalled → s.held ≡ none → Step tid s (record s { runner = Runner.threw })
  -- The test in `wait`, in the constructor: it has to wait, or goes on.
  sleep :
      is_alive s.runner ≡ true
      → s.waiter ≡ Waiter.testing
      → wait_test s.thread.semaphore ≡ none
      → Step tid s (record s { waiter = Waiter.sleeping })
  return :
      (count : ℕ)
      → is_alive s.runner ≡ true
      → s.waiter ≡ Waiter.testing
      → wait_test s.thread.semaphore ≡ some count
      → Step tid s
          (record s { thread = record (s.thread) { semaphore = count }; waiter = Waiter.returned })

-- The states after `n` steps and `k` spurious returns from the wait on the condition variable.
pub data Reach (tid : ℕ) (cb : Option Callback) (name : ℕ) : ℕ → ℕ → State → Type 0 where
  begin : Reach tid cb name 0 0 (created cb name)
  next :
      {n k : ℕ} {s t : State}
      → Reach tid cb name n k s
      → Step tid s t
      → Reach tid cb name (n + 1) k t
  spurious :
      {n k : ℕ} {s : State}
      → Reach tid cb name n k s
      → is_alive s.runner ≡ true
      → s.waiter ≡ Waiter.sleeping
      → Reach tid cb name n (k + 1) (record s { waiter = Waiter.testing })

-- How far the runner is, and what it has done by then.
abbrev pub rank : Runner → ℕ
rank Runner.born = 0
rank Runner.named = 1
rank Runner.ready = 2
rank Runner.signalled = 3
rank Runner.ended = 4
rank Runner.threw = 4

abbrev pub has_id : Runner → Bool
has_id Runner.born = false
has_id _ = true

abbrev pub has_taken : Runner → Bool
has_taken Runner.born = false
has_taken Runner.named = false
has_taken _ = true

abbrev pub has_signalled : Runner → ℕ
has_signalled Runner.signalled = 1
has_signalled Runner.ended = 1
has_signalled Runner.threw = 1
has_signalled _ = 0

-- What has been called, and why it ended.
abbrev pub HasCalled : Runner → Option Callback → List Callback → Type 0
HasCalled Runner.ended cb called = (f : Callback) × (cb ≡ some f) × (called ≡ f ∷ [])
HasCalled Runner.threw cb called = (cb ≡ none) × (called ≡ [])
HasCalled _ cb called = called ≡ []

-- The signal that the constructor has taken, and whether it waits to be notified.
abbrev pub taken : Waiter → ℕ
taken Waiter.returned = 1
taken _ = 0

abbrev pub asleep : Waiter → ℕ
asleep Waiter.sleeping = 1
asleep _ = 0

-- The state when the runner has come to `r` and the constructor to `w`.
pub record InvAt (tid : ℕ) (cb : Option Callback) (n k : ℕ) (s : State) (r : Runner) (w : Waiter)
    : Type 0 where
  pub id : s.thread.id ≡ (if has_id r then some tid else none)
  pub left : s.thread.cb ≡ (if has_taken r then none else cb)
  pub held : s.held ≡ (if has_taken r then cb else none)
  pub units : s.thread.semaphore + taken w ≡ has_signalled r
  pub called : HasCalled r cb s.called
  pub steps : n ≤ rank r + taken w + asleep w + has_signalled r + k
  pub waits : asleep w + has_signalled r ≤ 1

abbrev pub Inv : ℕ → Option Callback → ℕ → ℕ → State → Type 0
Inv tid cb n k s = InvAt tid cb n k s s.runner s.waiter

wait_test-one : (n m : ℕ) → wait_test n ≡ some m → n ≡ m + 1
unfolding wait_test
wait_test-one n m e = ground arith

wait_test-zero : (n : ℕ) → wait_test n ≡ none → n ≡ 0
unfolding wait_test
wait_test-zero n e = ground arith

taken-notify_one : (w : Waiter) → taken (notify_one w) ≡ taken w
taken-notify_one Waiter.testing = refl
taken-notify_one Waiter.sleeping = refl
taken-notify_one Waiter.returned = refl

asleep-notify_one : (w : Waiter) → asleep (notify_one w) ≡ 0
asleep-notify_one Waiter.testing = refl
asleep-notify_one Waiter.sleeping = refl
asleep-notify_one Waiter.returned = refl

module _ {tid : ℕ} {cb : Option Callback} {n k : ℕ} {s : State} where
  at_runner : {r : Runner} → s.runner ≡ r → Inv tid cb n k s → InvAt tid cb n k s r s.waiter
  at_runner e v = subst (λ (r : Runner). InvAt tid cb n k s r s.waiter) e v

  at_waiter : {w : Waiter} → s.waiter ≡ w → Inv tid cb n k s → InvAt tid cb n k s s.runner w
  at_waiter e v = subst (InvAt tid cb n k s s.runner) e v

  Step-Inv : {t : State} → Step tid s t → Inv tid cb n k s → Inv tid cb (n + 1) k t
  unfolding signal
  Step-Inv (Step.identify e) v =
      let w = at_runner e v in
      record {
        id = refl;
        left = w.left;
        held = w.held;
        units = w.units;
        called = w.called;
        steps = omega (arith, w.steps);
        waits = w.waits;
      }
  Step-Inv (Step.take e) v =
      let w = at_runner e v in
      record {
        id = w.id;
        left = w.held;
        held = w.left;
        units = w.units;
        called = w.called;
        steps = omega (arith, w.steps);
        waits = w.waits;
      }
  Step-Inv (Step.announce e) v =
      let w = at_runner e v in
      record {
        id = w.id;
        left = w.left;
        held = w.held;
        units = omega (arith, w.units, taken-notify_one s.waiter);
        called = w.called;
        steps =
            omega (arith, w.steps, w.waits, taken-notify_one s.waiter, asleep-notify_one s.waiter);
        waits = omega (arith, asleep-notify_one s.waiter);
      }
  Step-Inv (Step.run f e h) v =
      let w = at_runner e v in
      record {
        id = w.id;
        left = w.left;
        held = w.held;
        units = w.units;
        called = (f, sym w.held ∙ h, ap (λ (fs : List Callback). f ∷ fs) w.called);
        steps = omega (arith, w.steps);
        waits = w.waits;
      }
  Step-Inv (Step.throw e h) v =
      let w = at_runner e v in
      record {
        id = w.id;
        left = w.left;
        held = w.held;
        units = w.units;
        called = (sym w.held ∙ h, w.called);
        steps = omega (arith, w.steps);
        waits = w.waits;
      }
  Step-Inv (Step.sleep alive e p) v =
      let w = at_waiter e v in
      let zero_left = wait_test-zero s.thread.semaphore p in
      record {
        id = w.id;
        left = w.left;
        held = w.held;
        units = w.units;
        called = w.called;
        steps = omega (arith, w.steps);
        waits = omega (arith, w.units, zero_left);
      }
  Step-Inv (Step.return count alive e p) v =
      let w = at_waiter e v in
      let one_more = wait_test-one s.thread.semaphore count p in
      record {
        id = w.id;
        left = w.left;
        held = w.held;
        units = omega (arith, w.units, one_more);
        called = w.called;
        steps = omega (arith, w.steps);
        waits = w.waits;
      }

  spurious-Inv :
      s.waiter ≡ Waiter.sleeping
      → Inv tid cb n k s
      → Inv tid cb n (k + 1) (record s { waiter = Waiter.testing })
  spurious-Inv e v =
      let w = at_waiter e v in
      record {
        id = w.id;
        left = w.left;
        held = w.held;
        units = w.units;
        called = w.called;
        steps = omega (arith, w.steps);
        waits = omega (arith, w.waits);
      }

pub Reach-Inv :
    {tid : ℕ} {cb : Option Callback} {name n k : ℕ} {s : State}
    → Reach tid cb name n k s
    → Inv tid cb n k s
unfolding new_thread
Reach-Inv Reach.begin = record {
  id = refl;
  left = refl;
  held = refl;
  units = refl;
  called = refl;
  steps = omega arith;
  waits = omega arith;
}
Reach-Inv (Reach.next r step) = Step-Inv step (Reach-Inv r)
Reach-Inv (Reach.spurious r alive e) = spurious-Inv e (Reach-Inv r)
