-- ===== src/Thread/Semaphore.antt =====
-- Any number of threads that call `wait` and `signal` of a `Semaphore` (src/thread/thread.h), in any
-- order, with `notify_one` and spurious returns of the condition variable.
use coroutinelib.Base.{ℕ, ◌+◌, ◌-◌, ◌<◌, ◌≤◌, ◌≡◌, refl, none, some, ◌⊎◌, inl, inr, arith}
use coroutinelib.Thread.{wait_test, signal}

-- `awake` threads are in `wait` and about to test the count, `sleeping` ones wait on the condition
-- variable and have not been notified; `passed` counts the returns of `wait`, `signals` the calls of
-- `signal`.
pub record Waiters : Type 0 where
  pub count : ℕ
  pub awake : ℕ
  pub sleeping : ℕ
  pub passed : ℕ
  pub signals : ℕ

abbrev pub initial : ℕ → Waiters
initial count = record { count = count; awake = 0; sleeping = 0; passed = 0; signals = 0 }

pub data Step (s : Waiters) : Waiters → Type 0 where
  -- A thread calls `wait`.
  enter : Step s (record s { awake = s.awake + 1 })
  -- A thread passes the test.
  pass :
      (count : ℕ)
      → 0 < s.awake
      → wait_test s.count ≡ some count
      → Step s (record s { count = count; awake = s.awake - 1; passed = s.passed + 1 })
  -- A thread has to wait.
  sleep :
      0 < s.awake
      → wait_test s.count ≡ none
      → Step s (record s { awake = s.awake - 1; sleeping = s.sleeping + 1 })
  -- `signal`, which wakes no thread or one.
  signal_none :
      s.sleeping ≡ 0 → Step s (record s { count = signal s.count; signals = s.signals + 1 })
  signal_one :
      0 < s.sleeping
      → Step s (record s {
        count = signal s.count;
        awake = s.awake + 1;
        sleeping = s.sleeping - 1;
        signals = s.signals + 1;
      })
  -- A spurious return of the condition variable's `wait`.
  spurious : 0 < s.sleeping → Step s (record s { awake = s.awake + 1; sleeping = s.sleeping - 1 })

pub data Reach (count : ℕ) : Waiters → Type 0 where
  begin : Reach count (initial count)
  next : {s t : Waiters} → Reach count s → Step s t → Reach count t

record Inv (count : ℕ) (s : Waiters) : Type 0 where
  enough : (s.sleeping ≡ 0) ⊎ (s.count ≤ s.awake)

wait_test-some : (n m : ℕ) → wait_test n ≡ some m → n ≡ m + 1
unfolding wait_test
wait_test-some n m e = ground arith

wait_test-none : (n : ℕ) → wait_test n ≡ none → n ≡ 0
unfolding wait_test
wait_test-none n e = ground arith

Step-Inv : {count : ℕ} {s t : Waiters} → Step s t → Inv count s → Inv count t
unfolding signal
Step-Inv Step.enter v = record { enough = ground (arith, v.enough) }
Step-Inv {s = s} (Step.pass count awake e) v = record {
  enough = ground (arith, v.enough, wait_test-some s.count count e);
}
Step-Inv {s = s} (Step.sleep awake e) v = record {
  enough = inr (omega (arith, wait_test-none s.count e));
}
Step-Inv (Step.signal_none h) v = record { enough = inl h }
Step-Inv (Step.signal_one h) v = record { enough = ground (arith, v.enough) }
Step-Inv (Step.spurious h) v = record { enough = ground (arith, v.enough) }

Reach-Inv : {count : ℕ} {s : Waiters} → Reach count s → Inv count s
Reach-Inv Reach.begin = record { enough = inl refl }
Reach-Inv (Reach.next r step) = Step-Inv step (Reach-Inv r)

-- No wake-up is lost: in every reachable state in which a thread sleeps on the condition variable, there
-- is a thread for each unit of the count that is awake and about to test it.
pub no_lost_wakeup : {count : ℕ} {s : Waiters} → Reach count s → 0 < s.sleeping → s.count ≤ s.awake
no_lost_wakeup r h = ground (arith, (Reach-Inv r).enough)
