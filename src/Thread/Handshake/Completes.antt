-- ===== src/Thread/Handshake/Completes.antt =====
-- What the start of a thread comes to (src/thread/thread.cc, src/thread/thread.h).
use coroutinelib.Base.{
  ℕ, ◌+◌, ◌≤◌, ◌≡◌, refl, ap, Option, none, some, [], ◌∷◌, arith, ◌⊎◌, inl, inr, subst,
  Option-cases,
}
use coroutinelib.Callback.{Callback}
use coroutinelib.Thread.{wait_test}
use coroutinelib.Thread.Handshake.{
  Runner, Waiter, State, Step, Reach, rank, taken, is_alive, InvAt, Reach-Inv,
}

-- When the constructor of `Thread` has returned, the object holds the id of the new thread and no
-- callback any more, the new thread holds the callback, and the semaphore is at zero.
pub constructor-returns_ready :
    {tid : ℕ} {cb : Option Callback} {name n k : ℕ} {s : State}
    → Reach tid cb name n k s
    → s.waiter ≡ Waiter.returned
    → (s.thread.id ≡ some tid) × (s.thread.cb ≡ none) × (s.held ≡ cb) × (s.thread.semaphore ≡ 0)
constructor-returns_ready {tid = tid} {cb = cb} {n = n} {k = k} {s = s} r e =
    from s.runner (subst (InvAt tid cb n k s s.runner) e (Reach-Inv r))
  where
    from :
        (r : Runner)
        → InvAt tid cb n k s r Waiter.returned
        → (s.thread.id ≡ some tid) × (s.thread.cb ≡ none) × (s.held ≡ cb) × (s.thread.semaphore ≡ 0)
    from Runner.born v = absurd (omega (arith, v.units))
    from Runner.named v = absurd (omega (arith, v.units))
    from Runner.ready v = absurd (omega (arith, v.units))
    from Runner.signalled v = (v.id, v.left, v.held, omega (arith, v.units))
    from Runner.ended v = (v.id, v.left, v.held, omega (arith, v.units))
    from Runner.threw v = (v.id, v.left, v.held, omega (arith, v.units))

-- Both threads have come to their ends, and the callback was called once; or there was none, and its
-- call has ended the program.
abbrev pub IsDone : Option Callback → State → Type 0
IsDone cb s =
    ((s.runner ≡ Runner.ended)
      × (s.waiter ≡ Waiter.returned)
      × ((f : Callback) × (cb ≡ some f) × (s.called ≡ f ∷ [])))
    ⊎ ((s.runner ≡ Runner.threw) × (cb ≡ none) × (s.called ≡ []))

wait_test-passes : (n : ℕ) → n ≡ 1 → wait_test n ≡ some 0
unfolding wait_test
wait_test-passes n e = rw e refl

rank-le : (r : Runner) → rank r ≤ 4
rank-le r = ground arith

taken-le : (w : Waiter) → taken w ≤ 1
taken-le w = ground arith

-- A new `Thread` whose `pthread_create` succeeds: the constructor's wait on the condition variable and
-- `run` in the new thread do not block each other. In every order of their steps there are at most six
-- and one more for each spurious return of that wait; and until both have come to their ends, with the
-- callback called once, or the call of a null callback has ended the program, a step is possible that
-- is not such a spurious return.
pub handshake-completes :
    {tid : ℕ} {cb : Option Callback} {name n k : ℕ} {s : State}
    → Reach tid cb name n k s
    → (n ≤ 6 + k) × (IsDone cb s ⊎ ((t : State) × Step tid s t))
handshake-completes {tid = tid} {cb = cb} {n = n} {k = k} {s = s} r =
    from s.runner s.waiter refl refl (Reach-Inv r)
  where
    calls :
        s.runner ≡ Runner.signalled
        → (s.held ≡ none) ⊎ ((f : Callback) × (s.held ≡ some f))
        → (t : State) × Step tid s t
    calls e (inl h) = (_, Step.throw e h)
    calls e (inr (f, h)) = (_, Step.run f e h)

    go :
        (r : Runner) (w : Waiter)
        → s.runner ≡ r
        → s.waiter ≡ w
        → InvAt tid cb n k s r w
        → IsDone cb s ⊎ ((t : State) × Step tid s t)
    go Runner.born w e f v = inr (_, Step.identify e)
    go Runner.named w e f v = inr (_, Step.take e)
    go Runner.ready w e f v = inr (_, Step.announce e)
    go Runner.signalled w e f v = inr (calls e (Option-cases s.held))
    go Runner.threw w e f v = inl (inr (e, v.called.0, v.called.1))
    go Runner.ended Waiter.returned e f v = inl (inl (e, f, v.called))
    go Runner.ended Waiter.sleeping e f v = absurd (omega (arith, v.waits))
    go Runner.ended Waiter.testing e f v = inr (
      _,
      Step.return 0 (ap is_alive e) f
          (wait_test-passes s.thread.semaphore (omega (arith, v.units))),
    )

    from :
        (r : Runner) (w : Waiter)
        → s.runner ≡ r
        → s.waiter ≡ w
        → InvAt tid cb n k s r w
        → (n ≤ 6 + k) × (IsDone cb s ⊎ ((t : State) × Step tid s t))
    from r w e f v = (omega (arith, v.steps, v.waits, rank-le r, taken-le w), go r w e f v)
