-- ===== src/Timer/Expiry/Steps.antt =====
-- A round of the loop of `listExpiredCb` (src/timer/timer.cc) takes the first expired timer off the
-- expired ones and leaves the others alone.
use coroutinelib.Timer.Expiry.Round.{
  expired, callbacks, Ends, Agrees, Agrees-set, expired-Agrees, callbacks-Agrees, Agrees-expired,
  Ends-Agrees, expired-insert, others, restarted, fired, expire_recurring, expire_once, order,
  bound,
}
use coroutinelib.Base.{
  ℕ, ◌<◌, ◌≡◌, ◌≢◌, refl, sym, subst, ◌∙◌, Bool, false, List, ◌∷◌, arith, All, length, set,
  length-set, Bool-cases, inl, inr, get_or-set_self,
}
use coroutinelib.Timer.{Timer, deref, deadline, comparator, null_timer}
use coroutinelib.Timer.OrderedSet.{insert}
use coroutinelib.Timer.OrderedSet.Order.{All-map, insert-All}
use coroutinelib.Timer.Manager.{Manager, expire_one, insert_timer}
use coroutinelib.Timer.Store.{HasPeriod, All-deref}
use coroutinelib.Timer.Manager.Valid.{IsValid, rewrite-IsValid, insert_timer-IsValid}

-- What a round does to the manager `m` whose set is `i ∷ s`, with `n` the manager after it.
pub record Step (rollover : Bool) (now : ℕ) (m : Manager) (s : List ℕ) (n : Manager) : Type 0 where
  pub valid : IsValid n
  pub ends : All (λ z. Ends rollover (deref n.store z)) n.timers
  pub left : expired rollover now n.store n.timers ≡ expired rollover now m.store s
  pub same :
      callbacks n.store (expired rollover now m.store s)
      ≡ callbacks m.store (expired rollover now m.store s)

module _ (now : ℕ) (m : Manager) (i : ℕ) (s : List ℕ) (head : m.timers ≡ i ∷ s)
    (v : IsValid m) where
  agrees : (t : Timer) → Agrees (set m.store i t) m.store s
  agrees t = Agrees-set m.store i t s (others now m i s head v)

  without : All (λ z. z ≢ i) s
  without = All-map s (λ z n e. n (sym e)) (others now m i s head v)

  put : (t : Timer) → HasPeriod t → IsValid (record m { store = set m.store i t; timers = s })
  put t p =
      rewrite-IsValid m i t s v (order now m i s head v).1 (bound now m i s head v).1 without p

  same_callbacks :
      (rollover : Bool) (t : Timer)
      → callbacks (set m.store i t) (expired rollover now m.store s)
        ≡ callbacks m.store (expired rollover now m.store s)
  same_callbacks rollover t =
      callbacks-Agrees (set m.store i t) m.store (expired rollover now m.store s)
        (Agrees-expired rollover now (set m.store i t) m.store s (agrees t))

  once-Step :
      (rollover : Bool)
      → All (λ z. Ends rollover (deref m.store z)) (i ∷ s)
      → Step rollover now m s (record m { store = set m.store i (fired m.store i); timers = s })
  once-Step rollover e = record {
    valid = put (fired m.store i) (All-deref HasPeriod m.store i (omega arith) v.periods);
    ends = Ends-Agrees rollover (set m.store i (fired m.store i)) m.store s (agrees _) e.1;
    left = expired-Agrees rollover now (set m.store i (fired m.store i)) m.store s (agrees _);
    same = same_callbacks rollover (fired m.store i);
  }

  recurring-Step :
      0 < (deref m.store i).ms
      → All (λ z. Ends false (deref m.store z)) (i ∷ s)
      → Step false now m s (record m {
        store = set m.store i (restarted now m.store i);
        timers = insert (comparator (set m.store i (restarted now m.store i))) i s;
      })
  recurring-Step period e = record {
    valid =
        let w : IsValid _ =
          insert_timer-IsValid (record m { store = other; timers = s }) i
            (omega (arith, length-set m.store i (restarted now m.store i), known))
            (put (restarted now m.store i) (omega arith)) in
        unfold insert_timer in record { sorted = w.sorted; known = w.known; periods = w.periods };
    ends =
        insert-All (λ z. Ends false (deref other z)) (comparator other) i s
          (rw itself (inr (refl, period))) (Ends-Agrees false other m.store s (agrees _) e.1);
    left =
        expired-insert (comparator other) now other i s (rw (itself, deadline) (omega arith))
        ∙ expired-Agrees false now other m.store s (agrees _);
    same = same_callbacks false (restarted now m.store i);
  }
    where
      other : List Timer
      other = set m.store i (restarted now m.store i)

      known : i < length m.store
      known = (bound now m i s head v).0

      itself : deref other i ≡ restarted now m.store i
      itself = get_or-set_self m.store i (restarted now m.store i) null_timer known

  pub expire_one-Step :
      (rollover : Bool)
      → All (λ z. Ends rollover (deref m.store z)) (i ∷ s)
      → Step rollover now m s (expire_one now m i)
  expire_one-Step rollover e = elim e.0 [
    | inl once ↦
        subst (Step rollover now m s) (sym (expire_once now m i s head v once))
          (once-Step rollover e)
    | inr (no_rollover, period) ↦ elim (Bool-cases (deref m.store i).recurring) [
      | inr once ↦
          subst (Step rollover now m s) (sym (expire_once now m i s head v once))
            (once-Step rollover e)
      | inl again ↦
          subst (λ r. Step r now m s (expire_one now m i)) (sym no_rollover)
            (subst (Step false now m s) (sym (expire_recurring now m i s head v again)) (
              recurring-Step period
                (subst (λ r. All (λ z. Ends r (deref m.store z)) (i ∷ s)) no_rollover e)))
    ]
  ]
