-- ===== src/Timer/Endless.antt =====
-- When the loop of `listExpiredCb` (src/timer/timer.cc) never ends.
use coroutinelib.Base.{
  ℕ, zero, suc, ◌+◌, ◌<◌, ◌≤◌, ◌≡◌, ◌≢◌, refl, sym, subst, Option, none, some, Bool, true, List, [],
  ◌∷◌, ◌++◌, arith, All, length, set, length-set, inl, inr, ◌⊎◌, get_or-set_self, get_or-set_ne,
}
use coroutinelib.Callback.{Callback}
use coroutinelib.Timer.{Timer, milliseconds, deref, comparator, null_timer}
use coroutinelib.Timer.OrderedSet.{insert, erase}
use coroutinelib.Timer.OrderedSet.Order.{insert-All, erase-All}
use coroutinelib.Timer.Manager.{
  Manager, expire_one, expire_loop, list_expired_cb, next_expired, detect_clock_rollover,
}
use native.Mathlib.Decide.{ℕ_discrete}

-- Timers that the loop can never get rid of: all of them recur, and after a rollover, or with a period
-- of zero and a deadline that has passed, each comes back as expired as it was.
abbrev pub Restarts : Bool → ℕ → Timer → Type 0
Restarts rollover now t = (t.recurring ≡ true) × ((rollover ≡ true) ⊎ ((t.ms ≡ 0) × (t.next ≤ now)))

-- A set of such timers that exist, and is not empty.
pub record IsStuck (rollover : Bool) (now : ℕ) (m : Manager) : Type 0 where
  pub some_timer : m.timers ≢ []
  pub known : All (λ z. z < length m.store) m.timers
  pub restart : All (λ z. Restarts rollover now (deref m.store z)) m.timers

insert-ne_nil : (lt : ℕ → ℕ → Bool) (i : ℕ) (s : List ℕ) → insert lt i s ≢ []
unfolding insert
insert-ne_nil lt i [] e = cc
insert-ne_nil lt i (y ∷ s) e = ground arith

abbrev again_at : ℕ → List Timer → ℕ → Timer
again_at now store i = record (deref store i) { next = now + milliseconds (deref store i).ms }

module _ (rollover : Bool) (now : ℕ) where
  expire_again :
      (m : Manager) (i : ℕ)
      → (deref m.store i).recurring ≡ true
      → expire_one now m i ≡ record m {
        store = set m.store i (again_at now m.store i);
        timers = insert (comparator (set m.store i (again_at now m.store i))) i (erase i m.timers);
      }
  unfolding expire_one
  expire_again m i e = rw (e, expire_one)

  Restarts-set :
      (store : List Timer) (i : ℕ) (t : Timer) (s : List ℕ)
      → i < length store
      → Restarts rollover now t
      → All (λ z. Restarts rollover now (deref store z)) s
      → All (λ z. Restarts rollover now (deref (set store i t) z)) s
  Restarts-set store i t [] h p r = tt
  Restarts-set store i t (z ∷ s) h p r = elim (ℕ_discrete i z) [
    | yes e ↦ (
      subst (λ k. Restarts rollover now (deref (set store i t) k)) e
          (rw (get_or-set_self store i t null_timer h) p),
      Restarts-set store i t s h p r.1,
    )
    | no n ↦ (rw (get_or-set_ne store i z t null_timer n) r.0, Restarts-set store i t s h p r.1)
  ]

  stuck-head :
      (store : List Timer) (s : List ℕ)
      → s ≢ []
      → All (λ z. Restarts rollover now (deref store z)) s
      → (i : ℕ) × (rest : List ℕ) × (s ≡ i ∷ rest) × (next_expired rollover now store s ≡ some i)
  unfolding next_expired
  stuck-head store [] h r = absurd (h refl)
  stuck-head store (i ∷ s) h r = (i, s, refl, ground (arith, r.0))

  expire_one-IsStuck :
      (m : Manager) (i : ℕ) (s : List ℕ)
      → m.timers ≡ i ∷ s
      → IsStuck rollover now m
      → IsStuck rollover now (expire_one now m i)
  expire_one-IsStuck m i s head st =
      subst (IsStuck rollover now) (sym (expire_again m i r.0)) (record {
        some_timer = insert-ne_nil (comparator again) i (erase i m.timers);
        known =
            insert-All (λ z. z < length again) (comparator again) i (erase i m.timers)
              (rw size exists) (rw size (erase-All (λ z. z < length m.store) i m.timers st.known));
        restart =
            insert-All (λ z. Restarts rollover now (deref again z)) (comparator again) i
              (erase i m.timers) (rw (get_or-set_self m.store i t null_timer exists) next)
              (Restarts-set m.store i t (erase i m.timers) exists next
                (erase-All (λ z. Restarts rollover now (deref m.store z)) i m.timers st.restart));
      })
    where
      t : Timer
      t = again_at now m.store i

      again : List Timer
      again = set m.store i t

      size : length again ≡ length m.store
      size = length-set m.store i t

      r : Restarts rollover now (deref m.store i)
      r = (subst (All (λ z. Restarts rollover now (deref m.store z))) head st.restart).0

      exists : i < length m.store
      exists = (subst (All (λ z. z < length m.store)) head st.known).0

      next : Restarts rollover now t
      next = (r.0, elim r.1 [ inl e ↦ inl e | inr p ↦ inr (p.0, omega (arith, p.0)) ])

  expire_loop-endless :
      (fuel : ℕ) (m : Manager) (cbs : List (Option Callback))
      → IsStuck rollover now m
      → expire_loop fuel rollover now m cbs ≡ none
  unfolding expire_loop
  expire_loop-endless zero m cbs st = refl
  expire_loop-endless (suc fuel) m cbs st =
      let (i, s, head, next) = stuck-head m.store m.timers st.some_timer st.restart in
      rw (next, expire_loop)
        (expire_loop-endless fuel (expire_one now m i) (cbs ++ (deref m.store i).cb ∷ [])
          (expire_one-IsStuck m i s head st))

-- `listExpiredCb` never returns, whatever the number of rounds allowed, if the set is not empty, all
-- its timers exist and recur, and either the clock has rolled over or all have a period of zero and
-- a deadline that has passed.
pub list_expired_cb-endless :
    (fuel : ℕ) (m : Manager) (cbs : List (Option Callback)) (now checked : ℕ)
    → IsStuck (detect_clock_rollover m checked).1 now m
    → list_expired_cb fuel m cbs now checked ≡ none
unfolding list_expired_cb
list_expired_cb-endless fuel m cbs now checked st =
    expire_loop-endless (detect_clock_rollover m checked).1 now fuel
      (record m { previous_time = checked }) cbs
      (record { some_timer = st.some_timer; known = st.known; restart = st.restart })
