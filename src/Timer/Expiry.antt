-- ===== src/Timer/Expiry.antt =====
-- `TimerManager::listExpiredCb` (src/timer/timer.cc): what it collects, what it leaves, and when its
-- loop ends.
pub mod Round
pub mod Steps
pub mod Pending
use Round.{
  expired, callbacks, Ends, Agrees, Agrees-set, expired-Agrees, callbacks-Agrees, Agrees-expired,
  Ends-Agrees, expired-insert, others, restarted, fired, expire_recurring, expire_once, order,
  bound,
}
use Steps.{Step, expire_one-Step}
use mathlib.Core.List.{append_assoc, append-nil}
use coroutinelib.Base.{
  ℕ, zero, suc, ◌+◌, ◌*◌, ◌<◌, ◌≤◌, ◌≡◌, ◌≢◌, refl, sym, subst, ap, ◌∙◌, Option, none, some, Bool,
  true, false, not, ◌&&◌, ◌||◌, List, [], ◌∷◌, ◌++◌, arith, All, length, set, length-set,
  Bool-cases, leb, map, Option-cases, if◌then◌else◌, inl, inr, ◌⊎◌, get_or-set_self,
}
use coroutinelib.Callback.{Callback}
use coroutinelib.Timer.{Timer, milliseconds, deref, deadline, comparator, null_timer}
use coroutinelib.Timer.OrderedSet.{insert, erase}
use coroutinelib.Timer.OrderedSet.Order.{IsSorted, All-ne_head, All-map, insert-All}
use coroutinelib.Timer.Manager.{
  Manager, expire_one, expire_loop, list_expired_cb, next_expired, detect_clock_rollover,
  insert_timer,
}
use coroutinelib.Timer.Store.{HasPeriod, All-deref}
use coroutinelib.Timer.Manager.Valid.{IsValid, rewrite-IsValid, insert_timer-IsValid}

-- Past the head nothing has expired, since the set is ordered by deadline.
expired-after :
    (now : ℕ) (store : List Timer) (b : ℕ) (s : List ℕ)
    → now < b
    → All (λ z. b < deadline store z) s
    → expired false now store s ≡ []
unfolding expired
expired-after now store b [] h l = refl
expired-after now store b (z ∷ s) h l = ground (arith, expired-after now store b s h l.1)

-- The loop stops exactly when no timer of the set has expired.
expired-stop :
    (rollover : Bool) (now : ℕ) (store : List Timer) (s : List ℕ)
    → IsSorted (deadline store) s
    → next_expired rollover now store s ≡ none
    → expired rollover now store s ≡ []
unfolding expired next_expired
expired-stop rollover now store [] o e = refl
expired-stop true now store (i ∷ s) o e = cc
expired-stop false now store (i ∷ s) o e =
    ground (arith, expired-after now store (deadline store i) s (ground arith) o.0)

next_expired-head :
    (rollover : Bool) (now : ℕ) (store : List Timer) (s : List ℕ) (i : ℕ)
    → next_expired rollover now store s ≡ some i
    → (rest : List ℕ) × (s ≡ i ∷ rest)
      × (expired rollover now store s ≡ i ∷ expired rollover now store rest)
unfolding expired next_expired
next_expired-head rollover now store [] i e = cc
next_expired-head rollover now store (z ∷ s) i e = (s, ground arith, ground arith)

-- What the loop delivers: the callbacks of all expired timers, earliest deadline first, and a valid
-- manager with no expired timer left.
abbrev pub Delivers :
    Bool → ℕ → Manager → List (Option Callback) → Manager × List (Option Callback) → Type 0
Delivers rollover now m cbs (m', cbs') =
    (cbs' ≡ cbs ++ callbacks m.store (expired rollover now m.store m.timers))
    × IsValid m'
    × (expired rollover now m'.store m'.timers ≡ [])

length-expired-le :
    (rollover : Bool) (now : ℕ) (store : List Timer) (s : List ℕ)
    → length (expired rollover now store s) ≤ length s
unfolding expired
length-expired-le rollover now store [] = omega arith
length-expired-le rollover now store (i ∷ s) =
    ground (arith, length-expired-le rollover now store s)

module _ (rollover : Bool) (now : ℕ) where
  -- The list of callbacks at the end, from that of the rest of the loop.
  deliver-cons :
      (m : Manager) (i : ℕ) (s : List ℕ) (n : Manager) (cbs : List (Option Callback))
      → expired rollover now m.store m.timers ≡ i ∷ expired rollover now m.store s
      → Step rollover now m s n
      → (cbs ++ (deref m.store i).cb ∷ [])
          ++ callbacks n.store (expired rollover now n.store n.timers)
        ≡ cbs ++ callbacks m.store (expired rollover now m.store m.timers)
  deliver-cons m i s n cbs e st =
      rw (e, st.left, st.same)
        (append_assoc cbs ((deref m.store i).cb ∷ [])
          (callbacks m.store (expired rollover now m.store s)))

  expire_loop-Delivers :
      (fuel : ℕ) (m : Manager) (cbs : List (Option Callback))
      → IsValid m
      → All (λ z. Ends rollover (deref m.store z)) m.timers
      → length (expired rollover now m.store m.timers) < fuel
      → (r : Manager × List (Option Callback)) × (expire_loop fuel rollover now m cbs ≡ some r)
        × Delivers rollover now m cbs r
  unfolding expire_loop
  expire_loop-Delivers zero m cbs v e h = absurd (omega arith)
  expire_loop-Delivers (suc fuel) m cbs v e h =
      elim (Option-cases (next_expired rollover now m.store m.timers)) [
        | inl stop ↦
            let empty = expired-stop rollover now m.store m.timers v.sorted stop in
            ((m, cbs), rw (stop, expire_loop), (rw empty (sym (append-nil cbs)), v, empty))
        | inr (i, next) ↦
            let (s, head, first) = next_expired-head rollover now m.store m.timers i next in
            let st : Step rollover now m s (expire_one now m i) =
              expire_one-Step now m i s head v rollover
                (subst (All (λ z. Ends rollover (deref m.store z))) head e) in
            let (r, runs, delivers) =
              expire_loop-Delivers fuel (expire_one now m i) (cbs ++ (deref m.store i).cb ∷ [])
                st.valid st.ends (omega (arith, ap length first, ap length st.left)) in
            (
              r,
              rw (next, expire_loop) runs,
              (
                delivers.0 ∙ deliver-cons m i s (expire_one now m i) cbs first st,
                delivers.1,
                delivers.2,
              ),
            )
      ]

-- `listExpiredCb` on a valid manager whose timers in the set are one-shot or, without a clock rollover,
-- have a period above zero: one round for each timer and one more are enough. It appends the callbacks
-- of exactly the timers whose deadline is not after `now` (after a rollover, of all timers), earliest
-- deadline first, and leaves a valid manager in whose set no timer has expired.
pub list_expired_cb-delivers :
    (m : Manager) (cbs : List (Option Callback)) (now checked : ℕ)
    → IsValid m
    → All (λ z. Ends (detect_clock_rollover m checked).1 (deref m.store z)) m.timers
    → let rollover = (detect_clock_rollover m checked).1 in
      (m' : Manager) × (list_expired_cb (suc (length m.timers)) m cbs now checked
        ≡ some (m', cbs ++ callbacks m.store (expired rollover now m.store m.timers)))
      × IsValid m'
      × (expired rollover now m'.store m'.timers ≡ [])
unfolding list_expired_cb
list_expired_cb-delivers m cbs now checked v e =
    let rollover = (detect_clock_rollover m checked).1 in
    let ((m', cbs'), runs, (same, valid, none_left)) =
      expire_loop-Delivers rollover now (suc (length m.timers))
        (record m { previous_time = checked }) cbs
        (record { sorted = v.sorted; known = v.known; periods = v.periods }) e
        (omega (arith, length-expired-le rollover now m.store m.timers)) in
    (m', runs ∙ ap (λ c. some (m', c)) same, valid, none_left)
