-- ===== src/Timer/Expiry/Pending.antt =====
-- What `listExpiredCb` (src/timer/timer.cc) does to the timers that have not expired.
use coroutinelib.Base.{
  ℕ, zero, suc, ◌≤◌, ◌<◌, ◌≡◌, ◌≢◌, refl, sym, subst, ap, Option, none, some, false, List, [], ◌∷◌,
  ◌++◌, arith, All, In, length, Bool-cases, Option-cases, inl, inr, ◌⊎◌,
}
use native.Mathlib.Decide.{dec_lt}
use coroutinelib.Callback.{Callback}
use coroutinelib.Timer.{Timer, deref, deadline}
use coroutinelib.Timer.OrderedSet.Members.{insert-keeps, erase-keeps, All-In_self}
use coroutinelib.Timer.Manager.{
  Manager, expire_one, expire_loop, list_expired_cb, next_expired, detect_clock_rollover,
}
use coroutinelib.Timer.Manager.Valid.{IsValid}
use coroutinelib.Timer.Expiry.Round.{Ends}
use coroutinelib.Timer.Expiry.{list_expired_cb-delivers}
use coroutinelib.Timer.Store.{deref-set_ne}

expire_one-keeps :
    (now : ℕ) (m : Manager) (i z : ℕ)
    → z ≢ i
    → In z m.timers
    → In z (expire_one now m i).timers × (deref (expire_one now m i).store z ≡ deref m.store z)
unfolding expire_one
expire_one-keeps now m i z n member = elim (Bool-cases (deref m.store i).recurring) [
  | inl e ↦
      rw (e, expire_one)
        (insert-keeps _ i z _ (erase-keeps i z m.timers n member), deref-set_ne m.store i z _ n)
  | inr e ↦ rw (e, expire_one) (erase-keeps i z m.timers n member, deref-set_ne m.store i z _ n)
]

next_expired-due :
    (now : ℕ) (store : List Timer) (s : List ℕ) (i : ℕ)
    → next_expired false now store s ≡ some i
    → deadline store i ≤ now
unfolding next_expired
next_expired-due now store [] i e = absurd (ground arith)
next_expired-due now store (y ∷ s) i e = ground arith

-- Timer `z` is in the set of what the loop gives, and reads as `t`.
abbrev HasTimer : ℕ → Timer → Option (Manager × List (Option Callback)) → Type 0
HasTimer z t none = Unit {0}
HasTimer z t (some (m, cbs)) = In z m.timers × (deref m.store z ≡ t)

expire_loop-HasTimer :
    (fuel now : ℕ) (m : Manager) (cbs : List (Option Callback)) (z : ℕ)
    → In z m.timers
    → now < deadline m.store z
    → HasTimer z (deref m.store z) (expire_loop fuel false now m cbs)
unfolding expire_loop
expire_loop-HasTimer zero now m cbs z member late = tt
expire_loop-HasTimer (suc fuel) now m cbs z member late =
    elim (Option-cases (next_expired false now m.store m.timers)) [
      | inl stop ↦ rw (stop, expire_loop) (member, refl)
      | inr (i, next) ↦
          let apart : z ≢ i = λ e.
            omega (
              arith,
              late,
              next_expired-due now m.store m.timers i next,
              ap (deadline m.store) e,
            ) in
          let (stays, same) = expire_one-keeps now m i z apart member in
          rw (next, expire_loop)
            (subst
              (λ (t : Timer). HasTimer z t (
                expire_loop fuel false now (expire_one now m i) (cbs ++ (deref m.store i).cb ∷ [])))
              same
              (expire_loop-HasTimer fuel now (expire_one now m i) _ z stays
                (omega (arith, late, ap (λ (t : Timer). t.next) same))))
    ]

returned-keeps :
    (fuel : ℕ) (m m' : Manager) (cbs cbs' : List (Option Callback)) (now checked : ℕ)
    → (detect_clock_rollover m checked).1 ≡ false
    → list_expired_cb fuel m cbs now checked ≡ some (m', cbs')
    → All
        (λ z. (deadline m.store z ≤ now) ⊎ (In z m'.timers × (deref m'.store z ≡ deref m.store z)))
        m.timers
unfolding list_expired_cb detect_clock_rollover
returned-keeps fuel m m' cbs cbs' now checked steady runs = All-In_self m.timers (λ z member.
    elim (dec_lt now (deadline m.store z)) [
      | yes late ↦ inr (
          subst (HasTimer z (deref m.store z)) runs (
            subst
              (λ b.
                HasTimer z (deref m.store z)
                  (expire_loop fuel b now (detect_clock_rollover m checked).0 cbs))
              (sym steady)
              (expire_loop-HasTimer fuel now (detect_clock_rollover m checked).0 cbs z member
                late)))
      | no due ↦ inl (omega arith)
    ])

-- `listExpiredCb` on a valid manager, without a clock rollover and with a period above zero for each
-- recurring timer in the set: it returns, and each timer of the set whose deadline is after `now` is
-- still in the set, with its deadline, period and callback unchanged.
pub list_expired_cb-keeps :
    (m : Manager) (cbs : List (Option Callback)) (now checked : ℕ)
    → IsValid m
    → (detect_clock_rollover m checked).1 ≡ false
    → All (λ z. Ends false (deref m.store z)) m.timers
    → (m' : Manager) × (cbs' : List (Option Callback)) × (list_expired_cb
          (suc (length m.timers))
          m
          cbs
          now
          checked
        ≡ some (m', cbs'))
      × All
          (λ z.
            (deadline m.store z ≤ now) ⊎ (In z m'.timers × (deref m'.store z ≡ deref m.store z)))
          m.timers
list_expired_cb-keeps m cbs now checked v steady ends =
    let (m', runs, valid, none_left) =
      list_expired_cb-delivers m cbs now checked v
        (subst (λ b. All (λ z. Ends b (deref m.store z)) m.timers) (sym steady) ends) in
    (m', _, runs, returned-keeps (suc (length m.timers)) m m' cbs _ now checked steady runs)
