-- ===== src/Hook/Wake.antt =====
-- How a sleeping fiber gets back into the queue (src/hook/hook.cc, with src/timer/timer.cc and
-- `IOManager::idle`).
use coroutinelib.Base.{
  ℕ, suc, ◌≤◌, ◌<◌, ◌≡◌, sym, subst, ap, ◌∙◌, Option, some, false, List, [], ◌∷◌, ◌++◌, arith, All,
  In, length, ◌⊎◌, inl, inr,
}
use native.Mathlib.Decide.{dec_lt}
use coroutinelib.Callback.{Callback}
use coroutinelib.Timer.{Timer, deref, deadline}
use coroutinelib.Timer.OrderedSet.Order.{All-In}
use coroutinelib.Timer.Manager.{Manager, list_expired_cb, detect_clock_rollover}
use coroutinelib.Timer.Expiry.{list_expired_cb-delivers}
use coroutinelib.Timer.Expiry.Round.{expired, callbacks, Ends}
use coroutinelib.Timer.Expiry.Pending.{list_expired_cb-keeps}
use coroutinelib.Hook.{Local}
use coroutinelib.Hook.Sleep.{Sleeps}

-- A callback in a list, by the lists before and after it.
abbrev pub Holds : List (Option Callback) → Callback → Type 0
Holds cbs f =
    (pre : List (Option Callback)) × (post : List (Option Callback)) × (cbs ≡ pre ++ some f ∷ post)

callbacks-Holds :
    (store : List Timer) (s : List ℕ) (z : ℕ) (f : Callback)
    → In z s
    → (deref store z).cb ≡ some f
    → Holds (callbacks store s) f
callbacks-Holds store [] z f member e = absurd member
callbacks-Holds store (y ∷ s) z f (inl q) e = (
  [],
  callbacks store s,
  ap (λ o. o ∷ callbacks store s) (ap (λ k. (deref store k).cb) (sym q) ∙ e),
)
callbacks-Holds store (y ∷ s) z f (inr member) e =
    let (pre, post, eq) = callbacks-Holds store s z f member e in
    ((deref store y).cb ∷ pre, post, ap (λ cbs. (deref store y).cb ∷ cbs) eq)

expired-In :
    (now : ℕ) (store : List Timer) (s : List ℕ) (z : ℕ)
    → In z s
    → deadline store z ≤ now
    → In z (expired false now store s)
unfolding expired
expired-In now store [] z member due = absurd member
expired-In now store (y ∷ s) z (inl q) due = ground (arith, ap (deadline store) q)
expired-In now store (y ∷ s) z (inr member) due =
    ground (arith, expired-In now store s z member due)

-- A sleeping fiber of a thread whose recurring timers have a period above zero, when `listExpiredCb` is
-- called without a clock rollover: it returns. From the time on that the fiber sleeps until, the
-- callback that schedules the fiber is among those to run; before, its timer is still in the set with
-- the same deadline.
pub sleeper-wakes :
    (l : Local) (i z due now checked : ℕ) (s : Sleeps i z due l)
    → (detect_clock_rollover s.manager.timer checked).1 ≡ false
    → All (λ y. Ends false (deref s.manager.timer.store y)) s.manager.timer.timers
    → (m' : Manager) × (cbs : List (Option Callback)) × (list_expired_cb
          (suc (length s.manager.timer.timers))
          s.manager.timer
          []
          now
          checked
        ≡ some (m', cbs))
      × (((due ≤ now) × Holds cbs (Callback.schedule_fiber i))
          ⊎ ((now < due) × In z m'.timers × (deadline m'.store z ≡ due)))
sleeper-wakes l i z due now checked s steady ends =
    let m = s.manager.timer in
    elim (dec_lt now due) [
      | yes early ↦
          let (m', cbs, runs, keeps) = list_expired_cb-keeps m [] now checked s.valid steady ends in
          (
            m',
            cbs,
            runs,
            elim (All-In
                (λ y.
                  (deadline m.store y ≤ now)
                  ⊎ (In y m'.timers × (deref m'.store y ≡ deref m.store y)))
                m.timers z keeps s.member) [
                  | inl late ↦ absurd (omega (arith, s.due))
                  | inr (stays, same) ↦ inr (early, stays, ap (λ (t : Timer). t.next) same ∙ s.due)
                ],
          )
      | no late ↦
          let (m', runs, valid, none_left) =
            list_expired_cb-delivers m [] now checked s.valid
              (subst (λ b. All (λ y. Ends b (deref m.store y)) m.timers) (sym steady) ends) in
          (
            m',
            callbacks m.store (expired (detect_clock_rollover m checked).1 now m.store m.timers),
            runs,
            inl (
              omega arith,
              subst
                  (λ b.
                    Holds (callbacks m.store (expired b now m.store m.timers))
                      (Callback.schedule_fiber i))
                  (sym steady)
                  (callbacks-Holds m.store (expired false now m.store m.timers) z
                    (Callback.schedule_fiber i)
                    (expired-In now m.store m.timers z s.member (omega (arith, s.due))) s.cb),
            ),
          )
    ]
