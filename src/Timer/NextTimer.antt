-- ===== src/Timer/NextTimer.antt =====
-- `TimerManager::getNextTimer` (src/timer/timer.cc): the time that `epoll_wait` may sleep.
use coroutinelib.Base.{
  ℕ, ◌+◌, ◌-◌, ◌*◌, ◌<◌, ◌≤◌, ◌≡◌, refl, sym, subst, false, List, [], ◌∷◌, arith, All, In, inl, inr,
  ◌⊎◌,
}
use coroutinelib.Timer.{deadline}
use coroutinelib.Timer.OrderedSet.Order.{IsSorted, All-map}
use coroutinelib.Timer.Manager.{Manager, next_timeout, get_next_timer, no_timer}
use coroutinelib.Timer.Manager.Valid.{IsValid}

-- `r` is what is left until the earliest deadline, in whole milliseconds; the largest 64-bit number for
-- no timer.
abbrev pub IsTimeout : Manager → ℕ → ℕ → Type 0
IsTimeout m now r =
    ((m.timers ≡ []) × (r ≡ no_timer))
    ⊎ ((i : ℕ) × In i m.timers
        × All (λ z. deadline m.store i ≤ deadline m.store z) m.timers
        × (r * 1000000 ≤ deadline m.store i - now)
        × (deadline m.store i - now < (r + 1) * 1000000))

head-least :
    (key : ℕ → ℕ) (i : ℕ) (s : List ℕ) → IsSorted key (i ∷ s) → All (λ z. key i ≤ key z) (i ∷ s)
head-least key i s o = (omega arith, All-map s (λ z l. omega arith) o.0)

earliest-IsTimeout :
    (m : Manager) (now : ℕ) (s : List ℕ)
    → m.timers ≡ s
    → IsSorted (deadline m.store) s
    → IsTimeout m now (next_timeout m.store s now)
unfolding next_timeout
earliest-IsTimeout m now [] e o = inl (e, refl)
earliest-IsTimeout m now (i ∷ s) e o = inr (
  i,
  subst (In i) (sym e) (inl refl),
  subst (All (λ z. deadline m.store i ≤ deadline m.store z)) (sym e)
      (head-least (deadline m.store) i s o),
  ground arith,
  ground arith,
)

-- `getNextTimer` on a valid manager gives the time to the earliest deadline of the set in whole
-- milliseconds, rounded down (0 if it has passed), or `~0` if the set is empty, and
-- clears the mark that a new earliest timer was announced.
pub get_next_timer-IsTimeout :
    (m : Manager) (now : ℕ)
    → IsValid m
    → IsTimeout m now (get_next_timer m now).1 × ((get_next_timer m now).0.tickled ≡ false)
unfolding get_next_timer
get_next_timer-IsTimeout m now v = (earliest-IsTimeout m now m.timers refl v.sorted, refl)
