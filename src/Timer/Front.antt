-- ===== src/Timer/Front.antt =====
-- When `onTimerInsertedAtFront` runs (src/timer/timer.h, src/timer/timer.cc): `m_tickled` lets one call
-- through between two calls of `getNextTimer`.
use coroutinelib.Base.{
  ℕ, zero, suc, ◌+◌, ◌-◌, ◌≤◌, ◌≡◌, refl, Option, none, some, subst, Bool, true, false, not, ◌&&◌,
  List, [], ◌∷◌, arith, Bool-cases, Option-cases, if◌then◌else◌, inl, inr, ◌⊎◌, ◌==◌, set, ◌++◌,
  length,
}
use coroutinelib.Callback.{Callback}
use coroutinelib.Timer.{deref, comparator, new_timer, milliseconds}
use coroutinelib.Timer.OrderedSet.{find, erase, inserts_at_begin}
use coroutinelib.Timer.Manager.{
  Manager, insert_timer, add_timer, add_condition_timer, cancel, refresh, reset, reset_period,
  next_expired, expire_one, expire_loop, list_expired_cb, detect_clock_rollover,
}

-- The calls that put timers into the set, take them out of it or move them in it, from outside.
pub data Call : Type 0 where
  add : (ms : ℕ) → Option Callback → (recurring : Bool) → Call
  add_condition : (ms : ℕ) → Option Callback → (weak_cond : ℕ) → (recurring : Bool) → Call
  cancels : (timer : ℕ) → Call
  refreshes : (timer : ℕ) → Call
  resets : (timer : ℕ) → (ms : ℕ) → (from_now : Bool) → Call

-- A call at a time: the manager after it, and whether `onTimerInsertedAtFront` ran.
unfoldable pub call : Manager → ℕ × Call → Manager × Bool
call m (now, Call.add ms cb recurring) =
    let (m', i, at_front) = add_timer m ms cb recurring now in (m', at_front)
call m (now, Call.add_condition ms cb weak_cond recurring) =
    let (m', i, at_front) = add_condition_timer m ms cb weak_cond recurring now in (m', at_front)
call m (now, Call.cancels i) = ((cancel m i).0, false)
call m (now, Call.refreshes i) = ((refresh m i now).0, false)
call m (now, Call.resets i ms from_now) =
    let (m', r, at_front) = reset m i ms from_now now in (m', at_front)

-- Every public call of `Timer` and `TimerManager` but `getNextTimer`. The loop of `listExpiredCb` has a
-- bound on its rounds, and `checked` is its second reading of the clock.
pub data Request : Type 0 where
  timer_call : Call → Request
  expires : (rounds checked : ℕ) → Request
  has_timers : Request

-- A request at a time, as for `call`; `none` if the loop does not end in so many rounds.
unfoldable pub answer : Manager → ℕ × Request → Option (Manager × Bool)
unfolding call list_expired_cb
answer m (now, Request.timer_call c) = some (call m (now, c))
answer m (now, Request.expires rounds checked) = elim (list_expired_cb rounds m [] now checked) [
  | none ↦ none
  | some (m', cbs) ↦ some (m', false)
]
answer m (now, Request.has_timers) = some (m, false)

-- The number of runs of `onTimerInsertedAtFront` in a sequence of requests, up to one that does not end.
pub notified : Manager → List (ℕ × Request) → ℕ
unfolding answer
notified m [] = 0
notified m (c ∷ cs) = elim (answer m c) [
  | none ↦ 0
  | some (m', at_front) ↦ if at_front then suc (notified m' cs) else notified m' cs
]

-- A call runs the function only while the mark is clear, and sets the mark when it does.
abbrev Marks : Manager → Manager × Bool → Type 0
Marks m (m', at_front) =
    ((at_front ≡ true) × (m.tickled ≡ false) × (m'.tickled ≡ true))
    ⊎ ((at_front ≡ false) × (m'.tickled ≡ m.tickled))

insert_timer-Marks : (m : Manager) (i : ℕ) → Marks m (insert_timer m i)
unfolding insert_timer
insert_timer-Marks m i =
    elim (Bool-cases (inserts_at_begin (comparator m.store) i m.timers && not m.tickled)) [
      | inl e ↦ inl (e, ground arith, rw e)
      | inr e ↦ inr (e, rw e)
    ]

cancel-tickled : (m : Manager) (i : ℕ) → (cancel m i).0.tickled ≡ m.tickled
unfolding cancel
cancel-tickled m i = ground arith

refresh-tickled : (m : Manager) (i now : ℕ) → (refresh m i now).0.tickled ≡ m.tickled
unfolding refresh
refresh-tickled m i now = ground arith

reset-Marks :
    (m : Manager) (i ms : ℕ) (from_now : Bool) (now : ℕ)
    → Marks m ((reset m i ms from_now now).0, (reset m i ms from_now now).2)
unfolding reset
reset-Marks m i ms from_now now = elim (Bool-cases ((ms == (deref m.store i).ms) && not from_now)) [
  | inl same ↦ rw (same, reset) (inr (refl, refl))
  | inr other ↦ elim (Option-cases (deref m.store i).cb) [
    | inl e ↦ rw (other, e, reset) (inr (refl, refl))
    | inr (f, e) ↦ elim (Option-cases (find (comparator m.store) i m.timers)) [
      | inl q ↦ rw (other, e, q, reset) (inr (refl, refl))
      | inr (it, q) ↦ rw (other, e, q, reset) (reset_period-Marks it)
    ]
  ]
]
  where
    reset_period-Marks :
        (it : ℕ)
        → Marks m (reset_period (record m { timers = erase it m.timers }) i ms from_now now)
    reset_period-Marks it =
        insert_timer-Marks
          (record m {
            timers = erase it m.timers;
            store = set m.store i (record (deref m.store i) {
              ms = ms;
              next =
                  (if from_now
                    then now
                    else (deref m.store i).next - milliseconds (deref m.store i).ms)
                  + milliseconds ms;
            });
          })
          i

add_timer-Marks :
    (m : Manager) (ms : ℕ) (cb : Option Callback) (recurring : Bool) (now : ℕ)
    → Marks m ((add_timer m ms cb recurring now).0, (add_timer m ms cb recurring now).2)
unfolding add_timer
add_timer-Marks m ms cb recurring now =
    insert_timer-Marks (record m { store = m.store ++ new_timer ms cb recurring now ∷ [] })
      (length m.store)

call-Marks : (m : Manager) (c : ℕ × Call) → Marks m (call m c)
unfolding call add_condition_timer
call-Marks m (now, Call.add ms cb recurring) = add_timer-Marks m ms cb recurring now
call-Marks m (now, Call.add_condition ms cb weak_cond recurring) =
    add_timer-Marks m ms _ recurring now
call-Marks m (now, Call.cancels i) = inr (refl, cancel-tickled m i)
call-Marks m (now, Call.refreshes i) = inr (refl, refresh-tickled m i now)
call-Marks m (now, Call.resets i ms from_now) = reset-Marks m i ms from_now now

-- What the loop of `listExpiredCb` leaves has the mark of before.
abbrev HasMark : Bool → Option (Manager × List (Option Callback)) → Type 0
HasMark tickled none = Unit {0}
HasMark tickled (some (m, cbs)) = m.tickled ≡ tickled

expire_one-tickled : (now : ℕ) (m : Manager) (i : ℕ) → (expire_one now m i).tickled ≡ m.tickled
unfolding expire_one
expire_one-tickled now m i = ground arith

expire_loop-HasMark :
    (fuel : ℕ) (rollover : Bool) (now : ℕ) (m : Manager) (cbs : List (Option Callback))
    → HasMark m.tickled (expire_loop fuel rollover now m cbs)
unfolding expire_loop
expire_loop-HasMark zero rollover now m cbs = tt
expire_loop-HasMark (suc fuel) rollover now m cbs =
    from (next_expired rollover now m.store m.timers) (λ i.
      subst
        (λ b.
          HasMark b
            (expire_loop fuel rollover now (expire_one now m i) (cbs ++ (deref m.store i).cb ∷ [])))
        (expire_one-tickled now m i)
        (expire_loop-HasMark fuel rollover now (expire_one now m i)
          (cbs ++ (deref m.store i).cb ∷ [])))
  where
    from :
        (r : Option ℕ)
        → ((i : ℕ)
            → HasMark m.tickled (
                expire_loop fuel rollover now
                  (expire_one now m i)
                  (cbs ++ (deref m.store i).cb ∷ [])))
        → HasMark m.tickled (elim r [
          | none ↦ some (m, cbs)
          | some i ↦
              expire_loop fuel rollover now (expire_one now m i) (cbs ++ (deref m.store i).cb ∷ [])
        ])
    from none h = refl
    from (some i) h = h i

-- The same of an answer, if there is one.
abbrev Answers : Manager → Option (Manager × Bool) → Type 0
Answers m none = Unit {0}
Answers m (some r) = Marks m r

answer-Answers : (m : Manager) (c : ℕ × Request) → Answers m (answer m c)
unfolding answer list_expired_cb detect_clock_rollover
answer-Answers m (now, Request.timer_call c) = call-Marks m (now, c)
answer-Answers m (now, Request.has_timers) = inr (refl, refl)
answer-Answers m (now, Request.expires rounds checked) =
    let (m1, rollover) = detect_clock_rollover m checked in
    from (expire_loop rounds rollover now m1 []) (expire_loop-HasMark rounds rollover now m1 [])
  where
    from :
        (r : Option (Manager × List (Option Callback)))
        → HasMark m.tickled r
        → Answers m (elim r [ none ↦ none | some (m', cbs) ↦ some (m', false) ])
    from none h = tt
    from (some (m', cbs)) h = inr (refl, h)

notified_after :
    (m : Manager) (cs : List (ℕ × Request)) (r : Option (Manager × Bool))
    → Answers m r
    → ((m' : Manager) → notified m' cs + (if m'.tickled then 1 else 0) ≤ 1)
    → (elim r [
      | none ↦ 0
      | some (m', at_front) ↦ if at_front then suc (notified m' cs) else notified m' cs
    ])
        + (if m.tickled then 1 else 0)
      ≤ 1
notified_after m cs none h later = ground arith
notified_after m cs (some (m', at_front)) h later = ground (arith, h, later m')

-- Whatever calls of timers and their manager are made between two calls of `getNextTimer`, in any order,
-- `listExpiredCb` included, at most one of them runs `onTimerInsertedAtFront`, and none does if one ran
-- before.
pub notified_once :
    (m : Manager) (cs : List (ℕ × Request)) → notified m cs + (if m.tickled then 1 else 0) ≤ 1
unfolding notified
notified_once m [] = ground arith
notified_once m (c ∷ cs) =
    notified_after m cs (answer m c) (answer-Answers m c) (λ m'. notified_once m' cs)
