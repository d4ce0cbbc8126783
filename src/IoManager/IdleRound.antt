-- ===== src/IoManager/IdleRound.antt =====
-- A whole round of `idle` (src/iomanager/ioscheduler.cc): the wait, the expired timers and the ready
-- events.
use coroutinelib.Base.{
  ℕ, suc, ◌+◌, ◌≡◌, refl, sym, subst, ap, ◌∙◌, Option, none, some, false, List, [], ◌∷◌, arith, All,
  length, get_or,
}
use coroutinelib.Faults.{Result}
use coroutinelib.Callback.{Callback}
use coroutinelib.Timer.{deref}
use coroutinelib.Timer.Manager.{Manager, detect_clock_rollover}
use coroutinelib.Timer.Manager.Valid.{IsValid}
use coroutinelib.Timer.Expiry.{list_expired_cb-delivers}
use coroutinelib.Timer.Expiry.Round.{expired, callbacks, Ends}
use coroutinelib.Scheduler.{Scheduler, schedule_lock, cb_task}
use coroutinelib.IoManager.Context.Consistent.{IsConsistent}
use coroutinelib.IoManager.Context.{FdContext, new_context}
use coroutinelib.IoManager.{IoManager, context_at, schedule, stopping}
use coroutinelib.IoManager.Idle.{
  Ready, Poll, Round, schedule_all, wait_events, handle_all, idle_round,
}
use coroutinelib.IoManager.Invariant.{registered, Inv, schedule-rest}
use coroutinelib.IoManager.Reports.{Avoids, AreReports, IsCleared, schedule_reports, triggered}
use coroutinelib.IoManager.Reports.Same.{
  SameFor, AreReports-same, triggered-same, schedule_reports-same, IsCleared-same,
}
use coroutinelib.IoManager.Reports.Handling.{handle_all-delivers}

-- `epoll_wait` is interrupted at the times given, and then returns.
abbrev pub after_interrupts : List ℕ → ℕ → List Ready → List (ℕ × Poll)
after_interrupts [] t rs = (t, Poll.returned rs) ∷ []
after_interrupts (u ∷ us) t rs = (u, Poll.interrupted) ∷ after_interrupts us t rs

-- The manager after `getNextTimer`.
abbrev quiet : IoManager → IoManager
quiet m = record m { timer = record (m.timer) { tickled = false } }

wait_events-returns :
    (m : IoManager) (us : List ℕ) (t : ℕ) (rs : List Ready)
    → wait_events m (after_interrupts us t rs) ≡ some (quiet m, rs)
unfolding wait_events
wait_events-returns m [] t rs = refl
wait_events-returns m (u ∷ us) t rs = wait_events-returns (quiet m) us t rs

-- `scheduleLock` of each callback.
abbrev pub schedule_callbacks : List (Option Callback) → Scheduler → Scheduler
schedule_callbacks [] s = s
schedule_callbacks (cb ∷ cbs) s = schedule_callbacks cbs (schedule_lock s (cb_task cb none)).0

pub schedule_all-rest :
    (m : IoManager) (cbs : List (Option Callback))
    → ((schedule_all m cbs).contexts ≡ m.contexts)
      × ((schedule_all m cbs).pending ≡ m.pending)
      × ((schedule_all m cbs).timer ≡ m.timer)
      × ((schedule_all m cbs).sched ≡ schedule_callbacks cbs m.sched)
unfolding schedule_all
schedule_all-rest m [] = (refl, refl, refl, refl)
schedule_all-rest m (cb ∷ cbs) =
    let (a, b, c, d) = schedule-rest m (cb_task cb none) in
    let (e, f, g, h) = schedule_all-rest (schedule m (cb_task cb none)) cbs in
    (e ∙ a, f ∙ b, g ∙ c, h ∙ ap (schedule_callbacks cbs) d)

same_contexts :
    (m m1 : IoManager) (rs : List Ready) → m1.contexts ≡ m.contexts → All (SameFor m m1) rs
same_contexts m m1 [] e = tt
same_contexts m m1 (Ready.pipe ∷ rs) e = (tt, same_contexts m m1 rs e)
same_contexts m m1 (Ready.descriptor fd mask trouble fails ∷ rs) e =
    (ap (λ (cs : List FdContext). get_or cs fd (new_context fd)) e, same_contexts m m1 rs e)

-- What a round that yields has done: `due` are the expired timers' callbacks.
pub record Rounded (m : IoManager) (due : List (Option Callback)) (rs : List Ready) (m' : IoManager)
    : Type 0 where
  pub inv : Inv m'
  pub valid : IsValid m'.timer
  pub count : registered m'.contexts + triggered m rs ≡ registered m.contexts
  pub kept : (fd : ℕ) → All (Avoids fd) rs → context_at m' fd ≡ context_at m fd
  pub cleared : All (IsCleared m m') rs
  pub sched : m'.sched ≡ schedule_reports m rs (schedule_callbacks due m.sched)

-- From the expired timers on.
round_end :
    (m : IoManager) (timer : Manager) (due : List (Option Callback)) (rs : List Ready)
    → Inv m
    → IsValid timer
    → AreReports m rs
    → (m' : IoManager) × (handle_all (schedule_all (record (quiet m) { timer = timer }) due) rs
        ≡ Result.ok m')
      × Rounded m due rs m'
round_end m timer due rs v w reports =
    let m1 = record (quiet m) { timer = timer } in
    let (contexts, pending, timers, sched) = schedule_all-rest m1 due in
    let m2 = schedule_all m1 due in
    let same = same_contexts m m2 rs contexts in
    let inv2 : Inv m2 = record {
      consistent = subst (All IsConsistent) (sym contexts) v.consistent;
      counted = pending ∙ v.counted ∙ ap registered (sym contexts);
      room = omega (arith, ap length contexts, v.room);
    } in
    let (m', runs, q) =
      handle_all-delivers m2 rs inv2 (AreReports-same m m2 rs (ap length contexts) same reports) in
    (
      m',
      runs,
      record {
        inv = q.inv;
        valid = subst IsValid (sym (q.timer ∙ timers)) w;
        count = omega (arith, q.count, triggered-same m m2 rs same, ap registered contexts);
        kept = λ fd a.
            q.kept fd a ∙ ap (λ (cs : List FdContext). get_or cs fd (new_context fd)) contexts;
        cleared = IsCleared-same m m2 m' rs same q.cleared;
        sched =
            q.sched
            ∙ schedule_reports-same m m2 rs m2.sched same
            ∙ ap (schedule_reports m rs) sched;
      },
    )

-- A round of `idle` that does not find the manager stopping, whose `epoll_wait` may be interrupted and
-- then reports known descriptors, none twice, with no more flags than are registered, and whose timers
-- in the set are one-shot or, without a clock rollover, have a period above zero: it comes to its
-- `yield` with the manager in order and its timers valid. It has scheduled the callback of each expired
-- timer, earliest deadline first, and then, report by report, the callbacks and fibers of the reported
-- events (all registered ones of the descriptor for an error), which are no longer registered; a report
-- whose `epoll_ctl` fails schedules nothing and leaves its events registered. Nothing else of the events
-- of a reported descriptor, and nothing of the contexts of the others, has changed.
pub idle_round-delivers :
    (m : IoManager) (us : List ℕ) (rs : List Ready) (stop_now waited now checked : ℕ)
    → Inv m
    → IsValid m.timer
    → (stopping m stop_now).1 ≡ false
    → All
        (λ z. Ends (detect_clock_rollover m.timer checked).1 (deref m.timer.store z))
        m.timer.timers
    → AreReports m rs
    → let rollover = (detect_clock_rollover m.timer checked).1 in
      let due = callbacks m.timer.store (expired rollover now m.timer.store m.timer.timers) in
      (m' : IoManager) × (idle_round
          (suc (length m.timer.timers))
          m
          stop_now
          (after_interrupts us waited rs)
          now
          checked
        ≡ Result.ok (Round.yielded m'))
      × Rounded m due rs m'
unfolding idle_round detect_clock_rollover
idle_round-delivers m us rs stop_now waited now checked v w going ends reports =
    let (timer, lists, valid, none_left) =
      list_expired_cb-delivers (record (m.timer) { tickled = false }) [] now checked
        (record { sorted = w.sorted; known = w.known; periods = w.periods }) ends in
    let (m', runs, r) = round_end m timer _ rs v valid reports in
    (m', rw (going, wait_events-returns (quiet m) us waited rs, lists, runs, idle_round), r)
