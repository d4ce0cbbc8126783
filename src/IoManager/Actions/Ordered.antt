-- ===== src/IoManager/Actions/Ordered.antt =====
-- The manager stays in order, whatever its threads and others do (src/iomanager/ioscheduler.cc,
-- src/timer/timer.cc, src/scheduler/scheduler.cc).
use coroutinelib.Base.{
  ℕ, suc, ◌≡◌, refl, sym, subst, ap, ◌∙◌, Option, none, some, Bool, true, false, List, [], ◌++◌,
  arith, All, length, get_or, if◌then◌else◌,
}
use coroutinelib.Faults.{Result}
use coroutinelib.Callback.{Callback}
use coroutinelib.Epoll.{Epoll}
use coroutinelib.Timer.{deref}
use coroutinelib.Timer.Front
use coroutinelib.Timer.Calls.{IsKnown, call-IsValid}
use coroutinelib.Timer.Manager.{
  Manager, detect_clock_rollover, new_manager, list_expired_cb, get_next_timer,
}
use coroutinelib.Scheduler.{Scheduler}
use coroutinelib.Timer.Manager.Valid.{IsValid, new_manager-IsValid}
use coroutinelib.Timer.Expiry.{list_expired_cb-delivers}
use coroutinelib.Timer.Expiry.Round.{Ends, expired, callbacks}
use coroutinelib.IoManager.Context.{FdContext, new_context}
use coroutinelib.IoManager.Context.Consistent.{IsConsistent}
use coroutinelib.IoManager.{IoManager, tickle, schedule}
use coroutinelib.IoManager.Idle.{schedule_all}
use coroutinelib.IoManager.IdleRound.{schedule_all-rest}
use coroutinelib.IoManager.Invariant.{Inv, registered, schedule-rest}
use coroutinelib.IoManager.Kernel.{construct}
use coroutinelib.IoManager.Kernel.Agreement.{Agrees, watched}
use coroutinelib.IoManager.Kernel.Calls.{
  IsPipe, IsAllowed, call-Keeps, construct-InOrder, construct-timer,
}
use coroutinelib.IoManager.Actions.{Inner, Action, io_timer_call, expire_timers, act, perform}

-- A timer that a call names exists, and the timers in the set are such that `listExpiredCb` ends.
unfoldable pub IsMet : IoManager → Inner → Type 0
IsMet m (Inner.timer_call now c) = IsKnown m.timer c
IsMet m (Inner.expire now checked) =
    All (λ z. Ends (detect_clock_rollover m.timer checked).1 (deref m.timer.store z)) m.timer.timers
IsMet m _ = Unit {0}

-- What an inner action leaves of the manager.
pub record Kept (m : IoManager) (a : Inner) : Type 0 where
  pub io : IoManager
  pub acts : act m a ≡ some io
  pub contexts : io.contexts ≡ m.contexts
  pub pending : io.pending ≡ m.pending
  pub valid : IsValid io.timer

tickle-rest :
    (m : IoManager)
    → ((tickle m).contexts ≡ m.contexts)
      × ((tickle m).pending ≡ m.pending)
      × ((tickle m).timer ≡ m.timer)
unfolding tickle
tickle-rest m = (ground arith, ground arith, ground arith)

tickle_if-rest :
    (b : Bool) (m : IoManager)
    → ((if b then tickle m else m).contexts ≡ m.contexts)
      × ((if b then tickle m else m).pending ≡ m.pending)
      × ((if b then tickle m else m).timer ≡ m.timer)
tickle_if-rest true m = tickle-rest m
tickle_if-rest false m = (refl, refl, refl)

pub expire_timers-eq :
    (m : IoManager) (now checked : ℕ) (timer : Manager) (cbs : List (Option Callback))
    → list_expired_cb (suc (length m.timer.timers)) m.timer [] now checked ≡ some (timer, cbs)
    → expire_timers m now checked ≡ some (schedule_all (record m { timer = timer }) cbs)
unfolding expire_timers
expire_timers-eq m now checked timer cbs e = rw e refl

sched_only :
    (m : IoManager) (a : Inner) (sched : Scheduler)
    → IsValid m.timer
    → act m a ≡ some (record m { sched = sched })
    → Kept m a
sched_only m a sched v e = record {
  io = record m { sched = sched };
  acts = e;
  contexts = refl;
  pending = refl;
  valid = v;
}

pub inner-Kept : (m : IoManager) (a : Inner) → IsMet m a → IsValid m.timer → Kept m a
unfolding IsMet act io_timer_call get_next_timer
inner-Kept m (Inner.timer_call now c) known v =
    let (contexts, pending, timer) =
      tickle_if-rest (Front.call m.timer (now, c)).1
        (record m { timer = (Front.call m.timer (now, c)).0 }) in
    record {
      io = io_timer_call m now c;
      acts = refl;
      contexts = contexts;
      pending = pending;
      valid = subst IsValid (sym timer) (call-IsValid m.timer now c v known);
    }
inner-Kept m (Inner.next_timer now) met v = record {
  io = record m { timer = record (m.timer) { tickled = false } };
  acts = refl;
  contexts = refl;
  pending = refl;
  valid = record { sorted = v.sorted; known = v.known; periods = v.periods };
}
inner-Kept m (Inner.expire now checked) ends v =
    let rollover = (detect_clock_rollover m.timer checked).1 in
    let cbs = [] ++ callbacks m.timer.store (expired rollover now m.timer.store m.timer.timers) in
    let (timer, lists, valid, none_left) = list_expired_cb-delivers m.timer [] now checked v ends in
    let (contexts, pending, timers, sched) = schedule_all-rest (record m { timer = timer }) cbs in
    record {
      io = schedule_all (record m { timer = timer }) cbs;
      acts = expire_timers-eq m now checked timer cbs lists;
      contexts = contexts;
      pending = pending;
      valid = subst IsValid (sym timers) valid;
    }
inner-Kept m Inner.drain met v = record {
  io = record m { pipe = 0 };
  acts = refl;
  contexts = refl;
  pending = refl;
  valid = v;
}
inner-Kept m (Inner.post t) met v =
    let (contexts, pending, timer, sched) = schedule-rest m t in
    record {
      io = schedule m t;
      acts = refl;
      contexts = contexts;
      pending = pending;
      valid = subst IsValid (sym timer) v;
    }
inner-Kept m (Inner.take id) met v = sched_only m (Inner.take id) _ v refl
inner-Kept m Inner.finish met v = sched_only m Inner.finish _ v refl
inner-Kept m Inner.sleep met v = sched_only m Inner.sleep _ v refl
inner-Kept m Inner.wake met v = sched_only m Inner.wake _ v refl
inner-Kept m Inner.stop met v = sched_only m Inner.stop _ v refl

-- What an action needs: what the events expect, or what the timers do.
unfoldable pub IsPossible : (pipe : ℕ) → IoManager → Action → Type 0
unfolding IsAllowed IsMet
IsPossible pipe m (Action.event c) = IsAllowed (IsPipe pipe) m c
IsPossible pipe m (Action.inner a) = IsMet m a

pub Inv-same :
    (m m' : IoManager) → m'.contexts ≡ m.contexts → m'.pending ≡ m.pending → Inv m → Inv m'
Inv-same m m' contexts pending v = record {
  consistent = subst (All IsConsistent) (sym contexts) v.consistent;
  counted = pending ∙ v.counted ∙ ap registered (sym contexts);
  room = omega (arith, ap length contexts, v.room);
}

module _ (k : Epoll) (pipe : ℕ) where
  open k use {State, interest}

  -- What holds between two actions.
  pub record IsOrdered (m : IoManager) (s : State) : Type 0 where
    pub inv : Inv m
    pub agrees : Agrees k (IsPipe pipe) m s
    pub valid : IsValid m.timer

  Agrees-same :
      (m m' : IoManager) (s : State)
      → m'.contexts ≡ m.contexts
      → Agrees k (IsPipe pipe) m s
      → Agrees k (IsPipe pipe) m' s
  Agrees-same m m' s contexts agrees fd n =
      agrees fd n
      ∙ ap (λ (cs : List FdContext). watched (get_or cs fd (new_context fd)).events) (sym contexts)

  -- An action that comes to its end with everything in order.
  pub record Performs (m : IoManager) (s : State) (a : Action) : Type 0 where
    pub io : IoManager
    pub epoll : State
    pub runs : perform k m s a ≡ Result.ok (some (io, epoll))
    pub ordered : IsOrdered io epoll

  action-Performs :
      (m : IoManager) (s : State) (a : Action)
      → IsOrdered m s
      → IsPossible pipe m a
      → Performs m s a
  unfolding perform IsPossible
  action-Performs m s (Action.event c) v allowed =
      let w = call-Keeps k (IsPipe pipe) m s c v.inv v.agrees allowed in
      record {
        io = w.io;
        epoll = w.epoll;
        runs = rw w.runs refl;
        ordered = record {
          inv = w.inv;
          agrees = w.agrees;
          valid = subst IsValid (sym w.only.timer) v.valid;
        };
      }
  action-Performs m s (Action.inner a) v met =
      let w = inner-Kept m a met v.valid in
      record {
        io = w.io;
        epoll = s;
        runs = rw w.acts refl;
        ordered = record {
          inv = Inv-same m w.io w.contexts w.pending v.inv;
          agrees = Agrees-same m w.io s w.contexts v.agrees;
          valid = w.valid;
        };
      }

  -- The states that the constructor and such actions lead to.
  pub data Reach : IoManager → State → Type 0 where
    constructed :
        (previous_time : ℕ) (s : State) {m : IoManager} {s' : State}
        → ((fd : ℕ) → interest s fd ≡ none)
        → construct k (new_manager previous_time) s pipe ≡ Result.ok (m, s')
        → Reach m s'
    performed :
        {m m' : IoManager} {s s' : State} (a : Action)
        → Reach m s
        → IsPossible pipe m a
        → perform k m s a ≡ Result.ok (some (m', s'))
        → Reach m' s'

  Reached-eq :
      (q : Result (Option (IoManager × State))) (m m' : IoManager) (s s' : State)
      → IsOrdered m s
      → q ≡ Result.ok (some (m, s))
      → q ≡ Result.ok (some (m', s'))
      → IsOrdered m' s'
  Reached-eq q m m' s s' v e e' =
      subst (λ (p : IoManager × State). IsOrdered p.0 p.1) (ap pick (sym e ∙ e')) v
    where
      pick : Result (Option (IoManager × State)) → IoManager × State
      pick (Result.ok (some x)) = x
      pick _ = (m, s)

  Reach-IsOrdered : {m : IoManager} {s : State} → Reach m s → IsOrdered m s
  Reach-IsOrdered (Reach.constructed previous_time s {m} {s'} empty e) =
      let v = construct-InOrder k pipe (new_manager previous_time) s m s' empty e in
      record {
        inv = v.inv;
        agrees = v.agrees;
        valid =
            subst IsValid (sym (construct-timer k pipe (new_manager previous_time) s m s' e))
              (new_manager-IsValid previous_time);
      }
  Reach-IsOrdered (Reach.performed {m} {m'} {s} {s'} a r possible e) =
      let w = action-Performs m s a (Reach-IsOrdered r) possible in
      Reached-eq (perform k m s a) w.io m' w.epoll s' w.ordered w.runs e

  -- On any epoll instance that keeps the kernel's contract, after the constructor and any sequence of
  -- actions of threads, timers, events and `idle` in any order, each of which meets what the code
  -- expects, with any results of `epoll_ctl`: another such action comes to its end without a fault, and
  -- then the contexts are consistent, `m_pendingEventCount` counts the registered events, the instance
  -- watches each descriptor but the pipe for exactly the registered events, and the set of timers is in
  -- order.
  pub reached-Performs :
      {m : IoManager} {s : State} (a : Action) → Reach m s → IsPossible pipe m a → Performs m s a
  reached-Performs {m} {s} a r possible = action-Performs m s a (Reach-IsOrdered r) possible
