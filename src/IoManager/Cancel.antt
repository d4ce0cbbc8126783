-- ===== src/IoManager/Cancel.antt =====
-- `cancelEvent` of a registered event (src/iomanager/ioscheduler.cc).
use coroutinelib.Base.{ℕ, ◌<◌, ◌≡◌, ◌∙◌, true, false, arith, length}
use coroutinelib.Faults.{Result}
use coroutinelib.Scheduler.{schedule_lock}
use coroutinelib.IoManager.Event.{Event, not_and, has, IsSingle}
use coroutinelib.IoManager.Context.Consistent.{task_of, context_of}
use coroutinelib.IoManager.{IoManager, context_at, count_down}
use coroutinelib.IoManager.Events.{cancel_event, trigger}
use coroutinelib.IoManager.Removal.{
  Removed, not_and-registered, counted-down, registered-bound, ltb-true,
}
use coroutinelib.IoManager.Invariant.{registered, Inv, trigger-TriggeredAt}

module _ (m : IoManager) (fd : ℕ) (event : Event) (known : fd < length m.contexts)
    (single : IsSingle event) (v : Inv m) where
  cancel_event-eq :
      (m' : IoManager)
      → not_and (context_at m fd).events event ≡ false
      → trigger (record m { pending = count_down m.pending }) fd event ≡ Result.ok m'
      → cancel_event m fd event false ≡ Result.ok (m', true)
  unfolding cancel_event
  cancel_event-eq m' h e = rw (ltb-true fd (length m.contexts) known, h, e, cancel_event)

  -- `cancelEvent` of a registered event, with `epoll_ctl` succeeding: it returns true, the event is
  -- gone, its callback or fiber is given to `scheduleLock` once, no other descriptor's context
  -- changes, and the manager stays in order with one event less.
  pub cancel_event-registered :
      has (context_at m fd).events event ≡ true
      → (m' : IoManager) × (cancel_event m fd event false ≡ Result.ok (m', true))
        × Removed m fd event m'
        × (m'.sched ≡ (schedule_lock m.sched (task_of (context_of (context_at m fd) event))).0)
  cancel_event-registered h =
      let (m', runs, t) =
        trigger-TriggeredAt (record m { pending = count_down m.pending }) fd event known single
          v.consistent h in
      (
        m',
        cancel_event-eq m' (not_and-registered (context_at m fd).events event single h) runs,
        record {
          inv = record {
            consistent = t.consistent;
            counted =
                t.pending
                ∙ counted-down m.pending (registered m.contexts) (registered m'.contexts) v.counted
                    t.one_less (registered-bound m v);
            room = omega (arith, t.size, v.room);
          };
          one_less = t.one_less;
          context = t.context;
          only = record { contexts = t.only.contexts; timer = t.only.timer };
        },
        t.sched,
      )
