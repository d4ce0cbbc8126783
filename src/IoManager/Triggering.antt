-- ===== src/IoManager/Triggering.antt =====
-- `if (...) { triggerEvent(event); --m_pendingEventCount; }` as one step (src/iomanager/ioscheduler.cc).
use coroutinelib.Base.{ℕ, ◌+◌, ◌<◌, ◌≡◌, ◌≢◌, refl, Bool, true, false, arith, length, if◌then◌else◌}
use coroutinelib.Faults.{Result}
use coroutinelib.Scheduler.{schedule_lock}
use coroutinelib.IoManager.Event.{Event, without, has, IsSingle}
use coroutinelib.IoManager.Context.Consistent.{task_of, context_of}
use coroutinelib.IoManager.{IoManager, context_at, count_down}
use coroutinelib.IoManager.Events.{trigger, trigger_if}
use coroutinelib.IoManager.Removal.{trigger_count}
use coroutinelib.IoManager.Invariant.{registered, Inv, trigger-TriggeredAt, OnlyAt, OnlyAt-refl}

-- The test and the body of `if (test) { triggerEvent(event); --m_pendingEventCount; }` together.
pub record Handled (test : Bool) (m : IoManager) (fd : ℕ) (event : Event) (m' : IoManager)
    : Type 0 where
  pub inv : Inv m'
  pub events :
      (context_at m' fd).events
      ≡ (if test then without (context_at m fd).events event else (context_at m fd).events)
  pub kept :
      (other : Event)
      → IsSingle other
      → (test ≡ true → other ≢ event)
      → context_of (context_at m' fd) other ≡ context_of (context_at m fd) other
  pub count : registered m'.contexts + (if test then 1 else 0) ≡ registered m.contexts
  pub size : length m'.contexts ≡ length m.contexts
  pub only : OnlyAt m fd m'
  pub sched : m'.sched ≡ (
      if test
      then (schedule_lock m.sched (task_of (context_of (context_at m fd) event))).0
      else m.sched)

module _ (m : IoManager) (fd : ℕ) (event : Event) (known : fd < length m.contexts)
    (single : IsSingle event) (v : Inv m) where
  trigger_if-true :
      (m' : IoManager)
      → trigger m fd event ≡ Result.ok m'
      → trigger_if true m fd event ≡ Result.ok (record m' { pending = count_down m'.pending })
  unfolding trigger_if
  trigger_if-true m' e = rw (e, trigger_if)

  pub trigger_if-Handled :
      (test : Bool)
      → (test ≡ true → has (context_at m fd).events event ≡ true)
      → (m' : IoManager) × (trigger_if test m fd event ≡ Result.ok m') × Handled test m fd event m'
  unfolding trigger_if
  trigger_if-Handled false h = (
    m,
    refl,
    record {
      inv = v;
      events = refl;
      kept = λ other s n. refl;
      count = omega arith;
      size = refl;
      only = OnlyAt-refl m fd;
      sched = refl;
    },
  )
  trigger_if-Handled true h =
      let (m', runs, t) = trigger-TriggeredAt m fd event known single v.consistent (h refl) in
      let removed = trigger_count m m' fd event single v t in
      (
        record m' { pending = count_down m'.pending },
        trigger_if-true m' runs,
        record {
          inv = removed.inv;
          events = t.context.events;
          kept = λ other s n. t.context.kept other s (n refl);
          count = t.one_less;
          size = t.size;
          only = removed.only;
          sched = t.sched;
        },
      )
