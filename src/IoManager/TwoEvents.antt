-- ===== src/IoManager/TwoEvents.antt =====
-- READ and WRITE of a descriptor triggered one after the other, as `cancelAll` and `idle` do
-- (src/iomanager/ioscheduler.cc).
use coroutinelib.Base.{
  ℕ, ◌+◌, ◌<◌, ◌≡◌, ◌≢◌, sym, ap, ap₂, ◌∙◌, Bool, true, false, arith, length, if◌then◌else◌,
}
use coroutinelib.Faults.{Result}
use coroutinelib.Scheduler.{Scheduler, Task, schedule_lock}
use coroutinelib.IoManager.Event.{
  Event, without, and_event, has, flags, IsSingle, is_read, is_write,
}
use coroutinelib.IoManager.Context.{FdContext, EventContext}
use coroutinelib.IoManager.Context.Consistent.{task_of, context_of}
use coroutinelib.IoManager.{IoManager, context_at}
use coroutinelib.IoManager.Events.{trigger_if}
use coroutinelib.IoManager.Invariant.{registered, Inv, OnlyAt, OnlyAt-trans}
use coroutinelib.IoManager.Triggering.{Handled, trigger_if-Handled}

abbrev pub schedule_if : Bool → Scheduler → Task → Scheduler
schedule_if test s t = if test then (schedule_lock s t).0 else s

-- The tasks that READ and WRITE stand for in a context, scheduled in this order as far as `events` has
-- them.
abbrev pub schedule_events : Event → FdContext → Scheduler → Scheduler
schedule_events events c s =
    schedule_if (has events Event.write) (schedule_if (has events Event.read) s (task_of c.read))
      (task_of c.write)

-- What triggering the events `got` of descriptor `fd` does.
pub record Delivered (got : Event) (m : IoManager) (fd : ℕ) (m' : IoManager) : Type 0 where
  pub inv : Inv m'
  pub events : (context_at m' fd).events ≡ without (context_at m fd).events got
  pub count : registered m'.contexts + flags got ≡ registered m.contexts
  pub only : OnlyAt m fd m'
  pub kept :
      (e : Event)
      → IsSingle e
      → has got e ≡ false
      → context_of (context_at m' fd) e ≡ context_of (context_at m fd) e
  pub sched : m'.sched ≡ schedule_events got (context_at m fd) m.sched

-- Facts about sets of events, by looking at all of them.
has-subset : (a r e : Event) → and_event a r ≡ r → has r e ≡ true → has a e ≡ true
has-subset a r e s h = ground arith

has-subset_write :
    (a r : Event)
    → and_event a r ≡ r
    → has r Event.write ≡ true
    → has (if has r Event.read then without a Event.read else a) Event.write ≡ true
has-subset_write a r s h = ground arith

without-two :
    (a r : Event)
    → (if has r Event.write
        then without (if has r Event.read then without a Event.read else a) Event.write
        else (if has r Event.read then without a Event.read else a))
      ≡ without a r
without-two a r = ground arith

flags-two :
    (r : Event)
    → flags r ≡ (if has r Event.read then 1 else 0) + (if has r Event.write then 1 else 0)
flags-two r = ground arith

-- Both events, one after the other.
pub record TwoSteps (got : Event) (m : IoManager) (fd : ℕ) : Type 0 where
  pub middle : IoManager
  pub last : IoManager
  pub first_runs : trigger_if (has got Event.read) m fd Event.read ≡ Result.ok middle
  pub second_runs : trigger_if (has got Event.write) middle fd Event.write ≡ Result.ok last
  pub first : Handled (has got Event.read) m fd Event.read middle
  pub delivered : Delivered got m fd last

write≢read : Event.write ≢ Event.read
write≢read e = cc

module _ (m : IoManager) (fd : ℕ) (got : Event) (known : fd < length m.contexts) (v : Inv m) where
  pub two_steps : and_event (context_at m fd).events got ≡ got → TwoSteps got m fd
  two_steps subset =
      let (m1, runs1, h1) =
        trigger_if-Handled m fd Event.read known is_read v (has got Event.read)
          (has-subset (context_at m fd).events got Event.read subset) in
      let (m2, runs2, h2) =
        trigger_if-Handled m1 fd Event.write (omega (arith, h1.size, known)) is_write h1.inv
          (has got Event.write)
          (λ w.
            ap (λ (a : Event). has a Event.write) h1.events
            ∙ has-subset_write (context_at m fd).events got subset w) in
      record {
        middle = m1;
        last = m2;
        first_runs = runs1;
        second_runs = runs2;
        first = h1;
        delivered = record {
          inv = h2.inv;
          events =
              h2.events
              ∙ ap (λ (a : Event). if has got Event.write then without a Event.write else a)
                  h1.events
              ∙ without-two (context_at m fd).events got;
          count = omega (arith, h2.count, h1.count, flags-two got);
          only = OnlyAt-trans m m1 m2 fd h1.only h2.only;
          kept = kept_both m1 m2 h1 h2;
          sched =
              h2.sched
              ∙ ap₂
                  (λ (s : Scheduler) (e : EventContext).
                    schedule_if (has got Event.write) s (task_of e))
                  h1.sched (h1.kept Event.write is_write (λ _. write≢read));
        };
      }
    where
      kept_both :
          (m1 m2 : IoManager)
          → Handled (has got Event.read) m fd Event.read m1
          → Handled (has got Event.write) m1 fd Event.write m2
          → (e : Event) → IsSingle e
          → has got e ≡ false
          → context_of (context_at m2 fd) e ≡ context_of (context_at m fd) e
      kept_both m1 m2 h1 h2 _ is_read h =
          h2.kept Event.read is_read (λ t e. write≢read (sym e))
          ∙ h1.kept Event.read is_read (λ t e. cc)
      kept_both m1 m2 h1 h2 _ is_write h =
          h2.kept Event.write is_write (λ t e. cc) ∙ h1.kept Event.write is_write (λ t. write≢read)
