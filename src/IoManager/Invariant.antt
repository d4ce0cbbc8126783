-- ===== src/IoManager/Invariant.antt =====
-- `m_pendingEventCount` counts the registered events, and every context is consistent
-- (src/iomanager/ioscheduler.cc).
use coroutinelib.Base.{
  ℕ, zero, suc, ◌+◌, ◌*◌, ◌^◌, ◌<◌, ◌≤◌, ◌≡◌, refl, sym, subst, ap, ◌∙◌, true, List, [], ◌∷◌, arith,
  All, length, set, get_or, length-set, All-set, All-get_or, get_or-set_self, set-twice, set-get_or,
}
use coroutinelib.Faults.{Result}
use coroutinelib.Scheduler.{Task, schedule_lock}
use coroutinelib.IoManager.Event.{Event, has, flags, IsSingle}
use coroutinelib.IoManager.Context.{FdContext, new_context, trigger_event}
use coroutinelib.IoManager.Context.Consistent.{
  IsConsistent, Triggered, trigger_event-Triggered, task_of, context_of,
}
use coroutinelib.IoManager.{IoManager, context_at, put_context, schedule}
use coroutinelib.IoManager.Events.{trigger}

-- The number of registered events.
unfoldable pub registered : List FdContext → ℕ
registered [] = 0
registered (c ∷ cs) = flags c.events + registered cs

pub record Inv (m : IoManager) : Type 0 where
  pub consistent : All IsConsistent m.contexts
  pub counted : m.pending ≡ registered m.contexts
  pub room : 2 * length m.contexts < 2 ^ 64

flags-le : (e : Event) → flags e ≤ 2
flags-le e = ground arith

pub registered-le : (cs : List FdContext) → registered cs ≤ 2 * length cs
unfolding registered
registered-le [] = omega arith
registered-le (c ∷ cs) = omega (arith, flags-le c.events, registered-le cs)

pub registered-set :
    (cs : List FdContext) (fd : ℕ) (c d : FdContext)
    → fd < length cs
    → registered (set cs fd c) + flags (get_or cs fd d).events ≡ flags c.events + registered cs
unfolding registered
registered-set [] fd c d h = absurd (omega arith)
registered-set (b ∷ cs) zero c d h = omega arith
registered-set (b ∷ cs) (suc fd) c d h = omega (arith, registered-set cs fd c d (omega arith))

new_context-IsConsistent : (fd : ℕ) → IsConsistent (new_context fd)
new_context-IsConsistent fd = record { reads = refl; writes = refl }

pub context_at-IsConsistent :
    (m : IoManager) (fd : ℕ) → All IsConsistent m.contexts → IsConsistent (context_at m fd)
context_at-IsConsistent m fd h =
    All-get_or IsConsistent m.contexts fd (new_context fd) (new_context-IsConsistent fd) h

-- Scheduling a task changes the scheduler and the pipe alone.
pub schedule-rest :
    (m : IoManager) (t : Task)
    → ((schedule m t).contexts ≡ m.contexts)
      × ((schedule m t).pending ≡ m.pending)
      × ((schedule m t).timer ≡ m.timer)
      × ((schedule m t).sched ≡ (schedule_lock m.sched t).0)
unfolding schedule
schedule-rest m t = (ground arith, ground arith, ground arith, ground arith)

-- Of the contexts, that of descriptor `fd` alone is another; the timers are the same.
pub record OnlyAt (m : IoManager) (fd : ℕ) (m' : IoManager) : Type 0 where
  pub contexts : m'.contexts ≡ set m.contexts fd (context_at m' fd)
  pub timer : m'.timer ≡ m.timer

pub OnlyAt-refl : (m : IoManager) (fd : ℕ) → OnlyAt m fd m
OnlyAt-refl m fd = record {
  contexts = sym (set-get_or m.contexts fd (new_context fd));
  timer = refl;
}

pub OnlyAt-trans :
    (m m1 m2 : IoManager) (fd : ℕ) → OnlyAt m fd m1 → OnlyAt m1 fd m2 → OnlyAt m fd m2
OnlyAt-trans m m1 m2 fd a b = record {
  contexts =
      b.contexts
      ∙ ap (λ (cs : List FdContext). set cs fd (context_at m2 fd)) a.contexts
      ∙ set-twice m.contexts fd (context_at m1 fd) (context_at m2 fd);
  timer = b.timer ∙ a.timer;
}

-- What `triggerEvent` of a registered event of descriptor `fd` makes of the manager.
pub record TriggeredAt (m : IoManager) (fd : ℕ) (event : Event) (m' : IoManager) : Type 0 where
  pub consistent : All IsConsistent m'.contexts
  pub one_less : registered m'.contexts + 1 ≡ registered m.contexts
  pub size : length m'.contexts ≡ length m.contexts
  pub pending : m'.pending ≡ m.pending
  pub context : Triggered (context_at m fd) event (context_at m' fd)
  pub only : OnlyAt m fd m'
  pub sched : m'.sched ≡ (schedule_lock m.sched (task_of (context_of (context_at m fd) event))).0

pub trigger-TriggeredAt :
    (m : IoManager) (fd : ℕ) (event : Event)
    → fd < length m.contexts
    → IsSingle event
    → All IsConsistent m.contexts
    → has (context_at m fd).events event ≡ true
    → (m' : IoManager) × (trigger m fd event ≡ Result.ok m') × TriggeredAt m fd event m'
unfolding trigger
trigger-TriggeredAt m fd event known single v h =
    let task = task_of (context_of (context_at m fd) event) in
    let (c, runs, t) =
      trigger_event-Triggered (context_at m fd) event single (context_at-IsConsistent m fd v) h in
    let (same, pending, timer, sched) = schedule-rest (put_context m fd c) task in
    let here : get_or (set m.contexts fd c) fd (new_context fd) ≡ c =
      get_or-set_self m.contexts fd c (new_context fd) known in
    (
      schedule (put_context m fd c) task,
      unfold_bind c task runs,
      record {
        consistent =
            subst (All IsConsistent) (sym same)
              (All-set IsConsistent m.contexts fd c t.consistent v);
        one_less = omega (
          arith,
          ap registered same,
          registered-set m.contexts fd c (new_context fd) known,
          t.flags_left,
        );
        size = ap length same ∙ length-set m.contexts fd c;
        pending = pending;
        context =
            subst (Triggered (context_at m fd) event)
              (sym (ap (λ (cs : List FdContext). get_or cs fd (new_context fd)) same ∙ here)) t;
        only = record {
          contexts =
              same
              ∙ ap (set m.contexts fd)
                  (sym (ap (λ (cs : List FdContext). get_or cs fd (new_context fd)) same ∙ here));
          timer = timer;
        };
        sched = sched;
      },
    )
  where
    unfold_bind :
        (c : FdContext) (task : Task)
        → trigger_event (context_at m fd) event ≡ Result.ok (c, task)
        → trigger m fd event ≡ Result.ok (schedule (put_context m fd c) task)
    unfold_bind c task e = rw (e, trigger)
