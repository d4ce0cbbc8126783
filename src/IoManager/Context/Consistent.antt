-- ===== src/IoManager/Context/Consistent.antt =====
-- The contexts that belong together: a flag is set exactly when its `EventContext` is filled
-- (src/iomanager/ioscheduler.cc).
use coroutinelib.Base.{
  ◌+◌, ◌≡◌, ◌≢◌, refl, sym, subst, none, Bool, true, false, ◌||◌, if◌then◌else◌, is_some, arith,
}
use coroutinelib.Faults.{Result}
use coroutinelib.Scheduler.{Task, fiber_task, cb_task, is_task}
use coroutinelib.IoManager.Event.{Event, without, has, flags, IsSingle, is_read, is_write}
use coroutinelib.IoManager.Event.Laws.{
  has-without_self, has-without_read, has-without_write, flags-without,
}
use coroutinelib.IoManager.Context.{
  EventContext, no_context, FdContext, reset_event_context, trigger_event,
}

-- An event context in use has a scheduler, and either a callback or a fiber.
abbrev pub IsFilled : EventContext → Type 0
IsFilled e = (e.scheduled ≡ true) × ((is_some e.cb || is_some e.fiber) ≡ true)

abbrev pub Fits : Bool → EventContext → Type 0
Fits true e = IsFilled e
Fits false e = e ≡ no_context

pub record IsConsistent (c : FdContext) : Type 0 where
  pub reads : Fits (has c.events Event.read) c.read
  pub writes : Fits (has c.events Event.write) c.write

-- The task that an event context stands for.
abbrev pub task_of : EventContext → Task
task_of e = if is_some e.cb then cb_task e.cb none else fiber_task e.fiber none

abbrev pub context_of : FdContext → Event → EventContext
context_of c Event.write = c.write
context_of c _ = c.read

pub task_of-is_task : (e : EventContext) → IsFilled e → is_task (task_of e) ≡ true
task_of-is_task e h = ground arith

-- What `triggerEvent` makes of a registered event.
pub record Triggered (c : FdContext) (event : Event) (c' : FdContext) : Type 0 where
  pub consistent : IsConsistent c'
  pub events : c'.events ≡ without c.events event
  pub flags_left : flags c'.events + 1 ≡ flags c.events
  pub emptied : context_of c' event ≡ no_context
  pub fd : c'.fd ≡ c.fd
  pub kept :
      (other : Event) → IsSingle other → other ≢ event → context_of c' other ≡ context_of c other

pub context_of-IsFilled :
    (c : FdContext) (event : Event)
    → IsSingle event
    → IsConsistent c
    → has c.events event ≡ true
    → IsFilled (context_of c event)
context_of-IsFilled c _ is_read v h = subst (λ b. Fits b c.read) h v.reads
context_of-IsFilled c _ is_write v h = subst (λ b. Fits b c.write) h v.writes

-- The context without the event.
abbrev pub cleared : FdContext → Event → FdContext
cleared c event = reset_event_context (record c { events = without c.events event }) event

kept_other :
    (c : FdContext) (event other : Event)
    → IsSingle event
    → IsSingle other
    → other ≢ event
    → context_of (cleared c event) other ≡ context_of c other
unfolding reset_event_context
kept_other c _ _ is_read is_read n = absurd (n refl)
kept_other c _ _ is_read is_write n = refl
kept_other c _ _ is_write is_read n = refl
kept_other c _ _ is_write is_write n = absurd (n refl)

pub cleared-Triggered :
    (c : FdContext) (event : Event)
    → IsSingle event
    → IsConsistent c
    → has c.events event ≡ true
    → Triggered c event (cleared c event)
unfolding reset_event_context
cleared-Triggered c _ is_read v h = record {
  consistent = record {
    reads = rw (has-without_self c.events Event.read is_read);
    writes = subst (λ b. Fits b c.write) (sym (has-without_read c.events)) v.writes;
  };
  events = refl;
  flags_left = flags-without c.events Event.read is_read h;
  emptied = refl;
  fd = refl;
  kept = λ other single n. kept_other c Event.read other is_read single n;
}
cleared-Triggered c _ is_write v h = record {
  consistent = record {
    reads = subst (λ b. Fits b c.read) (sym (has-without_write c.events)) v.reads;
    writes = rw (has-without_self c.events Event.write is_write);
  };
  events = refl;
  flags_left = flags-without c.events Event.write is_write h;
  emptied = refl;
  fd = refl;
  kept = λ other single n. kept_other c Event.write other is_write single n;
}

trigger_event-eq :
    (c : FdContext) (event : Event)
    → IsSingle event
    → has c.events event ≡ true
    → (context_of c event).scheduled ≡ true
    → trigger_event c event ≡ Result.ok (cleared c event, task_of (context_of c event))
unfolding trigger_event
trigger_event-eq c _ is_read h e = rw (h, e, trigger_event)
trigger_event-eq c _ is_write h e = rw (h, e, trigger_event)

-- `triggerEvent` of a registered event on a consistent context: it clears the event's flag and its
-- event context, and hands over the task that was stored there.
pub trigger_event-Triggered :
    (c : FdContext) (event : Event)
    → IsSingle event
    → IsConsistent c
    → has c.events event ≡ true
    → (c' : FdContext) × (trigger_event c event ≡ Result.ok (c', task_of (context_of c event)))
      × Triggered c event c'
trigger_event-Triggered c event single v h = (
  cleared c event,
  trigger_event-eq c event single h (context_of-IsFilled c event single v h).0,
  cleared-Triggered c event single v h,
)
