-- ===== src/IoManager/Registry/View.antt =====
-- The registry that the contexts of a manager stand for (src/iomanager/ioscheduler.cc).
use coroutinelib.Base.{
  ◌≡◌, ◌≢◌, refl, sym, ap, ap₂, ◌∙◌, Option, none, some, Bool, true, false, ◌||◌, List, [], ◌∷◌,
  ◌++◌, arith, inl, inr, Bool-cases, if◌then◌else◌, is_some,
}
use mathlib.Core.List.{append-nil, append_assoc}
use coroutinelib.Scheduler.{Scheduler, Task, schedule_lock, is_task}
use coroutinelib.IoManager.Event.{
  Event, without, or_event, and_event, has, is_set, IsSingle, is_read, is_write,
}
use coroutinelib.IoManager.Idle.{real_events}
use coroutinelib.IoManager.Context.{FdContext, EventContext}
use coroutinelib.IoManager.Context.Consistent.{
  IsConsistent, IsFilled, Triggered, context_of, context_of-IsFilled, task_of, task_of-is_task,
}
use coroutinelib.IoManager.{IoManager, context_at}
use coroutinelib.IoManager.TwoEvents.{schedule_if, schedule_events}
use coroutinelib.IoManager.Registry.{Slots, Registry, get, put, events_of, released, take}

abbrev pub slot : Event → Event → Task → Option Task
slot events e t = if has events e then some t else none

abbrev pub slots_of : Event → (read write : Task) → Slots
slots_of events r w = record { read = slot events Event.read r; write = slot events Event.write w }

abbrev pub view_context : FdContext → Slots
view_context c = slots_of c.events (task_of c.read) (task_of c.write)

abbrev pub view : IoManager → Registry
view m = record { slots = λ fd. view_context (context_at m fd); queue = m.sched.tasks }

pub Slots-eq : (s s' : Slots) → s.read ≡ s'.read → s.write ≡ s'.write → s ≡ s'
Slots-eq s s' e e' = ap₂ (λ (r w : Option Task). record { read = r; write = w }) e e'

pub events_of-view : (c : FdContext) → events_of (view_context c) ≡ c.events
events_of-view c = go c.events (task_of c.read) (task_of c.write)
  where
    go : (a : Event) (r w : Task) → events_of (slots_of a r w) ≡ a
    go Event.none r w = refl
    go Event.read r w = refl
    go Event.write r w = refl
    go Event.read_write r w = refl

pub get-view :
    (c : FdContext) (event : Event)
    → IsSingle event
    → get (view_context c) event ≡ slot c.events event (task_of (context_of c event))
get-view c _ is_read = refl
get-view c _ is_write = refl

pub is_some-view :
    (c : FdContext) (event : Event)
    → IsSingle event
    → is_some (get (view_context c) event) ≡ has c.events event
is_some-view c event single = ap is_some (get-view c event single) ∙ go (has c.events event)
  where
    go : (b : Bool) → is_some (if b then some (task_of (context_of c event)) else none) ≡ b
    go true = refl
    go false = refl

-- One slot after events have gone or come.
slot-without :
    (a got e : Event) (t t' : Task)
    → IsSingle e
    → (has got e ≡ false → t' ≡ t)
    → slot (without a got) e t' ≡ (if has got e then none else slot a e t)
slot-without a got e t t' single h = elim (Bool-cases (has got e)) [
  | inl g ↦ rw (g, has-without_got a got e single g) refl
  | inr g ↦ rw (g, has-without_rest a got e single g, h g) refl
]
  where
    has-without_got :
        (a got e : Event) → IsSingle e → has got e ≡ true → has (without a got) e ≡ false
    has-without_got a got _ is_read g = ground arith
    has-without_got a got _ is_write g = ground arith

    has-without_rest :
        (a got e : Event) → IsSingle e → has got e ≡ false → has (without a got) e ≡ has a e
    has-without_rest a got _ is_read g = ground arith
    has-without_rest a got _ is_write g = ground arith

-- The slots of a context from which events were taken.
pub view-without :
    (c c' : FdContext) (got : Event)
    → c'.events ≡ without c.events got
    → ((e : Event) → IsSingle e → has got e ≡ false → context_of c' e ≡ context_of c e)
    → view_context c' ≡ (take (has got Event.read) (has got Event.write) (view_context c)).0
view-without c c' got events kept =
    Slots-eq (view_context c') (take (has got Event.read) (has got Event.write) (view_context c)).0
      (ap (λ (a : Event). slot a Event.read (task_of c'.read)) events
        ∙ slot-without c.events got Event.read (task_of c.read) (task_of c'.read) is_read
            (λ g. ap task_of (kept Event.read is_read g)))
      (ap (λ (a : Event). slot a Event.write (task_of c'.write)) events
        ∙ slot-without c.events got Event.write (task_of c.write) (task_of c'.write) is_write
            (λ g. ap task_of (kept Event.write is_write g)))

pub view-Triggered :
    (c c' : FdContext) (event : Event)
    → IsSingle event
    → Triggered c event c'
    → view_context c' ≡ put (view_context c) event none
view-Triggered c c' _ is_read t =
    view-without c c' Event.read t.events (λ e single g. t.kept e single (λ q. cc))
view-Triggered c c' _ is_write t =
    view-without c c' Event.write t.events (λ e single g. t.kept e single (λ q. cc))

-- The slots of a context to which an event was added.
pub view-added :
    (c c' : FdContext) (event : Event) (e : EventContext)
    → IsSingle event
    → c'.events ≡ or_event c.events event
    → context_of c' event ≡ e
    → ((other : Event) → IsSingle other → other ≢ event → context_of c' other ≡ context_of c other)
    → view_context c' ≡ put (view_context c) event (some (task_of e))
view-added c c' _ e is_read events stored kept =
    rw (events, stored, kept Event.write is_write (λ q. cc))
      (Slots-eq _ _ (slot-or_read c.events) (slot-or_other c.events))
  where
    slot-or_read :
        (a : Event) → slot (or_event a Event.read) Event.read (task_of e) ≡ some (task_of e)
    slot-or_read a = ground arith

    slot-or_other :
        (a : Event)
        → slot (or_event a Event.read) Event.write (task_of c.write)
          ≡ slot a Event.write (task_of c.write)
    slot-or_other a = ground arith
view-added c c' _ e is_write events stored kept =
    rw (events, stored, kept Event.read is_read (λ q. cc))
      (Slots-eq _ _ (slot-or_other c.events) (slot-or_write c.events))
  where
    slot-or_write :
        (a : Event) → slot (or_event a Event.write) Event.write (task_of e) ≡ some (task_of e)
    slot-or_write a = ground arith

    slot-or_other :
        (a : Event)
        → slot (or_event a Event.write) Event.read (task_of c.read)
          ≡ slot a Event.read (task_of c.read)
    slot-or_other a = ground arith

-- `scheduleLock` of a task at the end of the queue.
pub schedule_lock-tasks :
    (s : Scheduler) (t : Task) → is_task t ≡ true → (schedule_lock s t).0.tasks ≡ s.tasks ++ t ∷ []
unfolding schedule_lock
schedule_lock-tasks s t h = rw h refl

schedule_if-tasks :
    (events e : Event) (got : Bool) (c : EventContext) (s : Scheduler)
    → (has events e ≡ true → IsFilled c)
    → (got ≡ true → has events e ≡ true)
    → (schedule_if got s (task_of c)).tasks
      ≡ s.tasks ++ (if got then released (slot events e (task_of c)) else [])
schedule_if-tasks events e true c s filled sub =
    rw (sub refl) (schedule_lock-tasks s (task_of c) (task_of-is_task c (filled (sub refl))))
schedule_if-tasks events e false c s filled sub = sym (append-nil s.tasks)

pub schedule_events-tasks :
    (got : Event) (c : FdContext) (s : Scheduler)
    → IsConsistent c
    → and_event c.events got ≡ got
    → (schedule_events got c s).tasks
      ≡ s.tasks ++ (take (has got Event.read) (has got Event.write) (view_context c)).1
schedule_events-tasks got c s v sub =
    schedule_if-tasks c.events Event.write (has got Event.write) c.write
      (schedule_if (has got Event.read) s (task_of c.read))
      (context_of-IsFilled c Event.write is_write v) (has-sub c.events got Event.write sub)
    ∙ ap
        (λ (ts : List Task).
          ts
          ++ (if has got Event.write
              then released (slot c.events Event.write (task_of c.write))
              else []))
        (schedule_if-tasks c.events Event.read (has got Event.read) c.read s
          (context_of-IsFilled c Event.read is_read v) (has-sub c.events got Event.read sub))
    ∙ append_assoc s.tasks _ _
  where
    has-sub : (a r e : Event) → and_event a r ≡ r → has r e ≡ true → has a e ≡ true
    has-sub a r e h g = ground arith

-- With EPOLLERR or EPOLLHUP all that is registered is taken.
pub take-real :
    (c : FdContext) (mask : Event) (trouble : Bool)
    → take
        (has (real_events c.events mask trouble) Event.read)
        (has (real_events c.events mask trouble) Event.write)
        (view_context c)
      ≡ take (has mask Event.read || trouble) (has mask Event.write || trouble) (view_context c)
take-real c mask trouble = go c.events mask trouble (task_of c.read) (task_of c.write)
  where
    go :
        (a mask : Event) (trouble : Bool) (r w : Task)
        → take
            (has (real_events a mask trouble) Event.read)
            (has (real_events a mask trouble) Event.write)
            (slots_of a r w)
          ≡ take (has mask Event.read || trouble) (has mask Event.write || trouble) (slots_of a r w)
    go a mask trouble r w = ground arith

pub take-all :
    (c : FdContext)
    → take (has c.events Event.read) (has c.events Event.write) (view_context c)
      ≡ take true true (view_context c)
take-all c = go c.events (task_of c.read) (task_of c.write)
  where
    go :
        (a : Event) (r w : Task)
        → take (has a Event.read) (has a Event.write) (slots_of a r w)
          ≡ take true true (slots_of a r w)
    go a r w = ground arith

pub take-none :
    (c : FdContext)
    → is_set c.events ≡ false
    → take true true (view_context c) ≡ (view_context c, [])
take-none c h = go c.events (task_of c.read) (task_of c.write) h
  where
    go :
        (a : Event) (r w : Task)
        → is_set a ≡ false
        → take true true (slots_of a r w) ≡ (slots_of a r w, [])
    go Event.none r w h = refl
    go Event.read r w h = cc
    go Event.write r w h = cc
    go Event.read_write r w h = cc
