-- ===== src/IoManager/Registry.antt =====
-- What the event calls of src/iomanager/ioscheduler.cc promise, without contexts, flags and counts: a
-- registry holds at most one waiting task for each descriptor and each of READ and WRITE, and a queue
-- of the tasks that are released.
pub mod View
pub mod Steps
pub mod Replay
mod Tests
use coroutinelib.Base.{
  ℕ, ◌<◌, ◌≡◌, Option, none, some, Bool, true, ◌||◌, List, [], ◌∷◌, ◌++◌, ◌⊎◌, if◌then◌else◌,
  is_some,
}
use coroutinelib.Base.Threads.{assign}
use coroutinelib.Scheduler.{Task}
use coroutinelib.IoManager.Event.{Event, or_event, and_event, has, IsSingle}
use coroutinelib.IoManager.Context.Consistent.{task_of}
use coroutinelib.IoManager.Registered.{IsReady, new_event_context}
use coroutinelib.IoManager.Kernel.{Call, fd_of}

-- The waiting tasks of one descriptor.
pub record Slots : Type 0 where
  pub read : Option Task
  pub write : Option Task

abbrev pub get : Slots → Event → Option Task
get s Event.write = s.write
get s _ = s.read

abbrev pub put : Slots → Event → Option Task → Slots
put s Event.write t = record s { write = t }
put s _ t = record s { read = t }

-- The events with a waiting task.
abbrev pub events_of : Slots → Event
events_of s =
    or_event (if is_some s.read then Event.read else Event.none)
      (if is_some s.write then Event.write else Event.none)

pub record Registry : Type 0 where
  pub slots : ℕ → Slots
  pub queue : List Task

abbrev pub released : Option Task → List Task
released none = []
released (some t) = t ∷ []

-- The tasks taken out for the given flags, READ before WRITE.
abbrev pub take : (read write : Bool) → Slots → Slots × List Task
take read write s = (
  record { read = if read then none else s.read; write = if write then none else s.write },
  (if read then released s.read else []) ++ (if write then released s.write else []),
)

-- What a call does to the slots of its descriptor, and the tasks that it releases.
abbrev pub serve : Call → Slots → Slots × List Task
serve (Call.add fd event cb caller) s = (
  if is_some (get s event) then s else put s event (some (task_of (new_event_context cb caller))),
  [],
)
serve (Call.del fd event) s = (put s event none, [])
serve (Call.cancel fd event) s = (put s event none, released (get s event))
serve (Call.cancel_all fd) s = take true true s
serve (Call.ready fd mask trouble) s =
    take (has mask Event.read || trouble) (has mask Event.write || trouble) s

-- A call, with the result of `epoll_ctl`: a failure changes nothing.
abbrev pub serve_in : Registry → Call → (fails : Bool) → Registry
serve_in r c fails = if fails then r else record {
  slots = assign r.slots (fd_of c) (serve c (r.slots (fd_of c))).0;
  queue = r.queue ++ (serve c (r.slots (fd_of c))).1;
}

abbrev pub replay : Registry → List (Call × Bool) → Registry
replay r [] = r
replay r ((c, fails) ∷ cs) = replay (serve_in r c fails) cs

-- The calls that keep to what the manager expects, of descriptors below `size`.
abbrev pub IsServed : (size : ℕ) → Slots → Call → (fails : Bool) → Type 0
IsServed size s (Call.add fd event cb caller) fails =
    (fd < size) × IsSingle event × IsReady cb caller
IsServed size s (Call.del fd event) fails =
    (fd < size) × IsSingle event × ((is_some (get s event) ≡ true) ⊎ (fails ≡ true))
IsServed size s (Call.cancel fd event) fails =
    (fd < size) × IsSingle event × ((is_some (get s event) ≡ true) ⊎ (fails ≡ true))
IsServed size s (Call.cancel_all fd) fails = fd < size
IsServed size s (Call.ready fd mask trouble) fails =
    (fd < size) × (and_event (events_of s) mask ≡ mask)

abbrev pub AreServed : (size : ℕ) → Registry → List (Call × Bool) → Type 0
AreServed size r [] = Unit {0}
AreServed size r ((c, fails) ∷ cs) =
    IsServed size (r.slots (fd_of c)) c fails × AreServed size (serve_in r c fails) cs
