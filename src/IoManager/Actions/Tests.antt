-- ===== src/IoManager/Actions/Tests.antt =====
-- A new manager on an epoll instance that meets the interface, and the theorems of this folder applied
-- to it and to one with a registered event.
use coroutinelib.Base.{
  ℕ, zero, suc, ◌+◌, ◌≡◌, ◌≢◌, ◌==◌, refl, none, some, true, false, [], ◌∷◌, arith, inl,
  if◌then◌else◌,
}
use coroutinelib.Callback.{Callback}
use coroutinelib.Epoll.{Op}
use coroutinelib.Epoll.Example.{map_epoll}
use coroutinelib.Timer.Manager.{new_manager}
use coroutinelib.IoManager.{IoManager, context_at, new_io_manager}
use coroutinelib.IoManager.Event.{Event, is_read}
use coroutinelib.IoManager.Events.{Caller}
use coroutinelib.IoManager.Kernel
use coroutinelib.IoManager.Kernel.{construct}
use coroutinelib.IoManager.Kernel.Calls.{IsAllowed}
use coroutinelib.IoManager.Actions.{Inner, Action, act, perform}
use coroutinelib.IoManager.Actions.Ordered.{
  IsMet, IsOrdered, IsPossible, Performs, Reach, reached-Performs,
}
use coroutinelib.IoManager.Actions.Closed.{IsPossibleAfter, Later, Forgets, closed-Forgets}
use coroutinelib.IoManager.Context.{FdContext, no_context}
use coroutinelib.IoManager.Invariant.{registered}
use coroutinelib.IoManager.Kernel.Agreement.{watched}
use coroutinelib.Timer.Manager.Valid.{new_manager-IsValid}

-- A thread of the manager that gives a callback.
abbrev caller : Caller
caller = record { scheduled = true; fiber = 0; running = true }

abbrev add_read : Action
add_read = Action.event (Kernel.Call.add 3 Event.read (some (Callback.user 1)) caller)

-- The new manager and its epoll instance, which watches the pipe 5.
abbrev new : IoManager
new = new_io_manager (new_manager 0)

abbrev with_pipe : map_epoll.State
with_pipe = (map_epoll.ctl (λ fd. none) Op.add 5 Event.read).0

new-Reach : Reach map_epoll 5 new with_pipe
unfolding construct
new-Reach = Reach.constructed 0 (λ fd. none) (λ fd. refl) refl

-- A thread gives itself to its idle fiber.
abbrev asleep : IoManager
asleep = record new { sched = record (new.sched) { idle = new.sched.idle + 1 } }

asleep-Reach : Reach map_epoll 5 asleep with_pipe
unfolding perform act IsPossible IsMet
asleep-Reach = Reach.performed (Action.inner Inner.sleep) new-Reach tt refl

add_read-IsPossible : IsPossible 5 asleep add_read
unfolding IsPossible IsAllowed new_io_manager
add_read-IsPossible = ((λ e. omega (arith, e)), omega arith, is_read, (refl, refl))

reached-Performs_example : Performs map_epoll 5 asleep with_pipe add_read
reached-Performs_example = reached-Performs map_epoll 5 add_read asleep-Reach add_read-IsPossible

-- READ of descriptor 0 is registered, and the descriptor is watched.
abbrev waiting : FdContext
waiting = record {
  read = record { scheduled = true; fiber = none; cb = some (Callback.user 1) };
  write = no_context;
  fd = 0;
  events = Event.read;
}

abbrev reading : IoManager
reading = record {
  sched = record { tasks = []; active = 0; idle = 1; stop_flag = false };
  timer = new_manager 0;
  contexts = waiting ∷ [];
  pending = 1;
  pipe = 0;
}

abbrev watching : map_epoll.State
watching = λ fd. if fd == 0 then some Event.read else none

reading-IsOrdered : IsOrdered map_epoll 5 reading watching
unfolding registered
reading-IsOrdered = record {
  inv = record {
    consistent = (record { reads = (refl, refl); writes = refl }, tt);
    counted = refl;
    room = omega arith;
  };
  agrees = all_watched;
  valid = new_manager-IsValid 0;
}
  where
    all_watched : (fd : ℕ) → fd ≢ 5 → watching fd ≡ watched (context_at reading fd).events
    all_watched zero n = refl
    all_watched (suc fd) n = ground arith

-- A thread has given itself to its idle fiber after the descriptor was closed, and WRITE of it is added.
abbrev busy : IoManager
busy = record reading { sched = record (reading.sched) { idle = reading.sched.idle + 1 } }

add_write : Action
add_write = Action.event (Kernel.Call.add 0 Event.write (some (Callback.user 2)) caller)

slept-Later :
    Later map_epoll 5 0 waiting refl reading
      (map_epoll.close watching 0)
      busy
      (map_epoll.close watching 0)
unfolding perform act IsPossibleAfter IsMet
slept-Later = Later.then (Action.inner Inner.sleep) Later.now tt refl

closed-Forgets_example :
    Forgets map_epoll 5 0 waiting refl busy (map_epoll.close watching 0) add_write
unfolding IsPossibleAfter add_write
closed-Forgets_example =
    closed-Forgets map_epoll 5 0 waiting refl add_write reading-IsOrdered (omega arith) refl
      slept-Later (inl (refl, tt))
