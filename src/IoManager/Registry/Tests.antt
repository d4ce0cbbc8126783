-- ===== src/IoManager/Registry/Tests.antt =====
-- A manager with a registered event, and the theorem of IoManager/Registry applied to it.
use coroutinelib.Base.{◌≡◌, refl, none, some, Bool, true, false, List, [], ◌∷◌, arith, inl}
use coroutinelib.Faults.{Result}
use coroutinelib.Callback.{Callback}
use coroutinelib.Timer.Manager.{new_manager}
use coroutinelib.IoManager.{IoManager}
use coroutinelib.IoManager.Event.{Event, is_read, is_write}
use coroutinelib.IoManager.Context.{no_context}
use coroutinelib.IoManager.Events.{Caller}
use coroutinelib.IoManager.Invariant.{registered, Inv}
use coroutinelib.IoManager.Kernel.{Call}
use coroutinelib.IoManager.Registry.{replay}
use coroutinelib.IoManager.Registry.View.{view}
use coroutinelib.IoManager.Registry.Replay.{run_calls, calls-refine}

-- A thread of the manager that gives a callback.
abbrev caller : Caller
caller = record { scheduled = true; fiber = 0; running = true }

-- READ of descriptor 0 is registered.
abbrev reading : IoManager
reading = record {
  sched = record { tasks = []; active = 0; idle = 1; stop_flag = false };
  timer = new_manager 0;
  contexts =
      record {
        read = record { scheduled = true; fiber = none; cb = some (Callback.user 1) };
        write = no_context;
        fd = 0;
        events = Event.read;
      }
      ∷ [];
  pending = 1;
  pipe = 0;
}

reading-Inv : Inv reading
unfolding registered
reading-Inv = record {
  consistent = (record { reads = (refl, refl); writes = refl }, tt);
  counted = refl;
  room = omega arith;
}

-- WRITE is asked for.
abbrev add_write : Call
add_write = Call.add 0 Event.write (some (Callback.user 2)) caller

-- WRITE is added, READ is cancelled, the rest is cancelled but `epoll_ctl` fails, and WRITE is reported.
abbrev calls : List (Call × Bool)
calls =
    (add_write, false)
    ∷ (Call.cancel 0 Event.read, false)
    ∷ (Call.cancel_all 0, true)
    ∷ (Call.ready 0 Event.write false, false)
    ∷ []

calls-refine_example :
    (m' : IoManager) × (run_calls reading calls ≡ Result.ok m')
    × Inv m'
    × (view m' ≡ replay (view reading) calls)
unfolding native.Mathlib.Decide.ℕ_discrete
calls-refine_example = calls-refine reading calls reading-Inv (
  (omega arith, is_write, (refl, refl)),
  ((omega arith, is_read, inl refl), (omega arith, ((omega arith, refl), tt))),
)
