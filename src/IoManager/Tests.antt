-- ===== src/IoManager/Tests.antt =====
-- Managers with one descriptor, and the theorems on src/iomanager/ioscheduler.cc applied to them.
use coroutinelib.Base.{
  ℕ, ◌*◌, ◌+◌, ◌≤◌, ◌≡◌, refl, none, some, true, false, [], ◌∷◌, arith, List, inl, ◌⊎◌, ◌↔◌,
}
use coroutinelib.Faults.{Result}
use coroutinelib.Callback.{Callback}
use coroutinelib.Timer.Manager.{new_manager, detect_clock_rollover}
use coroutinelib.Timer.Manager.Valid.{IsValid, new_manager-IsValid}
use coroutinelib.IoManager.Event.{Event, is_write}
use coroutinelib.IoManager.Context.{EventContext, FdContext, no_context}
use coroutinelib.IoManager.{IoManager, stopping, count_down}
use coroutinelib.IoManager.Events.{Caller, del_event}
use coroutinelib.IoManager.Idle.{Ready, Round, handle_all, wait_timeout, max_timeout, idle_round}
use coroutinelib.IoManager.Reports.Handling.{Reported, handle_all-delivers}
use coroutinelib.IoManager.IdleRound.{after_interrupts, Rounded, idle_round-delivers}
use coroutinelib.Timer.Expiry.Round.{expired}
use coroutinelib.IoManager.Invariant.{registered, Inv}
use coroutinelib.IoManager.Removal.{del_event-absent}
use coroutinelib.IoManager.Waiting.{IsDone, stopping_iff, wait_timeout_bounds}

-- An event context with the user's callback `k`.
abbrev waiting : ℕ → EventContext
waiting k = record { scheduled = true; fiber = none; cb = some (Callback.user k) }

-- A manager with descriptor 0 alone, its context and the count of events given.
abbrev manager : FdContext → ℕ → IoManager
manager c pending = record {
  sched = record { tasks = []; active = 0; idle = 1; stop_flag = false };
  timer = new_manager 0;
  contexts = c ∷ [];
  pending = pending;
  pipe = 0;
}

-- READ is registered.
abbrev reading : IoManager
reading = manager (record { read = waiting 1; write = no_context; fd = 0; events = Event.read }) 1

reading-Inv : Inv reading
unfolding registered
reading-Inv = record {
  consistent = (record { reads = (refl, refl); writes = refl }, tt);
  counted = refl;
  room = omega arith;
}

-- READ and WRITE are registered.
abbrev both : IoManager
both = manager (record { read = waiting 1; write = waiting 2; fd = 0; events = Event.read_write }) 2

both-Inv : Inv both
unfolding registered
both-Inv = record {
  consistent = (record { reads = (refl, refl); writes = (refl, refl) }, tt);
  counted = refl;
  room = omega arith;
}

abbrev task : Caller
task = record { scheduled = true; fiber = 3; running = true }

stopping_iff_example : ((stopping reading 0).1 ≡ true) ↔ IsDone reading
unfolding new_manager
stopping_iff_example = stopping_iff reading 0 (new_manager-IsValid 0) tt reading-Inv

-- One timer, due at 5 ms.
abbrev with_timer : IoManager
with_timer = record reading {
  timer = record {
    store = record { recurring = false; ms = 5; next = 5000000; cb = none } ∷ [];
    timers = 0 ∷ [];
    tickled = false;
    previous_time = 0;
  };
}

timer-IsValid : IsValid with_timer.timer
timer-IsValid = record { sorted = (tt, tt); known = (omega arith, tt); periods = (omega arith, tt) }

wait_timeout_bounds_example :
    let t = (wait_timeout with_timer 1000000).1 in
    (t ≤ max_timeout) × (((t ≡ 0) ⊎ (1000000 + t * 1000000 ≤ 5000000)) × Unit {0})
wait_timeout_bounds_example = wait_timeout_bounds with_timer 1000000 timer-IsValid

del_event-absent_example :
    (m' : IoManager) × (del_event reading 0 Event.write false ≡ Result.ok (m', true))
    × (registered m'.contexts ≡ registered reading.contexts)
    × (m'.pending ≡ count_down 1)
    × (¬ (Inv m'))
del_event-absent_example =
    del_event-absent reading 0 Event.write (omega arith) is_write reading-Inv refl refl

-- One return of `epoll_wait`: the pipe, and descriptor 0 ready for reading.
abbrev reports : List Ready
reports = Ready.pipe ∷ Ready.descriptor 0 Event.read false false ∷ []

handle_all-delivers_example :
    (m' : IoManager) × (handle_all both reports ≡ Result.ok m') × Reported both reports m'
handle_all-delivers_example =
    handle_all-delivers both reports both-Inv (tt, tt, ((omega arith, refl), tt, tt))

-- With the timer that is due at 5 ms.
abbrev busy : IoManager
busy = record both { timer = with_timer.timer }

busy-Inv : Inv busy
busy-Inv = record {
  consistent = both-Inv.consistent;
  counted = both-Inv.counted;
  room = both-Inv.room;
}

idle_round-delivers_example :
    (m' : IoManager) × (idle_round 2 busy 0 (after_interrupts (1 ∷ []) 2 reports) 6000000 6000000
      ≡ Result.ok (Round.yielded m'))
    × Rounded busy (none ∷ []) reports m'
unfolding stopping expired detect_clock_rollover
idle_round-delivers_example =
    idle_round-delivers busy (1 ∷ []) reports 0 2 6000000 6000000 busy-Inv timer-IsValid
      (ground arith) (inl refl, tt) (tt, tt, ((omega arith, refl), tt, tt))
