-- ===== src/Hook/Tests.antt =====
-- A fiber that sleeps, and the theorems on src/hook/hook.cc applied to it.
use coroutinelib.Base.{
  ℕ, zero, suc, ◌<◌, ◌≤◌, ◌≡◌, ◌≢◌, refl, Option, none, some, true, false, [], ◌∷◌, arith, inl, inr,
  ◌⊎◌, In, List,
}
use coroutinelib.Faults.{Result}
use coroutinelib.Callback.{Callback}
use coroutinelib.Timer.{deadline}
use coroutinelib.Timer.Manager.{Manager, list_expired_cb, detect_clock_rollover}
use coroutinelib.Timer.Manager.Valid.{IsValid}
use coroutinelib.Fiber.{World, Fiber, State, Context}
use coroutinelib.Fiber.Returns.{Yielded}
use coroutinelib.IoManager.{IoManager}
use coroutinelib.Hook.{Local, Outcome, sleep}
use coroutinelib.Hook.Sleep.{IsSuspendable, Sleeps, sleep-Sleeps}
use coroutinelib.Scheduler.Dispatch.{Leaves}
use coroutinelib.Scheduler.Dispatch.Rounds.{IsParked, IsLoop}
use coroutinelib.IoManager.Actions.{expire_timers}
use coroutinelib.Hook.Served.{GetsTurn, sleeper-GetsTurn}
use coroutinelib.Hook.Wake.{Holds, sleeper-wakes}

-- The main fiber 0 has resumed fiber 1.
abbrev fiber : ℕ → Option ℕ → Fiber
fiber i stack = record {
  id = i;
  state = State.running;
  context = Context.saved 0;
  stack = stack;
  cb = none;
  run_in_scheduler = true;
}

abbrev in_fiber : World
in_fiber = record {
  fibers = fiber 0 none ∷ fiber 1 (some 128000) ∷ [];
  current = some 1;
  thread_fiber = some 0;
  scheduler_fiber = some 0;
  on_cpu = 1;
  fiber_id = 1;
  fiber_count = 2;
}

abbrev timers_of : Manager → IoManager
timers_of timer = record {
  sched = record { tasks = []; active = 1; idle = 0; stop_flag = false };
  timer = timer;
  contexts = [];
  pending = 0;
  pipe = 0;
}

abbrev thread_of : Manager → Local
thread_of timer = record { enabled = true; world = in_fiber; iom = some (timers_of timer) }

abbrev no_timers : Manager
no_timers = record { store = []; timers = []; tickled = false; previous_time = 0 }

no_timers-IsValid : IsValid no_timers
no_timers-IsValid = record { sorted = tt; known = tt; periods = tt }

in_fiber-IsSuspendable : IsSuspendable in_fiber 1 0
in_fiber-IsSuspendable = record {
  current = refl;
  known = omega arith;
  apart = λ e. omega arith;
  running = refl;
  to_home = refl;
  on_cpu = refl;
  own = inr refl;
}

sleep-Sleeps_example :
    (l' : Local) × (z : ℕ) × (sleep (thread_of no_timers) 2 7 false false false
      ≡ Result.ok (Outcome.suspended l' z))
    × Yielded in_fiber 1 0 l'.world
    × Sleeps 1 z 2000000007 l'
sleep-Sleeps_example =
    sleep-Sleeps (thread_of no_timers) (timers_of no_timers) 1 0 7 false false refl
      no_timers-IsValid in_fiber-IsSuspendable 2 refl (omega arith) tt

-- The timer of a fiber that sleeps until 2 seconds.
abbrev one_timer : Manager
one_timer = record {
  store =
      record {
        recurring = false;
        ms = 2000;
        next = 2000000000;
        cb = some (Callback.schedule_fiber 1);
      }
      ∷ [];
  timers = 0 ∷ [];
  tickled = true;
  previous_time = 0;
}

abbrev asleep : Sleeps 1 0 2000000000 (thread_of one_timer)
asleep = record {
  manager = timers_of one_timer;
  found = refl;
  valid = record { sorted = (tt, tt); known = (omega arith, tt); periods = (omega arith, tt) };
  member = inl refl;
  once = refl;
  due = refl;
  cb = refl;
}

sleeper-wakes_example :
    (m' : Manager) × (cbs : List (Option Callback)) × (list_expired_cb 2 one_timer [] 2500000000
        2500000000
      ≡ some (m', cbs))
    × (((2000000000 ≤ 2500000000) × Holds cbs (Callback.schedule_fiber 1))
        ⊎ ((2500000000 < 2000000000) × In 0 m'.timers × (deadline m'.store 0 ≡ 2000000000)))
unfolding detect_clock_rollover
sleeper-wakes_example =
    sleeper-wakes (thread_of one_timer) 1 0 2000000000 2500000000 2500000000 asleep (ground arith)
      (inl refl, tt)

-- Fiber 0 runs the loop, fiber 1 sleeps, and fiber 2 is the idle fiber.
abbrev parked : ℕ → Callback → Fiber
parked i cb = record {
  id = i;
  state = State.ready;
  context = Context.saved i;
  stack = some 128000;
  cb = some cb;
  run_in_scheduler = true;
}

abbrev in_loop : World
in_loop = record {
  fibers = fiber 0 none ∷ parked 1 (Callback.user 1) ∷ parked 2 Callback.idle_scheduler ∷ [];
  current = some 0;
  thread_fiber = some 0;
  scheduler_fiber = some 0;
  on_cpu = 0;
  fiber_id = 1;
  fiber_count = 3;
}

in_loop-IsLoop : IsLoop in_loop 0 2
in_loop-IsLoop = record {
  cpu = refl;
  home = refl;
  known = omega arith;
  idle_known = omega arith;
  idle_apart = λ e. omega (arith, e);
  parked = all_parked;
}
  where
    all_parked : (i : ℕ) → i < 3 → i ≢ 0 → IsParked in_loop i
    all_parked zero l n = absurd (n refl)
    all_parked (suc zero) l n = record { in_scheduler = refl; own = inr refl; at_rest = inl refl }
    all_parked (suc (suc zero)) l n = record {
      in_scheduler = refl;
      own = inr refl;
      at_rest = inl refl;
    }
    all_parked (suc (suc (suc i))) l n = absurd (omega (arith, l))

abbrev looping : Local
looping = record { enabled = true; world = in_loop; iom = some (timers_of one_timer) }

abbrev looping_asleep : Sleeps 1 0 2000000000 looping
looping_asleep = record {
  manager = timers_of one_timer;
  found = refl;
  valid = asleep.valid;
  member = inl refl;
  once = refl;
  due = refl;
  cb = refl;
}

sleeper-GetsTurn_example :
    (m' : IoManager) × (expire_timers (timers_of one_timer) 2500000000 2500000000 ≡ some m')
    × GetsTurn looping 1 0 2000000000 0 2 101 looping_asleep m' Leaves.yields
unfolding detect_clock_rollover
sleeper-GetsTurn_example =
    sleeper-GetsTurn looping 1 0 2000000000 0 2 101 looping_asleep 2500000000 2500000000
      Leaves.yields (omega arith) (ground arith) (inl refl, tt)
      (record { is_loop = in_loop-IsLoop; fits = tt; own = tt }) (omega arith)
      (λ e. omega (arith, e))
