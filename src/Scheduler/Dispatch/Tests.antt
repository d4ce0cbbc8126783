-- ===== src/Scheduler/Dispatch/Tests.antt =====
-- A thread in the loop of `run` with a callback to run, and the theorem of Scheduler/Dispatch applied.
use coroutinelib.Base.{
  ℕ, ◌+◌, zero, suc, ◌<◌, ◌≡◌, ◌≢◌, ◌==◌, if◌then◌else◌, refl, none, some, true, false, [], ◌∷◌,
  arith, inl,
}
use coroutinelib.Faults.{Fault, Result}
use coroutinelib.Callback.{Callback}
use coroutinelib.Fiber.{World, Fiber, State, Context}
use coroutinelib.Scheduler.{Scheduler, cb_task, is_foreign, stopping}
use coroutinelib.Scheduler.Dispatch.{Leaves, round}
use coroutinelib.Scheduler.Dispatch.Rounds.{IsParked, IsLoop}
use coroutinelib.Scheduler.Workers.{Place, System}
use coroutinelib.Scheduler.Dispatch.Idle.{idle_turn, idle_turn-leaves}
use coroutinelib.Scheduler.Dispatch.Loop.{run_loop}
use coroutinelib.Scheduler.Dispatch.Serves.{Turn, Serves, run_turns-Serves}
use coroutinelib.Scheduler.Dispatch.Drains.{IsStopped, Drained, run_loop-drains}
use coroutinelib.Scheduler.Dispatch.Refines.{Simulates, round-Simulates}
use coroutinelib.Scheduler.Dispatch.Keeps.{Rounded, round-Rounded}

-- Fiber 0 runs the loop, fiber 1 is the idle fiber.
abbrev fiber : State → Callback → Fiber
fiber state cb = record {
  id = 1;
  state = state;
  context = Context.entry;
  stack = some 128000;
  cb = some cb;
  run_in_scheduler = true;
}

abbrev thread : World
thread = record {
  fibers =
      fiber State.running Callback.run_scheduler ∷ fiber State.ready Callback.idle_scheduler ∷ [];
  current = some 0;
  thread_fiber = some 0;
  scheduler_fiber = some 0;
  on_cpu = 0;
  fiber_id = 1;
  fiber_count = 2;
}

idle-IsParked : IsParked thread 1
idle-IsParked = record { in_scheduler = refl; own = inl refl; at_rest = inl refl }

thread-IsLoop : IsLoop thread 0 1
thread-IsLoop = record {
  cpu = refl;
  home = refl;
  known = omega arith;
  idle_known = omega arith;
  idle_apart = λ e. omega (arith, e);
  parked = parked;
}
  where
    parked : (i : ℕ) → i < 2 → i ≢ 0 → IsParked thread i
    parked zero l n = absurd (n refl)
    parked (suc zero) l n = idle-IsParked
    parked (suc (suc i)) l n = absurd (omega (arith, l))

abbrev waiting : Scheduler
waiting = record {
  tasks = cb_task (some (Callback.user 1)) none ∷ [];
  active = 0;
  idle = 0;
  stop_flag = false;
}

round-Rounded_example :
    Rounded thread 0 1 waiting 101 Leaves.returns (round thread waiting 1 101 Leaves.returns false)
round-Rounded_example =
    round-Rounded thread 0 1 thread-IsLoop Leaves.returns waiting 101 ((refl, λ f e. cc), tt)

-- The scheduler of one thread, whose id is 101.
abbrev system : System
system = record {
  sched = waiting;
  place = λ i. Place.choosing false;
  posted = waiting.tasks;
  finished = [];
}

round-Simulates_example :
    Simulates 1 (λ i. 101 + i) system 0 1 (round thread waiting 1 101 Leaves.returns false)
unfolding is_foreign
round-Simulates_example =
    round-Simulates 1 (λ i. 101 + i) system 0 (omega arith) thread 0 1 thread-IsLoop Leaves.returns
      refl ((refl, λ f e. cc), tt) ((λ f e. cc), tt) (λ e all. let (foreign, rest) = all in cc)

-- After `stop`: two callbacks are left.
abbrev stopped : Scheduler
stopped = record {
  tasks = cb_task (some (Callback.user 1)) none ∷ cb_task (some (Callback.user 2)) (some 101) ∷ [];
  active = 0;
  idle = 0;
  stop_flag = true;
}

-- The second callback yields.
abbrev users : ℕ → Leaves
users rounds = if rounds == 2 then Leaves.yields else Leaves.returns

stopped-IsStopped : IsStopped 0 1 101 thread stopped
unfolding is_foreign
stopped-IsStopped = record {
  is_loop = thread-IsLoop;
  fits = ((refl, λ f e. cc), ((refl, λ f e. cc), tt));
  own = (refl, (refl, tt));
  stop_flag = refl;
  quiet = refl;
}

run_loop-drains_example :
    (w' : World) × (run_loop 4 thread stopped 1 101 users
      ≡ Result.ok (some (w', record stopped { tasks = [] })))
    × Drained 0 1 thread stopped.tasks w'
run_loop-drains_example =
    run_loop-drains 0 1 101 users 4 thread stopped stopped-IsStopped (omega arith)

-- The idle fiber runs, with the hooks on.
abbrev idling : World
idling = record thread { current = some 1; on_cpu = 1 }

idle_turn-leaves_example :
    idle_turn waiting idling 1 true 0 false false ≡ Result.err Fault.null_pointer
unfolding stopping
idle_turn-leaves_example = idle_turn-leaves waiting idling 1 0 true false false refl

-- The first callback yields, and posts another one.
abbrev turn : Turn
turn = record { leaves = Leaves.yields; posts = λ w. cb_task (some (Callback.user 3)) none ∷ [] }

run_turns-Serves_example :
    Serves 2 0 1 101
      (turn ∷ [])
      Leaves.returns
      (cb_task (some (Callback.user 2)) (some 101))
      thread
      stopped
unfolding is_foreign
run_turns-Serves_example =
    run_turns-Serves 2 0 1 101 (turn ∷ []) Leaves.returns
      (cb_task (some (Callback.user 1)) none ∷ []) (cb_task (some (Callback.user 2)) (some 101)) []
      thread stopped (omega arith)
      (record {
        is_loop = thread-IsLoop;
        fits = stopped-IsStopped.fits;
        own = stopped-IsStopped.own;
      })
      refl refl ((λ w more. (((refl, λ f e. cc), tt), (refl, tt))), tt)
