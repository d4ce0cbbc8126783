-- ===== src/Scheduler/Tests.antt =====
-- Runs of two threads in `run`, and the theorems on src/scheduler/scheduler.cc applied to them.
use coroutinelib.Base.{ℕ, ◌+◌, ◌-◌, ◌≡◌, refl, none, some, true, false, [], ◌∷◌, arith, ◌⊎◌, length}
use native.Mathlib.Decide.{ℕ_discrete}
use coroutinelib.Base.Threads.{assign, sum_threads}
use coroutinelib.Callback.{Callback}
use coroutinelib.Scheduler.{
  Task, Scheduler, cb_task, fiber_task, take_task, stopping, schedule_lock,
}
use coroutinelib.Faults.{Fault, Result}
use coroutinelib.Fiber.{World, fresh_thread}
use coroutinelib.Fiber.Switch.{Resumed}
use coroutinelib.Scheduler.Lifecycle.{Pool, Stop, stop_end}
use coroutinelib.Scheduler.Lifecycle.Workforce.{after, lifetime, stop-runs_caller, stop-fails}
use coroutinelib.Scheduler.Workers.{Place, System, start, Step, Reach}
use coroutinelib.Scheduler.Workers.Invariant.{weigh, weigh_place, is_working, is_idling}
use coroutinelib.Scheduler.Workers.Shutdown.{counters_exact, tasks_conserved, stopping-drained}
use coroutinelib.Scheduler.Workers.Binding.{runs_own_tasks}

-- A task bound to thread 101, and one for any thread.
abbrev bound_task : Task
bound_task = cb_task (some (Callback.user 1)) (some 101)

abbrev free_task : Task
free_task = fiber_task (some 4) none

abbrev tid : ℕ → ℕ
tid i = 100 + i

-- Thread 1 takes the bound task.
abbrev posted_one : System
posted_one = record start {
  sched = (schedule_lock start.sched bound_task).0;
  posted = bound_task ∷ [];
}

abbrev taken_one : System
taken_one = record posted_one {
  sched = (take_task posted_one.sched 101).0;
  place = assign posted_one.place 1 (Place.working false (take_task posted_one.sched 101).1);
}

taken_one-Reach : Reach 2 tid taken_one
unfolding take_task schedule_lock
taken_one-Reach =
    Reach.next (Reach.next Reach.begin (Step.post bound_task refl))
      (Step.take 1 false (omega arith) refl refl)

counters_exact_example :
    (taken_one.sched.active ≡ sum_threads is_working taken_one.place 2)
    × (taken_one.sched.idle ≡ sum_threads is_idling taken_one.place 2)
counters_exact_example = counters_exact taken_one-Reach

tasks_conserved_example :
    weigh (λ t. 1) taken_one.posted
    ≡ weigh (λ t. 1) taken_one.sched.tasks
      + sum_threads (weigh_place (λ t. 1)) taken_one.place 2
      + weigh (λ t. 1) taken_one.finished
tasks_conserved_example = tasks_conserved taken_one-Reach (λ t. 1)

runs_own_tasks_example : (bound_task.thread ≡ none) ⊎ (bound_task.thread ≡ some (tid 1))
unfolding take_task schedule_lock ℕ_discrete
runs_own_tasks_example = runs_own_tasks taken_one-Reach 1 false bound_task refl

-- It has finished, `stop` is called, and thread 0 leaves by way of its idle fiber.
abbrev finished_one : System
finished_one = record taken_one {
  sched = record (taken_one.sched) { active = taken_one.sched.active - 1 };
  place = assign taken_one.place 1 (Place.choosing false);
  finished = bound_task ∷ [];
}

abbrev stopped_one : System
stopped_one = record finished_one { sched = record (finished_one.sched) { stop_flag = true } }

finished_one-Reach : Reach 2 tid finished_one
unfolding take_task schedule_lock ℕ_discrete
finished_one-Reach = Reach.next taken_one-Reach (Step.finish 1 false bound_task (omega arith) refl)

stopped_one-Reach : Reach 2 tid stopped_one
stopped_one-Reach = Reach.next finished_one-Reach Step.stop

stopping-drained_example :
    (stopped_one.sched.stop_flag ≡ true)
    × (stopped_one.sched.tasks ≡ [])
    × (sum_threads is_working stopped_one.place 2 ≡ 0)
    × ((w : Task → ℕ) → weigh w stopped_one.posted ≡ weigh w stopped_one.finished)
unfolding stopping take_task schedule_lock
stopping-drained_example = stopping-drained stopped_one-Reach refl

-- The place of thread 0, with what the scheduler is then.
abbrev moved : System → Scheduler → Place → System
moved s sched p = record s { sched = sched; place = assign s.place 0 p }

abbrev took : System → Scheduler
took s = (take_task s.sched 100).0

abbrev missed : System
missed = moved stopped_one (took stopped_one) (Place.without_task false)

abbrev asleep : System
asleep = moved missed (record (missed.sched) { idle = missed.sched.idle + 1 }) Place.idling

abbrev looking : System
looking = moved asleep asleep.sched (Place.looked true)

abbrev awake : System
awake =
    moved looking (record (looking.sched) { idle = looking.sched.idle - 1 }) (Place.choosing true)

abbrev missed_again : System
missed_again = moved awake (took awake) (Place.without_task true)

abbrev left_one : System
left_one = moved missed_again missed_again.sched Place.exited

left_one-Reach : Reach 2 tid left_one
unfolding take_task schedule_lock stopping ℕ_discrete
left_one-Reach =
    let asleep-Reach =
      Reach.next (Reach.next stopped_one-Reach (Step.miss 0 false (omega arith) refl refl))
        (Step.sleep 0 (omega arith) refl) in
    let awake-Reach =
      Reach.next (Reach.next asleep-Reach (Step.look 0 true (omega arith) refl (λ e. refl)))
        (Step.wake 0 true (omega arith) refl) in
    Reach.next (Reach.next awake-Reach (Step.miss 0 true (omega arith) refl refl))
      (Step.leave 0 (omega arith) refl)

-- The main thread, before it makes a scheduler for three threads.
abbrev main_thread : World
main_thread = fresh_thread [] 0 0

stop-runs_caller_example :
    (p : Pool) × (w' : World) × (lifetime main_thread 3 true true false tid
      ≡ Result.ok (Stop.waits p w' 3))
    × (p.sched.stop_flag ≡ true)
    × (length (stop_end p).1 ≡ 2)
    × Resumed (after main_thread false) 1 0 w'
stop-runs_caller_example = stop-runs_caller main_thread false refl 2 tid

stop-fails_example : lifetime main_thread 3 true false false tid ≡ Result.err Fault.assertion
stop-fails_example = stop-fails main_thread false refl 2 tid
