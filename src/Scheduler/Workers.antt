-- ===== src/Scheduler/Workers.antt =====
-- Any number of threads in `Scheduler::run` (src/scheduler/scheduler.cc), interleaved between the
-- accesses to the shared queue and counters, while other code schedules tasks and stops the scheduler.
pub mod Invariant
pub mod Shutdown
pub mod Binding
use coroutinelib.Base.{ℕ, ◌+◌, ◌-◌, ◌<◌, ◌≡◌, Bool, true, false, List, [], ◌∷◌, ◌++◌}
use coroutinelib.Base.Threads.{assign}
use coroutinelib.Scheduler.{
  Task, Scheduler, no_task, is_task, schedule_lock, is_foreign, take_task, stopping,
}

-- Where a thread stands in the loop of `run`, with `idle_over` for an idle fiber that has ended:
-- before the locked block, in a task, after the block without a task, in the idle fiber, there
-- after the look at `stopping`, after the loop.
pub data Place : Type 0 where
  choosing : (idle_over : Bool) → Place
  working : (idle_over : Bool) → Task → Place
  without_task : (idle_over : Bool) → Place
  idling : Place
  looked : (over : Bool) → Place
  exited : Place

-- The scheduler with its threads. `posted` and `finished` record the tasks put into the queue and those
-- whose `resume` has returned.
pub record System : Type 0 where
  pub sched : Scheduler
  pub place : ℕ → Place
  pub posted : List Task
  pub finished : List Task

-- A scheduler with `n` threads that have entered `run`.
abbrev pub start : System
start = record {
  sched = record { tasks = []; active = 0; idle = 0; stop_flag = false };
  place = λ i. Place.choosing false;
  posted = [];
  finished = [];
}

-- One step of thread `i` of `n`, with `tid i` its thread id, or of the code around them.
pub data Step (n : ℕ) (tid : ℕ → ℕ) (s : System) : System → Type 0 where
  -- The locked block, when it finds a task.
  take :
      (i : ℕ) (idle_over : Bool)
      → i < n
      → s.place i ≡ Place.choosing idle_over
      → is_task (take_task s.sched (tid i)).1 ≡ true
      → Step n tid s (record s {
        sched = (take_task s.sched (tid i)).0;
        place = assign s.place i (Place.working idle_over (take_task s.sched (tid i)).1);
      })
  -- The locked block, when it finds none.
  miss :
      (i : ℕ) (idle_over : Bool)
      → i < n
      → s.place i ≡ Place.choosing idle_over
      → is_task (take_task s.sched (tid i)).1 ≡ false
      → Step n tid s (record s {
        sched = (take_task s.sched (tid i)).0;
        place = assign s.place i (Place.without_task idle_over);
      })
  -- `resume` of the task has returned: `m_activeThreadCount--`.
  finish :
      (i : ℕ) (idle_over : Bool) (t : Task)
      → i < n
      → s.place i ≡ Place.working idle_over t
      → Step n tid s (record s {
        sched = record (s.sched) { active = s.sched.active - 1 };
        place = assign s.place i (Place.choosing idle_over);
        finished = t ∷ s.finished;
      })
  -- `m_idleThreadCount++`, and the idle fiber is resumed.
  sleep :
      (i : ℕ)
      → i < n
      → s.place i ≡ Place.without_task false
      → Step n tid s (record s {
        sched = record (s.sched) { idle = s.sched.idle + 1 };
        place = assign s.place i Place.idling;
      })
  -- The idle fiber has ended before: the loop is left.
  leave :
      (i : ℕ)
      → i < n
      → s.place i ≡ Place.without_task true
      → Step n tid s (record s { place = assign s.place i Place.exited })
  -- `idle` looks at `stopping`, which in `IOManager` asks for more.
  look :
      (i : ℕ) (over : Bool)
      → i < n
      → s.place i ≡ Place.idling
      → (over ≡ true → stopping s.sched ≡ true)
      → Step n tid s (record s { place = assign s.place i (Place.looked over) })
  -- By what it saw, `idle` has yielded or has returned, which ends the idle fiber:
  -- `m_idleThreadCount--`.
  wake :
      (i : ℕ) (over : Bool)
      → i < n
      → s.place i ≡ Place.looked over
      → Step n tid s (record s {
        sched = record (s.sched) { idle = s.sched.idle - 1 };
        place = assign s.place i (Place.choosing over);
      })
  -- `scheduleLock`, by a task or from outside.
  post :
      (t : Task)
      → is_task t ≡ true
      → Step n tid s (record s { sched = (schedule_lock s.sched t).0; posted = t ∷ s.posted })
  -- `m_stopping = true` in `stop`.
  stop : Step n tid s (record s { sched = record (s.sched) { stop_flag = true } })

pub data Reach (n : ℕ) (tid : ℕ → ℕ) : System → Type 0 where
  begin : Reach n tid start
  next : {s t : System} → Reach n tid s → Step n tid s t → Reach n tid t
