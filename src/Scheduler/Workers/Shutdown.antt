-- ===== src/Scheduler/Workers/Shutdown.antt =====
-- What the counters, `stopping` and the end of `run` promise (src/scheduler/scheduler.cc), for any
-- number of threads and any interleaving.
use coroutinelib.Base.{ℕ, zero, suc, ◌+◌, ◌≡◌, refl, ap, true, List, [], ◌∷◌, arith, is_empty}
use coroutinelib.Base.Threads.{sum_threads}
use coroutinelib.Scheduler.{Task, Scheduler, stopping}
use coroutinelib.Scheduler.Workers.{Place, System, Reach}
use coroutinelib.Scheduler.Workers.Invariant.{is_working, is_idling, weigh, weigh_place, Reach-Inv}

-- In every reachable state `m_activeThreadCount` is the number of threads that run a task, and
-- `m_idleThreadCount` the number of threads in their idle fiber.
pub counters_exact :
    {n : ℕ} {tid : ℕ → ℕ} {s : System}
    → Reach n tid s
    → (s.sched.active ≡ sum_threads is_working s.place n)
      × (s.sched.idle ≡ sum_threads is_idling s.place n)
counters_exact r = let v = Reach-Inv r in (v.active, v.idle)

-- In every reachable state the tasks that were scheduled are those in the queue, those that a thread
-- runs and those that have returned: for every weight of tasks the sums agree, so that none is lost,
-- made up or taken twice.
pub tasks_conserved :
    {n : ℕ} {tid : ℕ → ℕ} {s : System}
    → Reach n tid s
    → (w : Task → ℕ)
    → weigh w s.posted
      ≡ weigh w s.sched.tasks + sum_threads (weigh_place w) s.place n + weigh w s.finished
tasks_conserved r = (Reach-Inv r).balance

no_weight :
    (w : Task → ℕ) (place : ℕ → Place) (n : ℕ)
    → sum_threads is_working place n ≡ 0
    → sum_threads (weigh_place w) place n ≡ 0
unfolding sum_threads
no_weight w place zero h = refl
no_weight w place (suc n) h =
    omega (arith, at (place n) (omega arith), no_weight w place n (omega arith))
  where
    at : (p : Place) → is_working p ≡ 0 → weigh_place w p ≡ 0
    at (Place.choosing b) e = refl
    at (Place.working b t) e = absurd (omega arith)
    at (Place.without_task b) e = refl
    at Place.idling e = refl
    at (Place.looked b) e = refl
    at Place.exited e = refl

pub stopping-parts :
    (s : Scheduler) → stopping s ≡ true → (s.stop_flag ≡ true) × (s.tasks ≡ []) × (s.active ≡ 0)
unfolding stopping
stopping-parts s h = (ground arith, empty s.tasks (ground arith), ground arith)
  where
    empty : (ts : List Task) → is_empty ts ≡ true → ts ≡ []
    empty [] e = refl
    empty (t ∷ ts) e = cc

-- When `stopping` holds in a reachable state, `stop` was called, the queue is empty, no thread runs a
-- task, and every task ever scheduled has returned.
pub stopping-drained :
    {n : ℕ} {tid : ℕ → ℕ} {s : System}
    → Reach n tid s
    → stopping s.sched ≡ true
    → (s.sched.stop_flag ≡ true)
      × (s.sched.tasks ≡ [])
      × (sum_threads is_working s.place n ≡ 0)
      × ((w : Task → ℕ) → weigh w s.posted ≡ weigh w s.finished)
unfolding weigh
stopping-drained {n} {tid} {s} r h =
    let (stop_flag, empty, none_active) = stopping-parts s.sched h in
    let v = Reach-Inv r in
    let quiet : sum_threads is_working s.place n ≡ 0 = omega (arith, v.active, none_active) in
    (
      stop_flag,
      empty,
      quiet,
      (λ w. omega (arith, v.balance w, ap (weigh w) empty, no_weight w s.place n quiet)),
    )
