-- ===== src/Hook/Served.antt =====
-- A sleeping fiber gets the thread again (src/hook/hook.cc, with src/timer/timer.cc,
-- src/iomanager/ioscheduler.cc and src/scheduler/scheduler.cc).
use mathlib.Core.List.{append_assoc, append-nil}
use coroutinelib.Base.{
  ℕ, ◌<◌, ◌≤◌, ◌≡◌, ◌≢◌, refl, sym, subst, ap, ◌∙◌, Option, none, some, false, List, [], ◌∷◌, ◌++◌,
  arith, All, length, inl, inr,
}
use coroutinelib.Callback.{Callback}
use coroutinelib.Timer.{deref}
use coroutinelib.Timer.Manager.{detect_clock_rollover}
use coroutinelib.Timer.Expiry.Round.{Ends}
use coroutinelib.Fiber.{World}
use coroutinelib.Scheduler.{Scheduler, Task, fiber_task, cb_task, schedule_lock, is_foreign}
use coroutinelib.Scheduler.Dispatch.{Leaves}
use coroutinelib.Scheduler.Dispatch.Keeps.{Fits}
use coroutinelib.Scheduler.Dispatch.First.{IsOwn}
use coroutinelib.Scheduler.Dispatch.Serves.{Turn, IsFair, IsServing, Serves, All-append}
use coroutinelib.Scheduler.Dispatch.Callbacks.{schedules, closure_task, schedules-Serves}
use coroutinelib.IoManager.{IoManager}
use coroutinelib.IoManager.Idle.{schedule_all}
use coroutinelib.IoManager.IdleRound.{schedule_callbacks, schedule_all-rest}
use coroutinelib.IoManager.Actions.{expire_timers}
use coroutinelib.IoManager.Actions.Ordered.{expire_timers-eq}
use coroutinelib.Hook.{Local}
use coroutinelib.Hook.Sleep.{Sleeps}
use coroutinelib.Hook.Wake.{Holds, sleeper-wakes}

-- The tasks that callbacks become; a null one becomes none.
tasks_of : List (Option Callback) → List Task
tasks_of [] = []
tasks_of (none ∷ cbs) = tasks_of cbs
tasks_of (some cb ∷ cbs) = cb_task (some cb) none ∷ tasks_of cbs

schedule_callbacks-tasks :
    (cbs : List (Option Callback)) (s : Scheduler)
    → (schedule_callbacks cbs s).tasks ≡ s.tasks ++ tasks_of cbs
unfolding tasks_of schedule_lock
schedule_callbacks-tasks [] s = sym (append-nil s.tasks)
schedule_callbacks-tasks (none ∷ cbs) s = schedule_callbacks-tasks cbs s
schedule_callbacks-tasks (some cb ∷ cbs) s =
    schedule_callbacks-tasks cbs (schedule_lock s (cb_task (some cb) none)).0
    ∙ append_assoc s.tasks (cb_task (some cb) none ∷ []) (tasks_of cbs)

tasks_of-split :
    (before after : List (Option Callback)) (f : Callback)
    → tasks_of (before ++ some f ∷ after)
      ≡ tasks_of before ++ cb_task (some f) none ∷ tasks_of after
unfolding tasks_of
tasks_of-split [] after f = refl
tasks_of-split (none ∷ before) after f = tasks_of-split before after f
tasks_of-split (some cb ∷ before) after f =
    ap (λ (ts : List Task). cb_task (some cb) none ∷ ts) (tasks_of-split before after f)

tasks_of-Fits : (w : World) (h : ℕ) (cbs : List (Option Callback)) → All (Fits w h) (tasks_of cbs)
unfolding tasks_of
tasks_of-Fits w h [] = tt
tasks_of-Fits w h (none ∷ cbs) = tasks_of-Fits w h cbs
tasks_of-Fits w h (some cb ∷ cbs) = ((refl, λ f e. cc), tasks_of-Fits w h cbs)

tasks_of-IsOwn : (id : ℕ) (cbs : List (Option Callback)) → All (IsOwn id) (tasks_of cbs)
unfolding tasks_of is_foreign
tasks_of-IsOwn id [] = tt
tasks_of-IsOwn id (none ∷ cbs) = tasks_of-IsOwn id cbs
tasks_of-IsOwn id (some cb ∷ cbs) = (refl, tasks_of-IsOwn id cbs)

module _ (l : Local) (i z due h idle_fiber id : ℕ) (s : Sleeps i z due l) where
  -- The tasks that come to have the thread before the fiber, and the fiber.
  pub record GetsTurn (m' : IoManager) (leaves : Leaves) : Type 0 where
    pub before : List Task
    pub after : List Task
    pub split : m'.sched.tasks ≡ before ++ closure_task i ∷ after
    pub gets :
        (turns : List Turn)
        → length turns ≡ length before
        → All (IsFair (length l.world.fibers) h id) turns
        → (k : ℕ) × ((others : List Turn)
            → length others ≡ k
            → All (IsFair (length l.world.fibers) h id) others
            → Serves
                (length l.world.fibers)
                h
                idle_fiber
                id
                (turns ++ schedules i ∷ others)
                leaves
                (fiber_task (some i) none)
                l.world
                m'.sched)

  QueueOf : (m' : IoManager) (cbs : List (Option Callback)) → Type 0
  QueueOf m' cbs = m'.sched.tasks ≡ s.manager.sched.tasks ++ tasks_of cbs

  queued-GetsTurn :
      (m' : IoManager) (cbs : List (Option Callback)) (leaves : Leaves)
      → IsServing h idle_fiber id l.world s.manager.sched
      → i < length l.world.fibers
      → i ≢ h
      → QueueOf m' cbs
      → Holds cbs (Callback.schedule_fiber i)
      → GetsTurn m' leaves
  unfolding QueueOf
  queued-GetsTurn m' cbs leaves v known apart queue (pre, post, holds) =
      let before = s.manager.sched.tasks ++ tasks_of pre in
      let split : m'.sched.tasks ≡ before ++ closure_task i ∷ tasks_of post =
        queue
        ∙ ap (λ (cs : List (Option Callback)). s.manager.sched.tasks ++ tasks_of cs) holds
        ∙ ap (λ (ts : List Task). s.manager.sched.tasks ++ ts)
            (tasks_of-split pre post (Callback.schedule_fiber i))
        ∙ sym
            (append_assoc s.manager.sched.tasks (tasks_of pre) (closure_task i ∷ tasks_of post)) in
      let serving : IsServing h idle_fiber id l.world m'.sched = record {
        is_loop = v.is_loop;
        fits = subst (All (Fits l.world h)) (sym queue) (
            All-append (Fits l.world h) s.manager.sched.tasks (tasks_of cbs) v.fits
              (tasks_of-Fits l.world h cbs));
        own = subst (All (IsOwn id)) (sym queue) (
            All-append (IsOwn id) s.manager.sched.tasks (tasks_of cbs) v.own
              (tasks_of-IsOwn id cbs));
      } in
      record {
        before = before;
        after = tasks_of post;
        split = split;
        gets = λ turns enough fair.
            schedules-Serves (length l.world.fibers) h idle_fiber id turns leaves i before
              (tasks_of post) l.world m'.sched known apart (omega arith) serving split enough fair;
      }

  -- A fiber `i` that sleeps until `due`, on a thread in the loop of `run` whose fibers are in order and
  -- whose queue has no task for another thread, when `idle` looks for expired timers at `due` or later,
  -- without a clock rollover and with a period above zero for recurring timers: the queue then has the
  -- callback that schedules `i`. When it has the thread, after as many rounds as there are tasks before
  -- it, and calls `scheduleLock` for `i`, then there is a number of further rounds after which `i` is
  -- the first in the queue, and has the thread in the next round, unless the fiber has ended; whatever
  -- the code of the tasks posts in between, for this thread and with fibers that were there at the
  -- start, and whether it yields or returns, without resuming a fiber itself, system calls succeeding.
  pub sleeper-GetsTurn :
      (now checked : ℕ) (leaves : Leaves)
      → due ≤ now
      → (detect_clock_rollover s.manager.timer checked).1 ≡ false
      → All (λ y. Ends false (deref s.manager.timer.store y)) s.manager.timer.timers
      → IsServing h idle_fiber id l.world s.manager.sched
      → i < length l.world.fibers
      → i ≢ h
      → (m' : IoManager) × (expire_timers s.manager now checked ≡ some m') × GetsTurn m' leaves
  unfolding QueueOf
  sleeper-GetsTurn now checked leaves late steady ends v known apart =
      let m = s.manager in
      let (timer, cbs, lists, wakes) = sleeper-wakes l i z due now checked s steady ends in
      let m' = schedule_all (record m { timer = timer }) cbs in
      let (contexts, pending, timers, sched) = schedule_all-rest (record m { timer = timer }) cbs in
      let queue : QueueOf m' cbs =
        ap (λ (x : Scheduler). x.tasks) sched ∙ schedule_callbacks-tasks cbs m.sched in
      (
        m',
        expire_timers-eq m now checked timer cbs lists,
        elim wakes [
          | inl (d, holds) ↦ queued-GetsTurn m' cbs leaves v known apart queue holds
          | inr (early, stays, same) ↦ absurd (omega (arith, early, late))
        ],
      )
