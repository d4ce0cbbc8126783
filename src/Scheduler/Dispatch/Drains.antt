-- ===== src/Scheduler/Dispatch/Drains.antt =====
-- The loop of `Scheduler::run` on one thread after `stop` (src/scheduler/scheduler.cc).
use coroutinelib.Base.{
  ℕ, zero, suc, ◌+◌, ◌≤◌, ◌≡◌, ◌≢◌, refl, sym, subst, ap, ◌∙◌, Option, none, some, Bool, true, not,
  List, [], ◌∷◌, arith, All, length, is_empty, if◌then◌else◌,
}
use coroutinelib.Faults.{Result}
use coroutinelib.Fiber.{World, Fiber, State, fiber_at}
use coroutinelib.Scheduler.{Scheduler, Task, take_task, is_task, no_task, stopping}
use coroutinelib.Scheduler.Dispatch.{Leaves}
use coroutinelib.Scheduler.Dispatch.Idle.{idle_leaves}
use coroutinelib.Scheduler.Dispatch.Rounds.{IsLoop, left}
use coroutinelib.Scheduler.Dispatch.Keeps.{Rounded, Fits, round-Rounded}
use coroutinelib.Scheduler.Dispatch.Loop.{
  leaves_in, run_loop, HaveRun, round_of, loop_left, loop_on,
}
use coroutinelib.Scheduler.Dispatch.First.{IsOwn, round-First}

-- What the loop leaves of the world: the tasks have been run or dropped in the order of the queue, and
-- after them only the idle fiber has run, which has ended.
pub record Drained (h idle_fiber : ℕ) (w : World) (tasks : List Task) (w' : World) : Type 0 where
  pub worked : World
  pub have_run : HaveRun h w tasks worked
  pub ended : (fiber_at w' idle_fiber).state ≡ State.term
  pub others : (i : ℕ) → i ≢ h → i ≢ idle_fiber → fiber_at w' i ≡ fiber_at worked i

-- The loop of a thread of a scheduler that is stopped: no other thread has a task, and none is left
-- for one.
pub record IsStopped (h idle_fiber id : ℕ) (w : World) (s : Scheduler) : Type 0 where
  pub is_loop : IsLoop w h idle_fiber
  pub fits : All (Fits w h) s.tasks
  pub own : All (IsOwn id) s.tasks
  pub stop_flag : s.stop_flag ≡ true
  pub quiet : s.active ≡ 0

module _ (h idle_fiber id : ℕ) (users : ℕ → Leaves) where
  rounded :
      (n : ℕ) (w : World) (s : Scheduler)
      → IsStopped h idle_fiber id w s
      → Rounded w h idle_fiber s id (leaves_in s id (users n)) (round_of idle_fiber id users n w s)
  rounded n w s v = round-Rounded w h idle_fiber v.is_loop (leaves_in s id (users n)) s id v.fits

  -- The idle fiber has ended, and the queue is empty.
  leaves_now :
      (n : ℕ) (w : World) (s : Scheduler)
      → IsStopped h idle_fiber id w s
      → s.tasks ≡ []
      → (fiber_at w idle_fiber).state ≡ State.term
      → run_loop (suc n) w s idle_fiber id users ≡ Result.ok (some (w, s))
  leaves_now n w s v empty over =
      loop_left idle_fiber id users n w s
        (from (round_of idle_fiber id users n w s) (rounded n w s v))
    where
      from :
          (r : Result (Option (World × Scheduler)))
          → Rounded w h idle_fiber s id (leaves_in s id (users n)) r
          → r ≡ Result.ok none
      from _ (Rounded.ran [] t rest split takes all own same has_run is_loop) = absurd cc
      from _ (Rounded.ran (u ∷ passed) t rest split takes all own same has_run is_loop) = absurd cc
      from _ (Rounded.idled takes all ready same b is_loop) = absurd cc
      from _ (Rounded.left_loop takes all ended) = refl

  stopping-stopped :
      (s : Scheduler) → s.stop_flag ≡ true → s.tasks ≡ [] → s.active ≡ 0 → stopping s ≡ true
  unfolding stopping
  stopping-stopped s stop empty quiet = rw (stop, empty, quiet) refl

  idle-returns :
      (n : ℕ) (w : World) (s : Scheduler)
      → IsStopped h idle_fiber id w s
      → s.tasks ≡ []
      → take_task s id ≡ (s, no_task, not (is_empty s.tasks))
      → leaves_in s id (users n) ≡ Leaves.returns
  unfolding leaves_in
  idle-returns n w s v empty takes =
      ap (λ (r : Scheduler × Task × Bool). if is_task r.1 then users n else idle_leaves r.0) takes
      ∙ ap (λ (b : Bool). if b then Leaves.returns else Leaves.yields)
          (stopping-stopped s v.stop_flag empty v.quiet)

  -- The loop comes to its end within `n` rounds.
  record Drains (n : ℕ) (w : World) (s : Scheduler) : Type 0 where
    world : World
    runs : run_loop n w s idle_fiber id users ≡ Result.ok (some (world, record s { tasks = [] }))
    drained : Drained h idle_fiber w s.tasks world

  emptied : (s : Scheduler) → s.tasks ≡ [] → s ≡ record s { tasks = [] }
  emptied s e = ap (λ (ts : List Task). record s { tasks = ts }) e

  Drains-empty :
      (n : ℕ) (w : World) (s : Scheduler)
      → IsStopped h idle_fiber id w s
      → s.tasks ≡ []
      → Drains (suc (suc n)) w s
  Drains-empty n w s v empty =
      from (round_of idle_fiber id users (suc n) w s) refl (rounded (suc n) w s v)
    where
      none_run : (u : World) → HaveRun h u s.tasks u
      none_run u = subst (λ (ts : List Task). HaveRun h u ts u) (sym empty) HaveRun.none_left

      from :
          (r : Result (Option (World × Scheduler)))
          → round_of idle_fiber id users (suc n) w s ≡ r
          → Rounded w h idle_fiber s id (leaves_in s id (users (suc n))) r
          → Drains (suc (suc n)) w s
      from _ e (Rounded.ran [] t rest split takes all own same has_run is_loop) = absurd cc
      from _ e (Rounded.ran (u ∷ passed) t rest split takes all own same has_run is_loop) =
          absurd cc
      from _ e (Rounded.left_loop takes all ended) = record {
        world = w;
        runs =
            loop_left idle_fiber id users (suc n) w s e
            ∙ ap (λ (x : Scheduler). Result.ok (some (w, x))) (emptied s empty);
        drained = record {
          worked = w;
          have_run = none_run w;
          ended = ended;
          others = λ i _ _. refl;
        };
      }
      from _ e (Rounded.idled {w'} {s'} takes all ready same b is_loop) =
          let over : (fiber_at w' idle_fiber).state ≡ State.term =
            ap (λ (f : Fiber). f.state) b.fiber
            ∙ ap (λ (l : Leaves). (left w idle_fiber l).state)
                (idle-returns (suc n) w s v empty takes) in
          let later : IsStopped h idle_fiber id w' s = record {
            is_loop = is_loop;
            fits = subst (All (Fits w' h)) (sym empty) tt;
            own = v.own;
            stop_flag = v.stop_flag;
            quiet = v.quiet;
          } in
          record {
            world = w';
            runs =
                loop_on idle_fiber id users (suc n) w s w' s' e
                ∙ ap (λ (x : Scheduler). run_loop (suc n) w' x idle_fiber id users) same
                ∙ leaves_now n w' s later empty over
                ∙ ap (λ (x : Scheduler). Result.ok (some (w', x))) (emptied s empty);
            drained = record {
              worked = w;
              have_run = none_run w;
              ended = over;
              others = λ i m d. b.rest i d m;
            };
          }

  -- A round with a task, before the rounds for the others.
  Drains-task :
      (n : ℕ) (w : World) (s : Scheduler) (t : Task) (ts : List Task)
      → IsStopped h idle_fiber id w s
      → s.tasks ≡ t ∷ ts
      → ((w' : World) (s' : Scheduler)
          → IsStopped h idle_fiber id w' s'
          → s'.tasks ≡ ts
          → Drains n w' s')
      → Drains (suc n) w s
  Drains-task n w s t ts v e later =
      let leaves = leaves_in s id (users n) in
      let r = round-First w h idle_fiber v.is_loop s id leaves t ts e v.fits v.own in
      let s' : Scheduler = record s { tasks = ts } in
      let d =
        later r.world s'
          (record {
            is_loop = r.is_loop;
            fits = r.fits;
            own = r.own;
            stop_flag = v.stop_flag;
            quiet = v.quiet;
          })
          refl in
      record {
        world = d.world;
        runs = loop_on idle_fiber id users n w s r.world s' r.runs ∙ d.runs;
        drained = record {
          worked = d.drained.worked;
          have_run =
              subst (λ (us : List Task). HaveRun h w us d.drained.worked) (sym e)
                (HaveRun.next leaves r.has_run d.drained.have_run);
          ended = d.drained.ended;
          others = d.drained.others;
        };
      }

  drains :
      (ts : List Task) (n : ℕ) (w : World) (s : Scheduler)
      → IsStopped h idle_fiber id w s
      → s.tasks ≡ ts
      → length ts + 2 ≤ n
      → Drains n w s
  drains [] zero w s v e enough = absurd (omega (arith, enough))
  drains [] (suc zero) w s v e enough = absurd (omega (arith, enough))
  drains [] (suc (suc n)) w s v e enough = Drains-empty n w s v e
  drains (t ∷ ts) zero w s v e enough = absurd (omega (arith, enough))
  drains (t ∷ ts) (suc n) w s v e enough =
      Drains-task n w s t ts v e (λ w' s' v' e'. drains ts n w' s' v' e' (omega (arith, enough)))

  -- The loop of `run` of a scheduler that is told to stop, on a thread whose fibers are in order, when
  -- no other thread has a task, no task is for another thread and none is posted meanwhile, and the code
  -- of each task yields or returns, without resuming a fiber itself, system calls succeeding: the loop
  -- is left without a fault after at most two rounds more than there are tasks. Each task has had the
  -- thread, unless its fiber had ended, in the order of the queue, and after them only the idle fiber,
  -- which has ended; the queue is empty, and nothing else of the scheduler has changed.
  pub run_loop-drains :
      (n : ℕ) (w : World) (s : Scheduler)
      → IsStopped h idle_fiber id w s
      → length s.tasks + 2 ≤ n
      → (w' : World) × (run_loop n w s idle_fiber id users
          ≡ Result.ok (some (w', record s { tasks = [] })))
        × Drained h idle_fiber w s.tasks w'
  run_loop-drains n w s v enough =
      let d = drains s.tasks n w s v refl enough in (d.world, d.runs, d.drained)
