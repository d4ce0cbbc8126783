-- ===== src/Scheduler/Dispatch/Refines.antt =====
-- A round of `Scheduler::run` with its fibers is a run of the steps of Scheduler/Workers
-- (src/scheduler/scheduler.cc).
use coroutinelib.Base.{
  ℕ, ◌+◌, ◌-◌, ◌<◌, ◌≡◌, ◌≢◌, refl, sym, subst, ap, ◌∙◌, Option, none, some, Bool, true, false, not,
  List, ◌∷◌, ◌++◌, arith, All, is_empty,
}
use coroutinelib.Base.Threads.{assign, assign_self}
use coroutinelib.Faults.{Result}
use coroutinelib.Fiber.{World, Fiber, fiber_at, is_term}
use coroutinelib.Scheduler.{Scheduler, Task, take_task, is_task, no_task, stopping, is_foreign}
use coroutinelib.Scheduler.Workers.{Place, System, Step}
use coroutinelib.Scheduler.Dispatch.{Leaves, round}
use coroutinelib.Scheduler.Dispatch.Rounds.{IsLoop, left, added_old}
use coroutinelib.Scheduler.Dispatch.Keeps.{HasRun, Rounded, Fits, round-Rounded, All-at}

-- Any number of steps.
pub data Steps (n : ℕ) (tid : ℕ → ℕ) : System → System → Type 0 where
  done : {s : System} → Steps n tid s s
  then : {s t u : System} → Step n tid s t → Steps n tid t u → Steps n tid s u

-- What a round of thread `i` must be: steps to a state with its scheduler, in which the thread chooses
-- again, and knows whether its idle fiber has ended; or in which it has left the loop.
pub data Simulates (n : ℕ) (tid : ℕ → ℕ) (s : System) (i idle_fiber : ℕ)
    : Result (Option (World × Scheduler)) → Type 0 where
  goes_on :
      {w' : World} {s' : Scheduler} (u : System)
      → Steps n tid s u
      → u.sched ≡ s'
      → u.place i ≡ Place.choosing (is_term (fiber_at w' idle_fiber).state)
      → Simulates n tid s i idle_fiber (Result.ok (some (w', s')))
  leaves :
      (u : System)
      → Steps n tid s u
      → u.sched ≡ s.sched
      → u.place i ≡ Place.exited
      → Simulates n tid s i idle_fiber (Result.ok none)

-- No task has the idle fiber.
abbrev pub IsNotIdle : ℕ → Task → Type 0
IsNotIdle idle_fiber t = (f : ℕ) → t.fiber ≡ some f → f ≢ idle_fiber

module _ (n : ℕ) (tid : ℕ → ℕ) (s : System) (i : ℕ) (known : i < n) (w : World) (h idle_fiber : ℕ)
    (v : IsLoop w h idle_fiber) (behaviour : Leaves)
    (here : s.place i ≡ Place.choosing (is_term (fiber_at w idle_fiber).state)) where
  abbrev over : Bool
  over = is_term (fiber_at w idle_fiber).state

  at_place : (f : ℕ → Place) (p : Place) → assign f i p i ≡ p
  at_place f p = assign_self f i p i refl

  ran-Simulates :
      (w' : World) (passed : List Task) (t : Task) (rest : List Task)
      → take_task s.sched (tid i)
        ≡ (record (s.sched) { tasks = passed ++ rest; active = s.sched.active + 1 }, t, true)
      → is_task t ≡ true
      → is_term (fiber_at w' idle_fiber).state ≡ over
      → Simulates n tid s i idle_fiber (
          Result.ok
            (some (w', record (s.sched) { tasks = passed ++ rest; active = s.sched.active })))
  ran-Simulates w' passed t rest takes is same =
      let taken : System = record s {
        sched = (take_task s.sched (tid i)).0;
        place = assign s.place i (Place.working over (take_task s.sched (tid i)).1);
      } in
      let u : System = record taken {
        sched = record (taken.sched) { active = taken.sched.active - 1 };
        place = assign taken.place i (Place.choosing over);
        finished = (take_task s.sched (tid i)).1 ∷ taken.finished;
      } in
      Simulates.goes_on u
        (Steps.then
          (Step.take i over known here
            (ap (λ (r : Scheduler × Task × Bool). is_task r.1) takes ∙ is))
          (Steps.then (Step.finish i over (take_task s.sched (tid i)).1 known (at_place s.place _))
            Steps.done))
        (ap (λ (r : Scheduler × Task × Bool). record (r.0) { active = r.0.active - 1 }) takes
          ∙ ap (λ (k : ℕ). record (s.sched) { tasks = passed ++ rest; active = k }) (omega arith))
        (at_place taken.place _ ∙ ap Place.choosing (sym same))

  -- The states of a round without a task.
  abbrev missed : System
  missed = record s {
    sched = (take_task s.sched (tid i)).0;
    place = assign s.place i (Place.without_task over);
  }

  abbrev slept : System
  slept = record missed {
    sched = record (missed.sched) { idle = missed.sched.idle + 1 };
    place = assign missed.place i Place.idling;
  }

  abbrev looked : Bool → System
  looked b = record slept { place = assign slept.place i (Place.looked b) }

  abbrev woken : Bool → System
  woken b = record (looked b) {
    sched = record (slept.sched) { idle = slept.sched.idle - 1 };
    place = assign (looked b).place i (Place.choosing b);
  }

  miss_step :
      take_task s.sched (tid i) ≡ (s.sched, no_task, not (is_empty s.sched.tasks))
      → Step n tid s missed
  miss_step takes =
      Step.miss i over known here (ap (λ (r : Scheduler × Task × Bool). is_task r.1) takes)

  stopping-idle : (x : Scheduler) (k : ℕ) → stopping (record x { idle = k }) ≡ stopping x
  unfolding stopping
  stopping-idle x k = refl

  idled-Simulates :
      (w' : World) (b : Bool)
      → take_task s.sched (tid i) ≡ (s.sched, no_task, not (is_empty s.sched.tasks))
      → over ≡ false
      → (b ≡ true → stopping s.sched ≡ true)
      → is_term (fiber_at w' idle_fiber).state ≡ b
      → Simulates n tid s i idle_fiber (Result.ok (some (w', s.sched)))
  idled-Simulates w' b takes going honest same =
      Simulates.goes_on (woken b)
        (Steps.then (miss_step takes) (
          Steps.then (Step.sleep i known (at_place s.place _ ∙ ap Place.without_task going)) (
            Steps.then
              (Step.look i b known (at_place missed.place _) (λ e.
                stopping-idle missed.sched (missed.sched.idle + 1)
                ∙ ap (λ (r : Scheduler × Task × Bool). stopping r.0) takes
                ∙ honest e))
              (Steps.then (Step.wake i b known (at_place slept.place _)) Steps.done))))
        (ap (λ (r : Scheduler × Task × Bool). record (r.0) { idle = r.0.idle + 1 - 1 }) takes
          ∙ ap (λ (k : ℕ). record (s.sched) { idle = k }) (omega arith))
        (at_place (looked b).place _ ∙ ap Place.choosing (sym same))

  left-Simulates :
      take_task s.sched (tid i) ≡ (s.sched, no_task, not (is_empty s.sched.tasks))
      → over ≡ true
      → Simulates n tid s i idle_fiber (Result.ok none)
  left-Simulates takes ended =
      Simulates.leaves (record missed { place = assign missed.place i Place.exited })
        (Steps.then (miss_step takes) (
          Steps.then (Step.leave i known (at_place s.place _ ∙ ap Place.without_task ended))
            Steps.done))
        (ap (λ (r : Scheduler × Task × Bool). r.0) takes) (at_place missed.place _)

  -- A task's fiber leaves the idle fiber as it is.
  HasRun-idle :
      (t : Task) (w' : World)
      → IsNotIdle idle_fiber t
      → HasRun w h behaviour t w'
      → is_term (fiber_at w' idle_fiber).state ≡ over
  HasRun-idle t w' apart (HasRun.fiber_ended f e state same) =
      ap (λ (x : World). is_term (fiber_at x idle_fiber).state) same
  HasRun-idle t w' apart (HasRun.fiber_ran f e b) =
      ap (λ (g : Fiber). is_term g.state) (b.rest idle_fiber (λ q. apart f e (sym q)) v.idle_apart)
  HasRun-idle t w' apart (HasRun.callback_ran cb e e' b) =
      ap (λ (g : Fiber). is_term g.state)
        (b.rest idle_fiber (λ q. omega (arith, q, v.idle_known)) v.idle_apart
          ∙ added_old w h idle_fiber v cb idle_fiber v.idle_known)

  left-over :
      (w' : World)
      → fiber_at w' idle_fiber ≡ left w idle_fiber behaviour
      → is_term (fiber_at w' idle_fiber).state ≡ is_term (left w idle_fiber behaviour).state
  left-over w' e = ap (λ (g : Fiber). is_term g.state) e

  returned-term : (b : Leaves) → is_term (left w idle_fiber b).state ≡ true → b ≡ Leaves.returns
  returned-term Leaves.yields e = cc
  returned-term Leaves.returns e = refl

  -- A round of `run` by thread `i` of the scheduler of Scheduler/Workers, whose fibers are in order and
  -- whose tasks are not for the loop's or the idle fiber, when the idle fiber returns only after it saw
  -- that the scheduler is stopping: the round is a run of steps, which ends with
  -- the scheduler that the round leaves, the thread choosing again or out of the loop as the round says,
  -- and knowing whether its idle fiber has ended.
  pub round-Simulates :
      All (Fits w h) s.sched.tasks
      → All (IsNotIdle idle_fiber) s.sched.tasks
      → (behaviour ≡ Leaves.returns
          → All (λ t. is_foreign (tid i) t ≡ true) s.sched.tasks
          → stopping s.sched ≡ true)
      → Simulates n tid s i idle_fiber (round w s.sched idle_fiber (tid i) behaviour false)
  round-Simulates fits apart honest =
      from (round w s.sched idle_fiber (tid i) behaviour false)
        (round-Rounded w h idle_fiber v behaviour s.sched (tid i) fits)
    where
      from :
          (r : Result (Option (World × Scheduler)))
          → Rounded w h idle_fiber s.sched (tid i) behaviour r
          → Simulates n tid s i idle_fiber r
      from _ (Rounded.ran {w'} {s'} passed t rest split takes all own same has_run is_loop) =
          subst (λ (x : Scheduler). Simulates n tid s i idle_fiber (Result.ok (some (w', x))))
            (sym same)
            (ran-Simulates w' passed t rest takes
              (All-at (Fits w h) passed t rest (subst (All (Fits w h)) split fits)).0
              (HasRun-idle t w'
                (All-at (IsNotIdle idle_fiber) passed t rest
                  (subst (All (IsNotIdle idle_fiber)) split apart))
                has_run))
      from _ (Rounded.idled {w'} {s'} takes all ready same b is_loop) =
          subst (λ (x : Scheduler). Simulates n tid s i idle_fiber (Result.ok (some (w', x))))
            (sym same)
            (idled-Simulates w' (is_term (left w idle_fiber behaviour).state) takes
              (ap is_term ready) (λ e. honest (returned-term behaviour e) all)
              (left-over w' b.fiber))
      from _ (Rounded.left_loop takes all ended) = left-Simulates takes (ap is_term ended)
