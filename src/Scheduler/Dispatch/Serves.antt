-- ===== src/Scheduler/Dispatch/Serves.antt =====
-- Every task of the queue has its turn (src/scheduler/scheduler.cc, src/scheduler/scheduler.h).
use mathlib.Core.List.{append_assoc, append-nil}
use coroutinelib.Base.{
  ℕ, ◌≤◌, ◌≡◌, refl, sym, subst, ap, ◌∙◌, Option, none, some, true, false, List, [], ◌∷◌, ◌++◌,
  arith, All, length,
}
use coroutinelib.Faults.{Result, ◌>>=◌}
use coroutinelib.Fiber.{World}
use coroutinelib.Scheduler.{Scheduler, Task, is_task, schedule_lock}
use coroutinelib.Scheduler.Dispatch.{Leaves, round}
use coroutinelib.Scheduler.Dispatch.Rounds.{IsLoop}
use coroutinelib.Scheduler.Dispatch.Keeps.{Fits}
use coroutinelib.Scheduler.Dispatch.First.{IsOwn, First, round-First}

-- What the code that has the thread in a round does: how it leaves the thread, and what it, or another
-- thread meanwhile, gives to `scheduleLock`.
pub record Turn : Type 0 where
  pub leaves : Leaves
  pub posts : World → List Task

-- `scheduleLock` of some tasks.
unfoldable pub post_all : Scheduler → List Task → Scheduler
unfolding schedule_lock
post_all s [] = s
post_all s (t ∷ ts) = post_all (schedule_lock s t).0 ts

-- A round for each turn; `none` if the loop is left before.
unfoldable pub run_turns :
    (idle_fiber thread_id : ℕ) → List Turn → World → Scheduler → Result (Option (World × Scheduler))
unfolding round post_all
run_turns idle_fiber thread_id [] w s = Result.ok (some (w, s))
run_turns idle_fiber thread_id (turn ∷ turns) w s =
    round w s idle_fiber thread_id turn.leaves false >>= λ r. elim r [
      | none ↦ Result.ok none
      | some (w', s') ↦ run_turns idle_fiber thread_id turns w' (post_all s' (turn.posts w'))
    ]

-- A turn posts tasks for this thread or any one, whose fibers are there when `n` are.
abbrev pub IsFair : (n h id : ℕ) → Turn → Type 0
IsFair n h id turn =
    (w : World)
    → n ≤ length w.fibers
    → All (Fits w h) (turn.posts w) × All (IsOwn id) (turn.posts w)

post_one :
    (s : Scheduler) (t : Task) → is_task t ≡ true → (schedule_lock s t).0.tasks ≡ s.tasks ++ t ∷ []
unfolding schedule_lock
post_one s t e = rw e refl

pub post_all-tasks :
    (w : World) (h : ℕ) (s : Scheduler) (ts : List Task)
    → All (Fits w h) ts
    → (post_all s ts).tasks ≡ s.tasks ++ ts
unfolding post_all
post_all-tasks w h s [] fits = sym (append-nil s.tasks)
post_all-tasks w h s (t ∷ ts) ((is, apart), fits) =
    post_all-tasks w h (schedule_lock s t).0 ts fits
    ∙ ap (λ (us : List Task). us ++ ts) (post_one s t is)
    ∙ append_assoc s.tasks (t ∷ []) ts

pub All-append : (P : Task → Type 0) (ts us : List Task) → All P ts → All P us → All P (ts ++ us)
All-append P [] us h k = k
All-append P (t ∷ ts) us (p, h) k = (p, All-append P ts us h k)

-- The loop with its queue.
pub record IsServing (h idle_fiber id : ℕ) (w : World) (s : Scheduler) : Type 0 where
  pub is_loop : IsLoop w h idle_fiber
  pub fits : All (Fits w h) s.tasks
  pub own : All (IsOwn id) s.tasks

module _ (n h idle_fiber id : ℕ) where
  pub turn_on :
      (turn : Turn) (turns : List Turn) (w : World) (s : Scheduler) (w' : World) (s' : Scheduler)
      → round w s idle_fiber id turn.leaves false ≡ Result.ok (some (w', s'))
      → run_turns idle_fiber id (turn ∷ turns) w s
        ≡ run_turns idle_fiber id turns w' (post_all s' (turn.posts w'))
  unfolding run_turns
  turn_on turn turns w s w' s' e = rw e refl

  -- The task comes to the head of the queue, and the next round takes it.
  pub record Serves (turns : List Turn) (leaves : Leaves) (t : Task) (w : World) (s : Scheduler)
      : Type 0 where
    pub before : World
    pub queue : Scheduler
    pub waits : run_turns idle_fiber id turns w s ≡ Result.ok (some (before, queue))
    pub later : List Task
    pub at_head : queue.tasks ≡ t ∷ later
    pub serving : IsServing h idle_fiber id before queue
    pub grown : n ≤ length before.fibers
    pub turn : First before h idle_fiber queue id leaves t later

  pub posted-IsServing :
      (turn : Turn) (w : World) (s : Scheduler) (ts : List Task)
      → IsFair n h id turn
      → n ≤ length w.fibers
      → IsLoop w h idle_fiber
      → All (Fits w h) ts
      → All (IsOwn id) ts
      → IsServing h idle_fiber id w (post_all (record s { tasks = ts }) (turn.posts w))
  posted-IsServing turn w s ts fair more is_loop fits own =
      let all : (post_all (record s { tasks = ts }) (turn.posts w)).tasks ≡ ts ++ turn.posts w =
        post_all-tasks w h (record s { tasks = ts }) (turn.posts w) (fair w more).0 in
      record {
        is_loop = is_loop;
        fits =
            subst (All (Fits w h)) (sym all)
              (All-append (Fits w h) ts (turn.posts w) fits (fair w more).0);
        own =
            subst (All (IsOwn id)) (sym all)
              (All-append (IsOwn id) ts (turn.posts w) own (fair w more).1);
      }

  -- A thread in the loop of `run` whose fibers are in order and whose queue has no task for another
  -- thread, while as many rounds as there are tasks before `t` in the queue post any tasks that this
  -- thread may run, the code of each task yielding or returning without resuming a fiber itself, system
  -- calls succeeding: the rounds return without a fault, and then `t` is the first in the queue. The
  -- next round takes it, and its fiber, or a new one for its callback, has the thread, unless that fiber
  -- has ended.
  pub run_turns-Serves :
      (turns : List Turn) (leaves : Leaves) (before : List Task) (t : Task) (after : List Task)
      (w : World) (s : Scheduler)
      → n ≤ length w.fibers
      → IsServing h idle_fiber id w s
      → s.tasks ≡ before ++ t ∷ after
      → length turns ≡ length before
      → All (IsFair n h id) turns
      → Serves turns leaves t w s
  unfolding run_turns
  run_turns-Serves [] leaves [] t after w s more v split same fair = record {
    before = w;
    queue = s;
    waits = refl;
    later = after;
    at_head = split;
    serving = v;
    grown = more;
    turn = round-First w h idle_fiber v.is_loop s id leaves t after split v.fits v.own;
  }
  run_turns-Serves [] leaves (u ∷ before) t after w s more v split same fair =
      absurd (omega (arith, same))
  run_turns-Serves (turn ∷ turns) leaves [] t after w s more v split same fair =
      absurd (omega (arith, same))
  run_turns-Serves (turn ∷ turns) leaves (u ∷ before) t after w s more v split same (fair, fairs) =
      let ts = before ++ t ∷ after in
      let r = round-First w h idle_fiber v.is_loop s id turn.leaves u ts split v.fits v.own in
      let s' : Scheduler = record s { tasks = ts } in
      let more' : n ≤ length r.world.fibers = omega (arith, r.grown, more) in
      let posted = post_all s' (turn.posts r.world) in
      let d =
        run_turns-Serves turns leaves before t (after ++ turn.posts r.world) r.world posted more'
          (posted-IsServing turn r.world s ts fair more' r.is_loop r.fits r.own)
          (post_all-tasks r.world h s' (turn.posts r.world) (fair r.world more').0
            ∙ append_assoc before (t ∷ after) (turn.posts r.world))
          (omega (arith, same)) fairs in
      record {
        before = d.before;
        queue = d.queue;
        waits = turn_on turn turns w s r.world s' r.runs ∙ d.waits;
        later = d.later;
        at_head = d.at_head;
        serving = d.serving;
        grown = d.grown;
        turn = d.turn;
      }
