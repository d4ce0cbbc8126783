-- ===== src/Scheduler/Dispatch/First.antt =====
-- A round of `Scheduler::run` whose queue starts with a task for the thread
-- (src/scheduler/scheduler.cc).
use coroutinelib.Base.{
  ℕ, ◌≤◌, ◌≡◌, refl, sym, subst, ap, ◌∙◌, Option, some, true, false, List, [], ◌∷◌, ◌++◌, arith,
  All, length, length-append,
}
use coroutinelib.Faults.{Result}
use coroutinelib.Fiber.{World}
use coroutinelib.Scheduler.{Scheduler, Task, no_task, is_foreign}
use coroutinelib.Scheduler.Dispatch.{Leaves, round}
use coroutinelib.Scheduler.Dispatch.Rounds.{IsLoop}
use coroutinelib.Scheduler.Dispatch.Keeps.{HasRun, Rounded, Fits, round-Rounded}

HasRun-size :
    (w : World) (h : ℕ) (leaves : Leaves) (t : Task) (w' : World)
    → HasRun w h leaves t w'
    → length w.fibers ≤ length w'.fibers
HasRun-size w h leaves t w' (HasRun.fiber_ended f e over same) =
    omega (arith, ap (λ (u : World). length u.fibers) same)
HasRun-size w h leaves t w' (HasRun.fiber_ran f e b) = omega (arith, b.size)
HasRun-size w h leaves t w' (HasRun.callback_ran cb e e' b) =
    omega (arith, b.size, length-append w.fibers _)

-- No task is for another thread.
abbrev pub IsOwn : ℕ → Task → Type 0
IsOwn id t = is_foreign id t ≡ false

none_foreign :
    (id : ℕ) (ts : List Task) → All (IsOwn id) ts → All (λ t. is_foreign id t ≡ true) ts → ts ≡ []
none_foreign id [] own all = refl
none_foreign id (t ∷ ts) (own, owns) (foreign, rest) = absurd cc

none_passed :
    (id : ℕ) (passed : List Task) (t : Task) (rest : List Task)
    → All (IsOwn id) (passed ++ t ∷ rest)
    → All (λ u. is_foreign id u ≡ true) passed
    → passed ≡ []
none_passed id [] t rest own all = refl
none_passed id (u ∷ passed) t rest (own, owns) (foreign, others) = absurd cc

Fits-grown :
    (w w' : World) (h : ℕ) (ts : List Task)
    → length w.fibers ≤ length w'.fibers
    → All (Fits w h) ts
    → All (Fits w' h) ts
Fits-grown w w' h [] more all = tt
Fits-grown w w' h (t ∷ ts) more ((is, apart), all) = (
  (is, λ f e. (omega (arith, (apart f e).0, more), (apart f e).1)),
  Fits-grown w w' h ts more all,
)

-- The first task has had the thread, and the others are left in the queue.
pub record First (w : World) (h idle_fiber : ℕ) (s : Scheduler) (id : ℕ) (leaves : Leaves)
    (t : Task) (ts : List Task) : Type 0 where
  pub world : World
  pub runs :
      round w s idle_fiber id leaves false ≡ Result.ok (some (world, record s { tasks = ts }))
  pub has_run : HasRun w h leaves t world
  pub is_loop : IsLoop world h idle_fiber
  pub fits : All (Fits world h) ts
  pub own : All (IsOwn id) ts
  pub grown : length w.fibers ≤ length world.fibers

tail : List Task → List Task
tail [] = []
tail (t ∷ ts) = ts

head : List Task → Task
head [] = no_task
head (t ∷ ts) = t

module _ (w : World) (h idle_fiber : ℕ) (v : IsLoop w h idle_fiber) (s : Scheduler) (id : ℕ)
    (leaves : Leaves) (t : Task) (ts : List Task) (split : s.tasks ≡ t ∷ ts)
    (fits : All (Fits w h) s.tasks) (own : All (IsOwn id) s.tasks) where
  busy : All (λ u. is_foreign id u ≡ true) s.tasks → ⊥
  busy all = let none_left = none_foreign id s.tasks own all in cc

  ran-First :
      (w' : World) (s' : Scheduler)
      → round w s idle_fiber id leaves false ≡ Result.ok (some (w', s'))
      → s' ≡ record s { tasks = ts }
      → HasRun w h leaves t w'
      → IsLoop w' h idle_fiber
      → First w h idle_fiber s id leaves t ts
  ran-First w' s' runs same has_run is_loop = record {
    world = w';
    runs = runs ∙ ap (λ (x : Scheduler). Result.ok (some (w', x))) same;
    has_run = has_run;
    is_loop = is_loop;
    fits =
        Fits-grown w w' h ts (HasRun-size w h leaves t w' has_run)
          (subst (All (Fits w h)) split fits).1;
    own = (subst (All (IsOwn id)) split own).1;
    grown = HasRun-size w h leaves t w' has_run;
  }

  pub round-First : First w h idle_fiber s id leaves t ts
  unfolding tail head
  round-First =
      from (round w s idle_fiber id leaves false) refl
        (round-Rounded w h idle_fiber v leaves s id fits)
    where
      from :
          (r : Result (Option (World × Scheduler)))
          → round w s idle_fiber id leaves false ≡ r
          → Rounded w h idle_fiber s id leaves r
          → First w h idle_fiber s id leaves t ts
      from _ q (Rounded.ran {w'} {s'} [] u rest at takes all mine same has_run is_loop) =
          ran-First w' s' q
            (same ∙ ap (λ (us : List Task). record s { tasks = us }) (ap tail (sym at ∙ split)))
            (subst (λ (x : Task). HasRun w h leaves x w') (ap head (sym at ∙ split)) has_run)
            is_loop
      from _ q (Rounded.ran (x ∷ passed) u rest at takes all mine same has_run is_loop) =
          let none_before =
            none_passed id (x ∷ passed) u rest (subst (All (IsOwn id)) at own) all in
          absurd cc
      from _ q (Rounded.idled takes all ready same b is_loop) = absurd (busy all)
      from _ q (Rounded.left_loop takes all ended) = absurd (busy all)
