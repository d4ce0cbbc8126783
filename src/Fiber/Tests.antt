-- ===== src/Fiber/Tests.antt =====
-- A thread with a main fiber and one fiber that is ready, and the theorems on src/fiber/fiber.cc applied
-- to it.
use coroutinelib.Base.{◌≡◌, refl, none, some, true, false, List, [], ◌∷◌, arith, inl, length, All}
use coroutinelib.Faults.{Result, ◌>>=◌}
use coroutinelib.Callback.{Callback}
use coroutinelib.Fiber.{World, Fiber, State, Context, fiber_at, resume, yield}
use coroutinelib.Fiber.Life.{IsResumable, Back, resume-yield}
use coroutinelib.Fiber.Nested.{MayResume, nested-loses_home}
use coroutinelib.Fiber.Ids.{new_fibers, new_fibers-same_id}

abbrev main_fiber : Fiber
main_fiber = record {
  id = 0;
  state = State.running;
  context = Context.saved 0;
  stack = none;
  cb = none;
  run_in_scheduler = false;
}

abbrev worker : State → Fiber
worker state = record {
  id = 1;
  state = state;
  context = Context.entry;
  stack = some 128000;
  cb = some (Callback.user 1);
  run_in_scheduler = true;
}

abbrev thread : State → World
thread state = record {
  fibers = main_fiber ∷ worker state ∷ [];
  current = some 0;
  thread_fiber = some 0;
  scheduler_fiber = some 0;
  on_cpu = 0;
  fiber_id = 1;
  fiber_count = 2;
}

thread-IsResumable : IsResumable (thread State.ready) 1 0
thread-IsResumable = record {
  known = omega arith;
  home_known = omega arith;
  apart = λ e. omega arith;
  is_ready = refl;
  to_home = refl;
  on_cpu = refl;
  own = inl refl;
}

resume-yield_example :
    (w' : World) × ((resume (thread State.ready) 1 false >>= λ u. yield u 1 false) ≡ Result.ok w')
    × Back (thread State.ready) 1 0 (record (worker State.ready) { context = Context.saved 1 }) w'
resume-yield_example = resume-yield (thread State.ready) 1 0 thread-IsResumable

new_fibers-same_id_example :
    (w' : World) × (fs : List Fiber) × (new_fibers
        (thread State.ready)
        (none ∷ some (Callback.user 2) ∷ [])
      ≡ Result.ok w')
    × (w'.fibers ≡ main_fiber ∷ worker State.ready ∷ fs)
    × (length fs ≡ 2)
    × All (λ (f : Fiber). f.id ≡ 1) fs
new_fibers-same_id_example =
    new_fibers-same_id (thread State.ready) (none ∷ some (Callback.user 2) ∷ [])

-- Fiber 1 runs, and can resume fiber 2.
abbrev nested : World
nested = record {
  fibers =
      main_fiber
      ∷ record (worker State.running) { context = Context.saved 1 }
      ∷ worker State.ready
      ∷ [];
  current = some 1;
  thread_fiber = some 0;
  scheduler_fiber = some 0;
  on_cpu = 1;
  fiber_id = 2;
  fiber_count = 3;
}

nested-MayResume : MayResume nested 1 2 0
nested-MayResume = record {
  i_known = omega arith;
  j_known = omega arith;
  h_known = omega arith;
  i_j = λ e. omega (arith, e);
  i_h = λ e. omega (arith, e);
  j_h = λ e. omega (arith, e);
  on_cpu = refl;
  running = refl;
  ready = refl;
  own = inl refl;
  i_in_scheduler = refl;
  j_in_scheduler = refl;
  scheduler = refl;
}

nested-loses_home_example :
    (w' : World) × ((resume nested 2 false >>= λ u. yield u 2 false >>= λ x. yield x 1 false)
      ≡ Result.ok w')
    × (w'.on_cpu ≡ 1)
    × (w'.current ≡ some 0)
    × ((fiber_at w' 0).context ≡ Context.saved 1)
nested-loses_home_example = nested-loses_home nested 1 2 0 nested-MayResume
