-- ===== src/Fiber/Ids.antt =====
-- The ids of fibers and the thread's first fiber (src/fiber/fiber.cc).
use mathlib.Core.List.{append_assoc, append-nil}
use coroutinelib.Base.{
  ℕ, suc, ◌+◌, ◌%◌, ◌^◌, ◌≡◌, refl, sym, ap, ◌∙◌, Option, none, some, Bool, true, false, List, [],
  ◌∷◌, ◌++◌, All, length, get_or-append_length,
}
use coroutinelib.Callback.{Callback}
use coroutinelib.Faults.{Result, ◌>>=◌}
use coroutinelib.Fiber.{
  World, Fiber, State, Context, fiber_at, no_fiber, new_fiber, get_this, get_fiber_id,
}

-- `Fiber(cb, stacksize, run_in_scheduler)` for each callback in turn.
pub new_fibers : World → List (Option Callback) → Result World
new_fibers w [] = Result.ok w
new_fibers w (cb ∷ cbs) = new_fiber w cb 0 true false >>= λ (p : World × ℕ). new_fibers p.0 cbs

abbrev created : World → Option Callback → Fiber
created w cb = record {
  id = w.fiber_id;
  state = State.ready;
  context = Context.entry;
  stack = some 128000;
  cb = cb;
  run_in_scheduler = true;
}

-- However many fibers are made with callbacks, each gets the same id, the next of the thread's counter:
-- the constructor reads the counter and does not count.
pub new_fibers-same_id :
    (w : World) (cbs : List (Option Callback))
    → (w' : World) × (fs : List Fiber) × (new_fibers w cbs ≡ Result.ok w')
      × (w'.fibers ≡ w.fibers ++ fs)
      × (length fs ≡ length cbs)
      × All (λ (f : Fiber). f.id ≡ w.fiber_id) fs
unfolding new_fibers new_fiber
new_fibers-same_id w [] = (w, [], refl, sym (append-nil w.fibers), refl, tt)
new_fibers-same_id w (cb ∷ cbs) =
    let (w', fs, runs, e, n, same) =
      new_fibers-same_id
        (record w {
          fibers = w.fibers ++ created w cb ∷ [];
          fiber_count = (w.fiber_count + 1) % 2 ^ 64;
        })
        cbs in
    (
      w',
      created w cb ∷ fs,
      runs,
      e ∙ append_assoc w.fibers (created w cb ∷ []) fs,
      ap suc n,
      (refl, same),
    )

abbrev main_fiber : World → Bool → Fiber
main_fiber w garbage = record {
  id = w.fiber_id;
  state = State.running;
  context = Context.saved (length w.fibers);
  stack = none;
  cb = none;
  run_in_scheduler = garbage;
}

-- The first `GetThis` of a thread makes the running main fiber with the next id, which is the current
-- fiber, the thread's fiber and its scheduler fiber; the second call gives the same fiber and changes
-- nothing.
pub get_this-once :
    (w : World) (garbage again : Bool)
    → w.current ≡ none
    → let i = length w.fibers in
      (w' : World) × (get_this w garbage false ≡ Result.ok (w', i))
      × (get_this w' again true ≡ Result.ok (w', i))
      × (w'.current ≡ some i)
      × (w'.thread_fiber ≡ some i)
      × (w'.scheduler_fiber ≡ some i)
      × ((fiber_at w' i).state ≡ State.running)
      × (get_fiber_id w' ≡ w.fiber_id)
unfolding get_this get_fiber_id
get_this-once w garbage again e = (
  record w {
    fibers = w.fibers ++ main_fiber w garbage ∷ [];
    current = some (length w.fibers);
    thread_fiber = some (length w.fibers);
    scheduler_fiber = some (length w.fibers);
    on_cpu = length w.fibers;
    fiber_id = (w.fiber_id + 1) % 2 ^ 64;
    fiber_count = (w.fiber_count + 1) % 2 ^ 64;
  },
  rw (e, get_this),
  refl,
  refl,
  refl,
  refl,
  ap (λ (f : Fiber). f.state) (get_or-append_length w.fibers _ no_fiber),
  ap (λ (f : Fiber). f.id) (get_or-append_length w.fibers _ no_fiber),
)
