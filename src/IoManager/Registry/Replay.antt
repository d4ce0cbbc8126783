-- ===== src/IoManager/Registry/Replay.antt =====
-- Any sequence of event calls of src/iomanager/ioscheduler.cc, against the registry.
use coroutinelib.Base.{ℕ, ◌≡◌, refl, sym, subst, ap, ◌∙◌, Bool, List, [], ◌∷◌, length}
use coroutinelib.Faults.{Result, ◌>>=◌}
use coroutinelib.IoManager.{IoManager}
use coroutinelib.IoManager.Kernel.{Call, run}
use coroutinelib.IoManager.Invariant.{Inv}
use coroutinelib.IoManager.Registry.{Registry, replay, AreServed}
use coroutinelib.IoManager.Registry.View.{view}
use coroutinelib.IoManager.Registry.Steps.{call-Serves}

-- The calls one after the other, each with the result of its `epoll_ctl`.
unfoldable pub run_calls : IoManager → List (Call × Bool) → Result IoManager
unfolding run
run_calls m [] = Result.ok m
run_calls m ((c, fails) ∷ cs) = run m c fails >>= λ m'. run_calls m' cs

-- From a manager in order, any sequence of `addEvent`, `delEvent`, `cancelEvent`, `cancelAll` and
-- reports of ready descriptors, with any results of `epoll_ctl`, that keeps to what the registry
-- expects returns without a fault and leaves the manager in order; the contexts and the task queue
-- then stand for what the registry makes of the same calls.
pub calls-refine :
    (m : IoManager) (cs : List (Call × Bool))
    → Inv m
    → AreServed (length m.contexts) (view m) cs
    → (m' : IoManager) × (run_calls m cs ≡ Result.ok m') × Inv m' × (view m' ≡ replay (view m) cs)
unfolding run_calls
calls-refine m [] v h = (m, refl, v, refl)
calls-refine m ((c, fails) ∷ cs) v (served, rest) =
    let w = call-Serves m c fails v served in
    let (m', runs, inv, same) = calls-refine w.io cs w.inv (
      subst (λ (n : ℕ). AreServed n (view w.io) cs) (sym w.size)
        (subst (λ (r : Registry). AreServed (length m.contexts) r cs) (sym w.view) rest)) in
    (m', rw (w.runs) runs, inv, same ∙ ap (λ (r : Registry). replay r cs) w.view)
