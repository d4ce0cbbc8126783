-- ===== src/Fiber.antt =====
-- src/fiber/fiber.h and src/fiber/fiber.cc: `Fiber`, the thread-local variables of one thread, and the
-- switch of contexts. A `Fiber*` or `shared_ptr<Fiber>` is an address in the list of all fibers.
pub mod Switch
pub mod Returns
pub mod Life
pub mod Ids
pub mod Nested
mod Tests
use coroutinelib.Base.{
  ℕ, zero, suc, ◌+◌, ◌-◌, ◌%◌, ◌^◌, Option, none, some, Bool, true, false, not, ◌&&◌, ◌||◌, List,
  [], ◌∷◌, ◌++◌, if◌then◌else◌, is_some, length, get_or, set, ◌==◌,
}
use coroutinelib.Faults.{Fault, Result, ◌>>=◌, ◌>>◌, assert, or_exit, non_null}
use coroutinelib.Callback.{Callback}

-- `Fiber::State`.
pub data State : Type 0 where
  ready running term : State

-- A `ucontext_t`: what `makecontext` prepares, which enters `Fiber::MainFunc`, or the point at which
-- the code of some fiber was left by `swapcontext` (or by `getcontext`).
pub data Context : Type 0 where
  entry : Context
  saved : (owner : ℕ) → Context

-- `stack` is `m_stacksize`, if `m_stack` is not null.
pub record Fiber : Type 0 where
  pub id : ℕ
  pub state : State
  pub context : Context
  pub stack : Option ℕ
  pub cb : Option Callback
  pub run_in_scheduler : Bool

-- All fibers, `t_fiber`, `t_thread_fiber` and `t_scheduler_fiber` of the thread, the counters
-- `s_fiber_id` and `s_fiber_count`; `on_cpu` is the fiber whose code the thread executes.
pub record World : Type 0 where
  pub fibers : List Fiber
  pub current : Option ℕ
  pub thread_fiber : Option ℕ
  pub scheduler_fiber : Option ℕ
  pub on_cpu : ℕ
  pub fiber_id : ℕ
  pub fiber_count : ℕ

abbrev pub is_ready : State → Bool
is_ready State.ready = true
is_ready _ = false

abbrev pub is_running : State → Bool
is_running State.running = true
is_running _ = false

abbrev pub is_term : State → Bool
is_term State.term = true
is_term _ = false

abbrev pub no_fiber : Fiber
no_fiber = record {
  id = 0;
  state = State.term;
  context = Context.entry;
  stack = none;
  cb = none;
  run_in_scheduler = false;
}

abbrev pub fiber_at : World → ℕ → Fiber
fiber_at w i = get_or w.fibers i no_fiber

abbrev pub put_fiber : World → ℕ → Fiber → World
put_fiber w i f = record w { fibers = set w.fibers i f }

-- A thread before its first fiber.
abbrev pub fresh_thread : List Fiber → ℕ → ℕ → World
fresh_thread fibers fiber_id fiber_count = record {
  fibers = fibers;
  current = none;
  thread_fiber = none;
  scheduler_fiber = none;
  on_cpu = 0;
  fiber_id = fiber_id;
  fiber_count = fiber_count;
}

-- `SetThis`.
abbrev pub set_this : World → Option ℕ → World
set_this w f = record w { current = f }

-- `SetSchedulerFiber`.
unfoldable pub set_scheduler_fiber : World → Option ℕ → World
set_scheduler_fiber w f = record w { scheduler_fiber = f }

-- The constructor `Fiber()`: it leaves `m_runInScheduler` as the memory holds it. `fails` is the result
-- of `getcontext`.
unfoldable pub new_main_fiber : World → (garbage fails : Bool) → Result World
new_main_fiber w garbage fails =
    let i = length w.fibers in
    do
      or_exit fails
      Result.ok (record w {
        fibers =
            w.fibers
            ++ record {
              id = w.fiber_id;
              state = State.running;
              context = Context.saved i;
              stack = none;
              cb = none;
              run_in_scheduler = garbage;
            }
              ∷ [];
        current = some i;
        on_cpu = i;
        fiber_id = (w.fiber_id + 1) % 2 ^ 64;
        fiber_count = (w.fiber_count + 1) % 2 ^ 64;
      })

-- `GetThis`: the running fiber, or a new main fiber, which is the scheduler fiber too.
unfoldable pub get_this : World → (garbage fails : Bool) → Result (World × ℕ)
unfolding new_main_fiber
get_this w garbage fails = elim w.current [
  | some f ↦ Result.ok (w, f)
  | none ↦
      let i = length w.fibers in
      do
        w' ← new_main_fiber w garbage fails
        Result.ok (record w' { thread_fiber = some i; scheduler_fiber = some i }, i)
]

-- `GetFiberId`, with `(uint64_t)-1` for no fiber.
unfoldable pub get_fiber_id : World → ℕ
get_fiber_id w = elim w.current [ some f ↦ (fiber_at w f).id | none ↦ 2 ^ 64 - 1 ]

-- The constructor `Fiber(cb, stacksize, run_in_scheduler)`.
unfoldable pub new_fiber :
    World → Option Callback → (stacksize : ℕ) → (run_in_scheduler fails : Bool) → Result (World × ℕ)
new_fiber w cb stacksize run_in_scheduler fails = do
  or_exit fails
  Result.ok (
    record w {
      fibers =
          w.fibers
          ++ record {
            id = w.fiber_id;
            state = State.ready;
            context = Context.entry;
            stack = some (if stacksize == 0 then 128000 else stacksize % 2 ^ 32);
            cb = cb;
            run_in_scheduler = run_in_scheduler;
          }
            ∷ [];
      fiber_count = (w.fiber_count + 1) % 2 ^ 64;
    },
    length w.fibers,
  )

-- The destructor, as far as it is seen from outside.
unfoldable pub delete_fiber : World → World
delete_fiber w = record w { fiber_count = (w.fiber_count + 2 ^ 64 - 1) % 2 ^ 64 }

-- `reset`.
unfoldable pub reset : World → ℕ → Option Callback → (fails : Bool) → Result World
reset w i cb fails =
    let f = fiber_at w i in
    do
      assert (is_some f.stack && is_term f.state)
      or_exit fails
      Result.ok (put_fiber w i (record f { state = State.ready; context = Context.entry; cb = cb }))

-- `swapcontext(&save->m_ctx, &load->m_ctx)`: the code that runs is left in `save`, and goes on where
-- `load` says.
unfoldable pub swap_context : World → (save load : ℕ) → (fails : Bool) → Result World
swap_context w save load fails =
    let w' = put_fiber w save (record (fiber_at w save) { context = Context.saved w.on_cpu }) in
    do
      or_exit fails
      elim (fiber_at w' load).context [
        | Context.entry ↦ Result.ok (record w' { on_cpu = load })
        | Context.saved owner ↦ Result.ok (record w' { on_cpu = owner })
      ]

-- The fiber that resumes and that `yield` goes back to: `t_scheduler_fiber` or `t_thread_fiber`.
abbrev pub home : World → Fiber → Option ℕ
home w f = if f.run_in_scheduler then w.scheduler_fiber else w.thread_fiber

-- `resume`, up to the switch to the fiber's code.
unfoldable pub resume : World → ℕ → (fails : Bool) → Result World
resume w i fails =
    let f = fiber_at w i in
    let w' = set_this (put_fiber w i (record f { state = State.running })) (some i) in
    do assert (is_ready f.state); h ← non_null (home w f); swap_context w' h i fails

-- `if (m_state != TERM) m_state = READY;`
unfoldable pub mark_ready : World → ℕ → World
mark_ready w i =
    let f = fiber_at w i in
    if is_term f.state then w else put_fiber w i (record f { state = State.ready })

-- `yield`, up to the switch to the code that resumed the fiber.
unfoldable pub yield : World → ℕ → (fails : Bool) → Result World
yield w i fails =
    let f = fiber_at w i in
    do
      assert (is_running f.state || is_term f.state)
      h ← non_null (home w f)
      swap_context (set_this (mark_ready w i) (home w f)) i h fails

-- `MainFunc` up to the call of the callback: the fiber that `GetThis` gives, and its callback.
unfoldable pub main_func_begin : World → Bool → Result (World × ℕ × Option Callback)
unfolding get_this
main_func_begin w garbage = do
  (w', f) ← get_this w garbage false
  Result.ok (w', f, (fiber_at w' f).cb)

-- `MainFunc` after the callback has returned: the fiber ends, and yields for good.
unfoldable pub main_func_end : World → ℕ → (fails : Bool) → Result World
unfolding yield
main_func_end w i fails =
    yield (put_fiber w i (record (fiber_at w i) { cb = none; state = State.term })) i fails
