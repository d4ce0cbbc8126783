-- ===== src/Scheduler/Lifecycle/Workforce.antt =====
-- The threads of a scheduler (src/scheduler/scheduler.cc), from its constructor to `stop`.
use coroutinelib.Base.{
  ℕ, zero, suc, ◌+◌, ◌-◌, ◌%◌, ◌^◌, ◌≡◌, refl, sym, ap, ◌∙◌, none, some, Bool, true, false, [], ◌∷◌,
  ◌++◌, map, arith, length, length-append, ◌==◌, inl, get_or, get_or-append_length,
  get_or-append_lt,
}
use coroutinelib.Faults.{Fault, Result, ◌>>=◌}
use coroutinelib.Callback.{Callback}
use coroutinelib.Fiber.{
  World, Fiber, State, Context, fiber_at, no_fiber, home, get_this, new_fiber, new_main_fiber,
  set_scheduler_fiber, resume,
}
use coroutinelib.Fiber.Switch.{Resumed, resume-enters}
use coroutinelib.Scheduler.Lifecycle.{
  Pool, made, construct, construct_caller, first, start, Stop, stop, stop_end,
}

length-first : (tids : ℕ → ℕ) (n : ℕ) → length (first tids n) ≡ n
length-first tids zero = refl
length-first tids (suc n) =
    omega (arith, length-append (first tids n) (tids n ∷ []), length-first tids n)

-- The fibers that the constructor makes.
abbrev main_fiber : World → Bool → Fiber
main_fiber w garbage = record {
  id = w.fiber_id;
  state = State.running;
  context = Context.saved (length w.fibers);
  stack = none;
  cb = none;
  run_in_scheduler = garbage;
}

abbrev run_fiber : World → Fiber
run_fiber w = record {
  id = (w.fiber_id + 1) % 2 ^ 64;
  state = State.ready;
  context = Context.entry;
  stack = some 128000;
  cb = some Callback.run_scheduler;
  run_in_scheduler = false;
}

-- The thread after the constructor.
abbrev pub after : World → Bool → World
after w garbage = record w {
  fibers = (w.fibers ++ main_fiber w garbage ∷ []) ++ run_fiber w ∷ [];
  current = some (length w.fibers);
  thread_fiber = some (length w.fibers);
  scheduler_fiber = some (length w.fibers + 1);
  on_cpu = length w.fibers;
  fiber_id = (w.fiber_id + 1) % 2 ^ 64;
  fiber_count = ((w.fiber_count + 1) % 2 ^ 64 + 1) % 2 ^ 64;
}

get_this-new :
    (w : World) (garbage : Bool)
    → w.current ≡ none
    → get_this w garbage false
      ≡ Result.ok (
        record w {
          fibers = w.fibers ++ main_fiber w garbage ∷ [];
          current = some (length w.fibers);
          thread_fiber = some (length w.fibers);
          scheduler_fiber = some (length w.fibers);
          on_cpu = length w.fibers;
          fiber_id = (w.fiber_id + 1) % 2 ^ 64;
          fiber_count = (w.fiber_count + 1) % 2 ^ 64;
        },
        length w.fibers,
      )
unfolding get_this new_main_fiber
get_this-new w garbage e = simp (e, get_this)

construct_caller-eq :
    (w : World) (threads : ℕ) (memory garbage : Bool)
    → w.current ≡ none
    → construct_caller w threads memory garbage false
      ≡ Result.ok
          (after w garbage, made memory (threads - 1) (none ∷ []) (some (length w.fibers + 1)))
unfolding construct_caller new_fiber set_scheduler_fiber
construct_caller-eq w threads memory garbage e =
    rw (get_this-new w garbage e, construct_caller)
      (ap
        (λ (n : ℕ). Result.ok (
          record (after w garbage) { scheduler_fiber = some n },
          made memory (threads - 1) (none ∷ []) (some n),
        ))
        (length-append w.fibers (main_fiber w garbage ∷ [])))

suc-nonzero : (n : ℕ) → (suc n == 0) ≡ false
suc-nonzero n = ground arith

suc-add : (n : ℕ) → n + 1 ≡ suc n
suc-add n = omega arith

suc-pred : (n : ℕ) → suc n - 1 ≡ n
suc-pred n = omega arith

-- The constructor, `start` and `stop` one after the other on a thread, up to the switch in `stop`.
abbrev pub lifetime :
    World → (threads : ℕ) → (use_caller memory garbage : Bool) → (ℕ → ℕ) → Result Stop
lifetime w threads use_caller memory garbage tids =
    construct w false threads use_caller memory garbage false >>= λ (q : World × Pool).
    start q.1 tids >>= λ p. stop p q.0 true false

module _ (w : World) (garbage : Bool) where
  main_at : fiber_at (after w garbage) (length w.fibers) ≡ main_fiber w garbage
  main_at =
      get_or-append_lt (w.fibers ++ main_fiber w garbage ∷ []) (run_fiber w ∷ []) (length w.fibers)
        no_fiber (omega (arith, length-append w.fibers (main_fiber w garbage ∷ [])))
      ∙ get_or-append_length w.fibers (main_fiber w garbage) no_fiber

  run_at : fiber_at (after w garbage) (length w.fibers + 1) ≡ run_fiber w
  run_at =
      ap (λ n. get_or ((w.fibers ++ main_fiber w garbage ∷ []) ++ run_fiber w ∷ []) n no_fiber)
        (sym (length-append w.fibers (main_fiber w garbage ∷ [])))
      ∙ get_or-append_length (w.fibers ++ main_fiber w garbage ∷ []) (run_fiber w) no_fiber

  size_after : length (after w garbage).fibers ≡ length w.fibers + 2
  size_after = omega (
    arith,
    length-append w.fibers (main_fiber w garbage ∷ []),
    length-append (w.fibers ++ main_fiber w garbage ∷ []) (run_fiber w ∷ []),
  )

  after-resumes :
      (w' : World) × (resume (after w garbage) (length w.fibers + 1) false ≡ Result.ok w')
      × Resumed (after w garbage) (length w.fibers + 1) (length w.fibers) w'
  after-resumes =
      resume-enters (after w garbage) (length w.fibers + 1) (length w.fibers)
        (omega (arith, size_after)) (omega (arith, size_after)) (λ e. omega (arith, e))
        (ap (λ (f : Fiber). f.state) run_at) (ap (home (after w garbage)) run_at) refl
        (inl (ap (λ (f : Fiber). f.context) run_at))

  module _ (fresh : w.current ≡ none) (n : ℕ) (tids : ℕ → ℕ) where
    abbrev started : (memory : Bool) → Pool
    started memory = record (made memory n (none ∷ []) (some (length w.fibers + 1))) {
      threads = first tids n;
      thread_ids = (none ∷ []) ++ map some (first tids n);
    }

    abbrev halted : Pool
    halted = record (started true) { sched = record ((started true).sched) { stop_flag = true } }

    lifetime-eq :
        (memory : Bool)
        → lifetime w (suc n) true memory garbage tids
          ≡ stop (started memory) (after w garbage) true false
    unfolding construct start
    lifetime-eq memory =
        rw
          (
            construct_caller-eq w (suc n) memory garbage fresh,
            suc-nonzero n,
            suc-pred n,
            construct,
            start,
          )
          refl

    -- A scheduler made for `n + 1` threads with the caller as one of them, on a thread without a
    -- current fiber, then started, then stopped there, when the memory of `m_useCaller` reads as
    -- true: `start` has made `n` threads, `stop` sets the flag, calls `tickle` once for each of the
    -- `n + 1` threads, switches to the fiber of the scheduler with the caller's code saved, and is
    -- to join the `n` threads.
    pub stop-runs_caller :
        (p : Pool) × (w' : World) × (lifetime w (suc n) true true garbage tids
          ≡ Result.ok (Stop.waits p w' (suc n)))
        × (p.sched.stop_flag ≡ true)
        × (length (stop_end p).1 ≡ n)
        × Resumed (after w garbage) (length w.fibers + 1) (length w.fibers) w'
    unfolding stop stop_end
    stop-runs_caller =
        let (w', runs, r) = after-resumes in
        (
          halted,
          w',
          lifetime-eq true
              ∙ rw (runs, stop) (ap (λ k. Result.ok (Stop.waits halted w' k)) (suc-add n)),
          refl,
          length-first tids n,
          r,
        )

    -- A scheduler made for `n + 1` threads with the caller as one of them, on a thread without a
    -- current fiber, then started, then stopped there, when the memory of `m_useCaller`, which the
    -- constructor never sets, reads as false: `stop` fails its assertion.
    pub stop-fails : lifetime w (suc n) true false garbage tids ≡ Result.err Fault.assertion
    unfolding stop
    stop-fails = lifetime-eq false ∙ refl
