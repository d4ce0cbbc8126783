-- ===== src/Fiber/Returns.antt =====
-- Control comes back from a fiber by `yield` (src/fiber/fiber.cc).
use coroutinelib.Base.{
  ℕ, ◌<◌, ◌≡◌, ◌≢◌, refl, sym, subst, ap, ap₂, ◌∙◌, some, false, arith, ◌⊎◌, inl, inr, length,
  length-set,
}
use coroutinelib.Faults.{Result}
use coroutinelib.Fiber.{
  World, Fiber, State, Context, fiber_at, put_fiber, home, swap_context, yield, mark_ready,
  set_this,
}
use coroutinelib.Fiber.Switch.{Own, swap_context-Switched, at-put_self, at-put_ne}

-- The state that `yield` leaves a fiber in.
abbrev pub after_yield : State → State
after_yield State.term = State.term
after_yield _ = State.ready

-- What `yield` of fiber `i` to its home `h` does.
pub record Yielded (w : World) (i h : ℕ) (w' : World) : Type 0 where
  pub cpu : w'.on_cpu ≡ h
  pub current : w'.current ≡ some h
  pub fiber : fiber_at w' i ≡ record (fiber_at w i) {
    state = after_yield (fiber_at w i).state;
    context = Context.saved i;
  }
  pub rest : (j : ℕ) → j ≢ i → fiber_at w' j ≡ fiber_at w j
  pub thread_fiber : w'.thread_fiber ≡ w.thread_fiber
  pub scheduler_fiber : w'.scheduler_fiber ≡ w.scheduler_fiber
  pub size : length w'.fibers ≡ length w.fibers

module _ (w : World) (i h : ℕ) (known : i < length w.fibers) (apart : i ≢ h) where
  abbrev pub stopped : World
  stopped = set_this (mark_ready w i) (some h)

  pub yield-eq :
      ((fiber_at w i).state ≡ State.running) ⊎ ((fiber_at w i).state ≡ State.term)
      → home w (fiber_at w i) ≡ some h
      → yield w i false ≡ swap_context stopped i h false
  unfolding yield
  yield-eq (inl r) e = rw (r, e, yield)
  yield-eq (inr r) e = rw (r, e, yield)

  -- The world before the switch differs from `w` in the state of fiber `i`.
  pub record Stopped (s : World) : Type 0 where
    pub cpu : s.on_cpu ≡ w.on_cpu
    pub current : s.current ≡ some h
    pub self : fiber_at s i ≡ record (fiber_at w i) { state = after_yield (fiber_at w i).state }
    pub other : (j : ℕ) → j ≢ i → fiber_at s j ≡ fiber_at w j
    pub thread_fiber : s.thread_fiber ≡ w.thread_fiber
    pub scheduler_fiber : s.scheduler_fiber ≡ w.scheduler_fiber
    pub size : length s.fibers ≡ length w.fibers

  mark_ready-running :
      (fiber_at w i).state ≡ State.running
      → mark_ready w i ≡ put_fiber w i (record (fiber_at w i) { state = State.ready })
  unfolding mark_ready
  mark_ready-running r = rw (r, mark_ready)

  mark_ready-term : (fiber_at w i).state ≡ State.term → mark_ready w i ≡ w
  unfolding mark_ready
  mark_ready-term r = rw (r, mark_ready)

  pub stopped-Stopped :
      ((fiber_at w i).state ≡ State.running) ⊎ ((fiber_at w i).state ≡ State.term) → Stopped stopped
  stopped-Stopped (inl r) =
      subst (λ (s : World). Stopped (set_this s (some h))) (sym (mark_ready-running r))
        (record {
          cpu = refl;
          current = refl;
          self =
              at-put_self w i _ known
              ∙ ap (λ (t : State). record (fiber_at w i) { state = after_yield t }) (sym r);
          other = λ j n. at-put_ne w i j _ (λ e. n (sym e));
          thread_fiber = refl;
          scheduler_fiber = refl;
          size = length-set w.fibers i _;
        })
  stopped-Stopped (inr r) =
      subst (λ (s : World). Stopped (set_this s (some h))) (sym (mark_ready-term r))
        (record {
          cpu = refl;
          current = refl;
          self =
              ap (λ (t : State). record (fiber_at w i) { state = t }) r
              ∙ ap (λ (t : State). record (fiber_at w i) { state = after_yield t }) (sym r);
          other = λ j n. refl;
          thread_fiber = refl;
          scheduler_fiber = refl;
          size = refl;
        })

  -- `yield` of a running or ended fiber `i` from its own code: the code that its home `h` left goes on,
  -- as the thread's current fiber; `i` is ready again unless it has ended, its context holds where it
  -- left off, and no other fiber changes.
  pub yield-returns :
      ((fiber_at w i).state ≡ State.running) ⊎ ((fiber_at w i).state ≡ State.term)
      → home w (fiber_at w i) ≡ some h
      → w.on_cpu ≡ i
      → Own h (fiber_at w h).context
      → (w' : World) × (yield w i false ≡ Result.ok w') × Yielded w i h w'
  yield-returns r e c own =
      let st = stopped-Stopped r in
      let (w', runs, s) =
        swap_context-Switched stopped i h (omega (arith, st.size)) apart
          (subst (λ (f : Fiber). Own h f.context) (sym (st.other h (λ q. apart (sym q)))) own) in
      (
        w',
        yield-eq r e ∙ runs,
        record {
          cpu = s.cpu;
          current = s.current ∙ st.current;
          fiber =
              s.left
              ∙ ap₂ (λ (f : Fiber) (k : ℕ). record f { context = Context.saved k }) st.self
                  (st.cpu ∙ c);
          rest = λ j n. s.rest j n ∙ st.other j n;
          thread_fiber = s.thread_fiber ∙ st.thread_fiber;
          scheduler_fiber = s.scheduler_fiber ∙ st.scheduler_fiber;
          size = s.size ∙ st.size;
        },
      )
