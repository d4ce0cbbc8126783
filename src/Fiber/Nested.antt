-- ===== src/Fiber/Nested.antt =====
-- A fiber that resumes another one (src/fiber/fiber.cc): both go back to the same place.
use coroutinelib.Base.{
  ℕ, ◌<◌, ◌≡◌, ◌≢◌, sym, subst, ap, ◌∙◌, some, true, false, inl, arith, length, length-set,
}
use coroutinelib.Faults.{Result, ◌>>=◌}
use coroutinelib.Fiber.{World, Fiber, State, Context, fiber_at, home, resume, yield}
use coroutinelib.Fiber.Switch.{
  Own, swap_context-Switched, swap_context-saved_in, resume-eq, started, started-i, started-ne,
}
use coroutinelib.Fiber.Returns.{yield-eq, stopped, stopped-Stopped}

-- The code of `owner` goes on, and `h` is the thread's current fiber.
pub record GoesOn (w : World) (i h owner : ℕ) (w' : World) : Type 0 where
  pub cpu : w'.on_cpu ≡ owner
  pub current : w'.current ≡ some h
  pub rest : (j : ℕ) → j ≢ i → fiber_at w' j ≡ fiber_at w j
  pub scheduler_fiber : w'.scheduler_fiber ≡ w.scheduler_fiber
  pub size : length w'.fibers ≡ length w.fibers

home-scheduler :
    (w : World) (f : Fiber) (h : ℕ)
    → f.run_in_scheduler ≡ true
    → w.scheduler_fiber ≡ some h
    → home w f ≡ some h
home-scheduler w f h e s = rw e s

-- `yield` goes to the code whose place the home fiber holds.
yield-GoesOn :
    (w : World) (i h owner : ℕ)
    → i < length w.fibers
    → i ≢ h
    → (fiber_at w i).state ≡ State.running
    → (fiber_at w i).run_in_scheduler ≡ true
    → w.scheduler_fiber ≡ some h
    → (fiber_at w h).context ≡ Context.saved owner
    → (w' : World) × (yield w i false ≡ Result.ok w') × GoesOn w i h owner w'
yield-GoesOn w i h owner known apart running in_scheduler s held =
    let st = stopped-Stopped w i h known apart (inl running) in
    let (w', runs, b) =
      swap_context-saved_in (stopped w i h known apart) i h owner (omega (arith, st.size, known))
        apart (ap (λ (f : Fiber). f.context) (st.other h (λ q. apart (sym q))) ∙ held) in
    (
      w',
      yield-eq w i h known apart (inl running) (home-scheduler w (fiber_at w i) h in_scheduler s)
          ∙ runs,
      record {
        cpu = b.cpu;
        current = b.current ∙ st.current;
        rest = λ j n. b.rest j n ∙ st.other j n;
        scheduler_fiber = b.scheduler_fiber ∙ st.scheduler_fiber;
        size = b.size ∙ st.size;
      },
    )

-- Fiber `i` runs, and its home `h` is the scheduler's fiber, which is that of `j` too.
pub record MayResume (w : World) (i j h : ℕ) : Type 0 where
  pub i_known : i < length w.fibers
  pub j_known : j < length w.fibers
  pub h_known : h < length w.fibers
  pub i_j : i ≢ j
  pub i_h : i ≢ h
  pub j_h : j ≢ h
  pub on_cpu : w.on_cpu ≡ i
  pub running : (fiber_at w i).state ≡ State.running
  pub ready : (fiber_at w j).state ≡ State.ready
  pub own : Own j (fiber_at w j).context
  pub i_in_scheduler : (fiber_at w i).run_in_scheduler ≡ true
  pub j_in_scheduler : (fiber_at w j).run_in_scheduler ≡ true
  pub scheduler : w.scheduler_fiber ≡ some h

module _ (w : World) (i j h : ℕ) (v : MayResume w i j h) where
  -- The world in which `j` runs.
  record Inside (u : World) : Type 0 where
    holds : (fiber_at u h).context ≡ Context.saved i
    inner : fiber_at u j ≡ record (fiber_at w j) { state = State.running }
    outer : fiber_at u i ≡ fiber_at w i
    scheduler_fiber : u.scheduler_fiber ≡ some h
    size : length u.fibers ≡ length w.fibers

  inside : (u : World) × (resume w j false ≡ Result.ok u) × Inside u
  inside =
      let s = started w j h v.j_known v.h_known v.j_h in
      let s_j = started-i w j h v.j_known v.h_known v.j_h in
      let s_ne = started-ne w j h v.j_known v.h_known v.j_h in
      let (u, runs, b) =
        swap_context-Switched s h j (omega (arith, length-set w.fibers j _, v.h_known))
          (λ q. v.j_h (sym q)) (subst (λ (f : Fiber). Own j f.context) (sym s_j) v.own) in
      (
        u,
        resume-eq w j h v.j_known v.h_known v.j_h v.ready
              (home-scheduler w (fiber_at w j) h v.j_in_scheduler v.scheduler)
            ∙ runs,
        record {
          holds = ap (λ (f : Fiber). f.context) b.left ∙ ap Context.saved v.on_cpu;
          inner = b.rest j v.j_h ∙ s_j;
          outer = b.rest i v.i_h ∙ s_ne i v.i_j;
          scheduler_fiber = b.scheduler_fiber ∙ v.scheduler;
          size = b.size ∙ length-set w.fibers j _;
        },
      )

  -- When a running fiber `i` of the scheduler resumes another one, `j`, which yields back to it, and
  -- then yields itself, all without a fault: the code of `i` goes on instead of the scheduler's, while
  -- the thread's current fiber is the scheduler's, whose saved place is still the one that the nested
  -- `resume` put there, in the code of `i`.
  pub nested-loses_home :
      (w' : World) × ((resume w j false >>= λ u. yield u j false >>= λ x. yield x i false)
        ≡ Result.ok w')
      × (w'.on_cpu ≡ i)
      × (w'.current ≡ some h)
      × ((fiber_at w' h).context ≡ Context.saved i)
  nested-loses_home =
      let (u, resumes, a) = inside in
      let (x, yields, b) =
        yield-GoesOn u j h i (omega (arith, a.size, v.j_known)) v.j_h
          (ap (λ (f : Fiber). f.state) a.inner)
          (ap (λ (f : Fiber). f.run_in_scheduler) a.inner ∙ v.j_in_scheduler) a.scheduler_fiber
          a.holds in
      let outer : fiber_at x i ≡ fiber_at w i = b.rest i v.i_j ∙ a.outer in
      let held : (fiber_at x h).context ≡ Context.saved i =
        ap (λ (f : Fiber). f.context) (b.rest h (λ q. v.j_h (sym q))) ∙ a.holds in
      let (w', yields_again, c) =
        yield-GoesOn x i h i (omega (arith, b.size, a.size, v.i_known)) v.i_h
          (ap (λ (f : Fiber). f.state) outer ∙ v.running)
          (ap (λ (f : Fiber). f.run_in_scheduler) outer ∙ v.i_in_scheduler)
          (b.scheduler_fiber ∙ a.scheduler_fiber) held in
      (
        w',
        rw (resumes, yields) yields_again,
        c.cpu,
        c.current,
        ap (λ (f : Fiber). f.context) (c.rest h (λ q. v.i_h (sym q))) ∙ held,
      )
