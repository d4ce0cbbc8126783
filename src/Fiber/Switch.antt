-- ===== src/Fiber/Switch.antt =====
-- Control passes to a fiber by `resume` (src/fiber/fiber.cc).
use coroutinelib.Base.{
  ℕ, ◌<◌, ◌≡◌, ◌≢◌, refl, sym, subst, ap, ap₂, ◌∙◌, some, false, arith, ◌⊎◌, inl, inr, length,
  get_or-set_self, get_or-set_ne, length-set,
}
use coroutinelib.Faults.{Result}
use coroutinelib.Fiber.{
  World, Fiber, State, Context, fiber_at, put_fiber, home, no_fiber, swap_context, resume, set_this,
}

pub at-put_self :
    (w : World) (i : ℕ) (f : Fiber) → i < length w.fibers → fiber_at (put_fiber w i f) i ≡ f
at-put_self w i f h = get_or-set_self w.fibers i f no_fiber h

pub at-put_ne :
    (w : World) (i j : ℕ) (f : Fiber) → i ≢ j → fiber_at (put_fiber w i f) j ≡ fiber_at w j
at-put_ne w i j f n = get_or-set_ne w.fibers i j f no_fiber n

-- The context of fiber `i` leads into the code of fiber `i`: to its beginning or to where it left off.
abbrev pub Own : ℕ → Context → Type 0
Own i c = (c ≡ Context.entry) ⊎ (c ≡ Context.saved i)

-- After a switch of contexts from `save` to `load`.
pub record Switched (w : World) (save load : ℕ) (w' : World) : Type 0 where
  pub cpu : w'.on_cpu ≡ load
  pub left : fiber_at w' save ≡ record (fiber_at w save) { context = Context.saved w.on_cpu }
  pub rest : (j : ℕ) → j ≢ save → fiber_at w' j ≡ fiber_at w j
  pub current : w'.current ≡ w.current
  pub thread_fiber : w'.thread_fiber ≡ w.thread_fiber
  pub scheduler_fiber : w'.scheduler_fiber ≡ w.scheduler_fiber
  pub size : length w'.fibers ≡ length w.fibers

module _ (w : World) (save load : ℕ) where
  abbrev pub stored : World
  stored = put_fiber w save (record (fiber_at w save) { context = Context.saved w.on_cpu })

  stored-Switched : save < length w.fibers → Switched w save load (record stored { on_cpu = load })
  stored-Switched h = record {
    cpu = refl;
    left = at-put_self w save _ h;
    rest = λ j n. at-put_ne w save j _ (λ e. n (sym e));
    current = refl;
    thread_fiber = refl;
    scheduler_fiber = refl;
    size = length-set w.fibers save _;
  }

  swap_context-entry :
      (fiber_at stored load).context ≡ Context.entry
      → swap_context w save load false ≡ Result.ok (record stored { on_cpu = load })
  unfolding swap_context
  swap_context-entry e = rw (e, swap_context)

  swap_context-saved :
      (fiber_at stored load).context ≡ Context.saved load
      → swap_context w save load false ≡ Result.ok (record stored { on_cpu = load })
  unfolding swap_context
  swap_context-saved e = rw (e, swap_context)

  -- The code that goes on is the one whose place was saved there.
  pub swap_context-saved_in :
      (owner : ℕ)
      → save < length w.fibers
      → save ≢ load
      → (fiber_at w load).context ≡ Context.saved owner
      → (w' : World) × (swap_context w save load false ≡ Result.ok w') × Switched w save owner w'
  swap_context-saved_in owner h n e = (
    record stored { on_cpu = owner },
    goes (ap (λ (f : Fiber). f.context) (at-put_ne w save load _ n) ∙ e),
    record {
      cpu = refl;
      left = at-put_self w save _ h;
      rest = λ j m. at-put_ne w save j _ (λ q. m (sym q));
      current = refl;
      thread_fiber = refl;
      scheduler_fiber = refl;
      size = length-set w.fibers save _;
    },
  )
    where
      goes :
          (fiber_at stored load).context ≡ Context.saved owner
          → swap_context w save load false ≡ Result.ok (record stored { on_cpu = owner })
      goes e = unfold swap_context in rw e refl

  pub swap_context-Switched :
      save < length w.fibers
      → save ≢ load
      → Own load (fiber_at w load).context
      → (w' : World) × (swap_context w save load false ≡ Result.ok w') × Switched w save load w'
  swap_context-Switched h n own = (
    record stored { on_cpu = load },
    elim own [
      | inl e ↦ swap_context-entry (ap (λ (f : Fiber). f.context) (at-put_ne w save load _ n) ∙ e)
      | inr e ↦ swap_context-saved (ap (λ (f : Fiber). f.context) (at-put_ne w save load _ n) ∙ e)
    ],
    stored-Switched h,
  )

-- What `resume` of fiber `i` by its home `h` does.
pub record Resumed (w : World) (i h : ℕ) (w' : World) : Type 0 where
  pub cpu : w'.on_cpu ≡ i
  pub current : w'.current ≡ some i
  pub fiber : fiber_at w' i ≡ record (fiber_at w i) { state = State.running }
  pub caller : fiber_at w' h ≡ record (fiber_at w h) { context = Context.saved h }
  pub rest : (j : ℕ) → j ≢ i → j ≢ h → fiber_at w' j ≡ fiber_at w j
  pub thread_fiber : w'.thread_fiber ≡ w.thread_fiber
  pub scheduler_fiber : w'.scheduler_fiber ≡ w.scheduler_fiber
  pub size : length w'.fibers ≡ length w.fibers

module _ (w : World) (i h : ℕ) (known : i < length w.fibers) (home_known : h < length w.fibers)
    (apart : i ≢ h) where
  abbrev pub started : World
  started = set_this (put_fiber w i (record (fiber_at w i) { state = State.running })) (some i)

  pub resume-eq :
      (fiber_at w i).state ≡ State.ready
      → home w (fiber_at w i) ≡ some h
      → resume w i false ≡ swap_context started h i false
  unfolding resume
  resume-eq r e = rw (r, e, resume)

  pub started-i : fiber_at started i ≡ record (fiber_at w i) { state = State.running }
  started-i = at-put_self w i _ known

  pub started-ne : (j : ℕ) → j ≢ i → fiber_at started j ≡ fiber_at w j
  started-ne j n = at-put_ne w i j _ (λ e. n (sym e))

  -- `resume` of a ready fiber `i`, called from the code of the fiber that `i` yields to: `i` runs on the
  -- thread and is the thread's current fiber, its caller's context holds the caller's own code, and no
  -- other fiber changes.
  pub resume-enters :
      (fiber_at w i).state ≡ State.ready
      → home w (fiber_at w i) ≡ some h
      → w.on_cpu ≡ h
      → Own i (fiber_at w i).context
      → (w' : World) × (resume w i false ≡ Result.ok w') × Resumed w i h w'
  resume-enters r e c own =
      let (w', runs, s) =
        swap_context-Switched started h i (omega (arith, length-set w.fibers i _))
          (λ q. apart (sym q)) (subst (λ (f : Fiber). Own i f.context) (sym started-i) own) in
      (
        w',
        resume-eq r e ∙ runs,
        record {
          cpu = s.cpu;
          current = s.current;
          fiber = s.rest i apart ∙ started-i;
          caller =
              s.left
              ∙ ap₂ (λ (f : Fiber) (k : ℕ). record f { context = Context.saved k })
                  (started-ne h (λ q. apart (sym q))) c;
          rest = λ j ni nh. s.rest j nh ∙ started-ne j ni;
          thread_fiber = s.thread_fiber;
          scheduler_fiber = s.scheduler_fiber;
          size = s.size ∙ length-set w.fibers i _;
        },
      )
