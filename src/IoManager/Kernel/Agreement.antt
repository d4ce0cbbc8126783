-- ===== src/IoManager/Kernel/Agreement.antt =====
-- The epoll instance watches each descriptor for the events that the manager has registered
-- (src/iomanager/ioscheduler.cc).
use coroutinelib.Base.{
  ℕ, List, ◌≡◌, ◌≢◌, refl, sym, subst, ap, ◌∙◌, Option, none, some, Bool, true, false, arith, inl,
  inr, Bool-cases, set, get_or, get_or-set_ne, lt_cases, if◌then◌else◌,
}
use coroutinelib.Faults.{Result}
use coroutinelib.Epoll.{Op, Epoll}
use coroutinelib.IoManager.Event.{Event, is_set}
use coroutinelib.IoManager.Context.{FdContext, new_context}
use coroutinelib.IoManager.{IoManager, context_at}
use coroutinelib.IoManager.Kernel.{Call, fd_of, request, run, run_in, add_op, remove_op}
use coroutinelib.IoManager.Invariant.{Inv, OnlyAt, OnlyAt-refl}

-- The events that `epoll_ctl` was given, if any.
abbrev pub watched : Event → Option Event
watched e = if is_set e then some e else none

pub true≢false : true ≢ false
true≢false e = cc

pub kept_elsewhere :
    (m m' : IoManager) (fd other : ℕ)
    → OnlyAt m fd m'
    → fd ≢ other
    → context_at m' other ≡ context_at m other
kept_elsewhere m m' fd other only n =
    ap (λ (cs : List FdContext). get_or cs other (new_context other)) only.contexts
    ∙ get_or-set_ne m.contexts fd other (context_at m' fd) (new_context other) n

module _ (k : Epoll) where
  open k use {State, interest, ctl, ctl_failed, ctl_other, added, modified, deleted}

  -- For every descriptor that is not left aside, as the reading end of the manager's own is.
  abbrev pub Agrees : (aside : ℕ → Type 0) → IoManager → State → Type 0
  Agrees aside m s = (fd : ℕ) → ¬ (aside fd) → interest s fd ≡ watched (context_at m fd).events

  pub add_op-watches :
      (s : State) (fd : ℕ) (events e : Event)
      → is_set e ≡ true
      → (ctl s (add_op events) fd e).1 ≡ false
      → interest (ctl s (add_op events) fd e).0 fd ≡ watched e
  unfolding add_op
  add_op-watches s fd events e set = elim (Bool-cases (is_set events)) [
    | inl h ↦ rw (h, set) (λ ok. (modified s fd e ok).1)
    | inr h ↦ rw (h, set) (λ ok. (added s fd e ok).1)
  ]

  pub remove_op-watches :
      (s : State) (fd : ℕ) (left : Event)
      → (ctl s (remove_op left) fd left).1 ≡ false
      → interest (ctl s (remove_op left) fd left).0 fd ≡ watched left
  unfolding remove_op
  remove_op-watches s fd left = elim (Bool-cases (is_set left)) [
    | inl h ↦ rw h (λ ok. (modified s fd left ok).1)
    | inr h ↦ rw h (λ ok. (deleted s fd left ok).1)
  ]

  pub remove_op-needs :
      (s : State) (fd : ℕ) (left : Event)
      → (ctl s (remove_op left) fd left).1 ≡ false
      → interest s fd ≢ none
  unfolding remove_op
  remove_op-needs s fd left = elim (Bool-cases (is_set left)) [
    | inl h ↦ rw h (λ ok. (modified s fd left ok).0)
    | inr h ↦ rw h (λ ok. (deleted s fd left ok).0)
  ]

  -- A change of one descriptor, on both sides.
  pub Agrees-step :
      (aside : ℕ → Type 0) (m m' : IoManager) (s s' : State) (fd : ℕ)
      → Agrees aside m s
      → OnlyAt m fd m'
      → interest s' fd ≡ watched (context_at m' fd).events
      → ((other : ℕ) → other ≢ fd → interest s' other ≡ interest s other)
      → Agrees aside m' s'
  Agrees-step aside m m' s s' fd agrees only here rest other n = elim (lt_cases fd other) [
    | inl l ↦ elsewhere (λ e. omega (arith, e, l))
    | inr (inl l) ↦ elsewhere (λ e. omega (arith, e, l))
    | inr (inr e) ↦ subst (λ (i : ℕ). interest s' i ≡ watched (context_at m' i).events) e here
  ]
    where
      elsewhere : fd ≢ other → interest s' other ≡ watched (context_at m' other).events
      elsewhere d =
          rest other (λ e. d (sym e))
          ∙ agrees other n
          ∙ ap (λ (c : FdContext). watched c.events) (sym (kept_elsewhere m m' fd other only d))

  -- A call that returns with everything in order.
  pub record Keeps (aside : ℕ → Type 0) (m : IoManager) (s : State) (c : Call) : Type 0 where
    pub io : IoManager
    pub epoll : State
    pub runs : run_in k m s c ≡ Result.ok (io, epoll)
    pub inv : Inv io
    pub agrees : Agrees aside io epoll
    pub only : OnlyAt m (fd_of c) io
    pub rest : (other : ℕ) → other ≢ fd_of c → interest epoll other ≡ interest s other

  pub run_in-unasked :
      (m m' : IoManager) (s : State) (c : Call)
      → request m c ≡ none
      → run m c false ≡ Result.ok m'
      → run_in k m s c ≡ Result.ok (m', s)
  unfolding run_in
  run_in-unasked m m' s c e r = rw (e, r, run_in)

  pub run_in-asked :
      (m m' : IoManager) (s : State) (c : Call) (op : Op) (e : Event) (fails : Bool)
      → request m c ≡ some (op, e)
      → (ctl s op (fd_of c) e).1 ≡ fails
      → run m c fails ≡ Result.ok m'
      → run_in k m s c ≡ Result.ok (m', (ctl s op (fd_of c) e).0)
  unfolding run_in
  run_in-asked m m' s c op e fails q f r = rw (q, f, r, run_in)

  -- A call that returns before `epoll_ctl`.
  pub unasked-Keeps :
      (aside : ℕ → Type 0) (m : IoManager) (s : State) (c : Call)
      → Inv m
      → Agrees aside m s
      → request m c ≡ none
      → run m c false ≡ Result.ok m
      → Keeps aside m s c
  unasked-Keeps aside m s c v a e r = record {
    io = m;
    epoll = s;
    runs = run_in-unasked m m s c e r;
    inv = v;
    agrees = a;
    only = OnlyAt-refl m (fd_of c);
    rest = λ other n. refl;
  }

  -- What a call has to do when its `epoll_ctl` succeeds.
  pub record Follows (m : IoManager) (s : State) (c : Call) (op : Op) (e : Event) : Type 0 where
    pub io : IoManager
    pub runs : run m c false ≡ Result.ok io
    pub inv : Inv io
    pub only : OnlyAt m (fd_of c) io
    pub watches :
        interest (ctl s op (fd_of c) e).0 (fd_of c) ≡ watched (context_at io (fd_of c)).events

  pub asked-Keeps :
      (aside : ℕ → Type 0) (m : IoManager) (s : State) (c : Call) (op : Op) (e : Event)
      → Inv m
      → Agrees aside m s
      → request m c ≡ some (op, e)
      → run m c true ≡ Result.ok m
      → ((ctl s op (fd_of c) e).1 ≡ false → Follows m s c op e)
      → Keeps aside m s c
  asked-Keeps aside m s c op e v a q bad good = elim (Bool-cases (ctl s op (fd_of c) e).1) [
    | inl f ↦ record {
      io = m;
      epoll = s;
      runs =
          run_in-asked m m s c op e true q f bad
          ∙ ap (λ (t : State). Result.ok (m, t)) (ctl_failed s op (fd_of c) e f);
      inv = v;
      agrees = a;
      only = OnlyAt-refl m (fd_of c);
      rest = λ other n. refl;
    }
    | inr f ↦
        let w = good f in
        record {
          io = w.io;
          epoll = (ctl s op (fd_of c) e).0;
          runs = run_in-asked m w.io s c op e false q f w.runs;
          inv = w.inv;
          agrees =
              Agrees-step aside m w.io s (ctl s op (fd_of c) e).0 (fd_of c) a w.only w.watches
                (λ other n. ctl_other s op (fd_of c) e other n);
          only = w.only;
          rest = λ other n. ctl_other s op (fd_of c) e other n;
        }
  ]
