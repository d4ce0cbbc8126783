-- ===== src/IoManager/Kernel/Calls.antt =====
-- Every call on the manager and its epoll instance (src/iomanager/ioscheduler.cc).
use coroutinelib.Base.{
  ℕ, suc, zero, ◌+◌, ◌<◌, ◌≡◌, ◌≢◌, refl, sym, subst, ap, ◌∙◌, none, true, false, inl, inr, length,
  Bool-cases, [], get_or,
}
use coroutinelib.Faults.{Fault, Result}
use coroutinelib.Epoll.{Epoll, Op}
use coroutinelib.Timer.Manager.{Manager}
use coroutinelib.IoManager.Event.{Event, and_event, IsSingle}
use coroutinelib.IoManager.Context.{FdContext, new_context, resize_from}
use coroutinelib.IoManager.{IoManager, context_at, new_io_manager, context_resize}
use coroutinelib.IoManager.Kernel.{Call, construct}
use coroutinelib.IoManager.Kernel.Agreement.{Agrees, Keeps, watched}
use coroutinelib.IoManager.Kernel.Adding.{add-Keeps}
use coroutinelib.IoManager.Kernel.Removing.{
  IsRemovable, del-Keeps, cancel-Keeps, cancel_all-Keeps, ready-Keeps,
}
use coroutinelib.IoManager.Registered.{IsReady}
use coroutinelib.IoManager.Waiting.{new_io_manager-Inv}
use coroutinelib.IoManager.Invariant.{Inv}

-- The calls that keep to what the manager expects: READ or WRITE, of a descriptor that is not left
-- aside, as its own pipe is; `addEvent` of a descriptor with a context, with a callback or a
-- running fiber; `delEvent` and `cancelEvent` of a registered event or of a descriptor without any;
-- reports of no more than is registered.
unfoldable pub IsAllowed : (aside : ℕ → Type 0) → IoManager → Call → Type 0
IsAllowed aside m (Call.add fd event cb caller) =
    (¬ (aside fd)) × (fd < length m.contexts) × IsSingle event × IsReady cb caller
IsAllowed aside m (Call.del fd event) = (¬ (aside fd)) × IsSingle event × IsRemovable m fd event
IsAllowed aside m (Call.cancel fd event) = (¬ (aside fd)) × IsSingle event × IsRemovable m fd event
IsAllowed aside m (Call.cancel_all fd) = ¬ (aside fd)
IsAllowed aside m (Call.ready fd mask trouble) =
    (fd < length m.contexts) × (and_event (context_at m fd).events mask ≡ mask)

no_events-at :
    (i n fd : ℕ) (d : FdContext)
    → d.events ≡ Event.none
    → (get_or (resize_from i n []) fd d).events ≡ Event.none
unfolding resize_from
no_events-at i zero fd d e = e
no_events-at i (suc n) zero d e = refl
no_events-at i (suc n) (suc fd) d e = no_events-at (i + 1) n fd d e

new-events : (timer : Manager) (fd : ℕ) → (context_at (new_io_manager timer) fd).events ≡ Event.none
unfolding new_io_manager context_resize
new-events timer fd = no_events-at 0 32 fd (new_context fd) refl

err≢ok : {A : Type 0} (f : Fault) (a : A) → Result.err f ≢ Result.ok a
err≢ok f a e = cc

ok-injective : {A : Type 0} (a b : A) → Result.ok a ≡ Result.ok b → a ≡ b
ok-injective {A} a b e = ap from_ok e
  where
    from_ok : Result A → A
    from_ok (Result.ok c) = c
    from_ok (Result.err f) = a

pub call-Keeps :
    (k : Epoll) (aside : ℕ → Type 0) (m : IoManager) (s : Epoll.State k) (c : Call)
    → Inv m
    → Agrees k aside m s
    → IsAllowed aside m c
    → Keeps k aside m s c
unfolding IsAllowed
call-Keeps k aside m s (Call.add fd event cb caller) v a (n, known, single, ready) =
    add-Keeps k aside m s fd event cb caller known single ready v a
call-Keeps k aside m s (Call.del fd event) v a (n, single, reg) =
    del-Keeps k aside m s v a fd event n single reg
call-Keeps k aside m s (Call.cancel fd event) v a (n, single, reg) =
    cancel-Keeps k aside m s v a fd event n single reg
call-Keeps k aside m s (Call.cancel_all fd) v a n = cancel_all-Keeps k aside m s v a fd n
call-Keeps k aside m s (Call.ready fd mask trouble) v a (known, subset) =
    ready-Keeps k aside m s v a fd mask trouble known subset

-- The pipe's reading end is left aside.
abbrev pub IsPipe : ℕ → ℕ → Type 0
IsPipe pipe fd = fd ≡ pipe

module _ (k : Epoll) (pipe : ℕ) where
  open k use {State, interest, ctl, ctl_other}

  -- What holds of the manager and its epoll instance.
  pub record InOrder (m : IoManager) (s : State) : Type 0 where
    pub inv : Inv m
    pub agrees : Agrees k (IsPipe pipe) m s

  InOrder-eq :
      (r : Result (IoManager × State)) (m m' : IoManager) (s s' : State)
      → InOrder m s
      → r ≡ Result.ok (m, s)
      → r ≡ Result.ok (m', s')
      → InOrder m' s'
  InOrder-eq r m m' s s' h e e' =
      subst (λ (p : IoManager × State). InOrder p.0 p.1)
        (ok-injective {A = IoManager × State} (m, s) (m', s') (sym e ∙ e')) h

  new-Agrees :
      (timer : Manager) (s : State)
      → ((fd : ℕ) → interest s fd ≡ none)
      → Agrees k (IsPipe pipe) (new_io_manager timer) (ctl s Op.add pipe Event.read).0
  new-Agrees timer s empty fd n =
      ctl_other s Op.add pipe Event.read fd n ∙ empty fd ∙ ap watched (sym (new-events timer fd))

  construct-ok :
      (timer : Manager) (s : State)
      → (ctl s Op.add pipe Event.read).1 ≡ false
      → construct k timer s pipe
        ≡ Result.ok (new_io_manager timer, (ctl s Op.add pipe Event.read).0)
  unfolding construct
  construct-ok timer s h = rw h

  construct-fails :
      (timer : Manager) (s : State)
      → (ctl s Op.add pipe Event.read).1 ≡ true
      → construct k timer s pipe ≡ Result.err Fault.assertion
  unfolding construct
  construct-fails timer s h = rw h

  pub construct-InOrder :
      (timer : Manager) (s : State) (m : IoManager) (s' : State)
      → ((fd : ℕ) → interest s fd ≡ none)
      → construct k timer s pipe ≡ Result.ok (m, s')
      → InOrder m s'
  construct-InOrder timer s m s' empty e = elim (Bool-cases (ctl s Op.add pipe Event.read).1) [
    | inl h ↦ absurd (
        err≢ok {A = IoManager × State} Fault.assertion (m, s')
          (sym (construct-fails timer s h) ∙ e))
    | inr h ↦
        InOrder-eq (construct k timer s pipe) (new_io_manager timer) m
          (ctl s Op.add pipe Event.read).0 s'
          (record { inv = (new_io_manager-Inv timer).0; agrees = new-Agrees timer s empty })
          (construct-ok timer s h) e
  ]

  new-timer : (timer : Manager) → (new_io_manager timer).timer ≡ timer
  unfolding new_io_manager context_resize
  new-timer timer = refl

  pub construct-timer :
      (timer : Manager) (s : State) (m : IoManager) (s' : State)
      → construct k timer s pipe ≡ Result.ok (m, s')
      → m.timer ≡ timer
  construct-timer timer s m s' e = elim (Bool-cases (ctl s Op.add pipe Event.read).1) [
    | inl h ↦ absurd (
        err≢ok {A = IoManager × State} Fault.assertion (m, s')
          (sym (construct-fails timer s h) ∙ e))
    | inr h ↦
        ap (λ (p : IoManager × State). p.0.timer)
          (ok-injective {A = IoManager × State} (m, s')
            (new_io_manager timer, (ctl s Op.add pipe Event.read).0)
            (sym e ∙ construct-ok timer s h))
        ∙ new-timer timer
  ]
