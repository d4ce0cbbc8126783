-- ===== src/IoManager/Kernel/Adding.antt =====
-- `addEvent` with the epoll instance (src/iomanager/ioscheduler.cc).
use coroutinelib.Base.{
  ℕ, ◌<◌, ◌≡◌, refl, sym, ap, ◌∙◌, Option, none, some, Bool, true, false, ◌⊎◌, inl, inr, Bool-cases,
  length,
}
use coroutinelib.Faults.{Result}
use coroutinelib.Callback.{Callback}
use coroutinelib.Epoll.{Epoll}
use coroutinelib.IoManager.Event.{Event, or_event, has, is_set, IsSingle}
use coroutinelib.IoManager.{IoManager, context_at}
use coroutinelib.IoManager.Events.{Caller, add_event}
use coroutinelib.IoManager.Kernel.{Call, request, run, add_op, add_request}
use coroutinelib.IoManager.Kernel.Agreement.{
  Agrees, Keeps, Follows, unasked-Keeps, asked-Keeps, add_op-watches, true≢false, watched,
}
use coroutinelib.IoManager.Invariant.{Inv}
use coroutinelib.IoManager.Removal.{ltb-true}
use coroutinelib.IoManager.Registered.{
  IsReady, Added, new_event_context, add_event-safe, add_event-refuses,
}

or_event-IsSet : (a e : Event) → IsSingle e → is_set (or_event a e) ≡ true
or_event-IsSet Event.none _ IsSingle.is_read = refl
or_event-IsSet Event.read _ IsSingle.is_read = refl
or_event-IsSet Event.write _ IsSingle.is_read = refl
or_event-IsSet Event.read_write _ IsSingle.is_read = refl
or_event-IsSet Event.none _ IsSingle.is_write = refl
or_event-IsSet Event.read _ IsSingle.is_write = refl
or_event-IsSet Event.write _ IsSingle.is_write = refl
or_event-IsSet Event.read_write _ IsSingle.is_write = refl

module _ (m : IoManager) (fd : ℕ) (event : Event) (cb : Option Callback) (caller : Caller)
    (known : fd < length m.contexts) where
  pub run-add :
      (m' : IoManager) (b fails : Bool)
      → add_event m fd event cb caller fails ≡ Result.ok (m', b)
      → run m (Call.add fd event cb caller) fails ≡ Result.ok m'
  unfolding run
  run-add m' b fails e = rw e

  pub request-add_old :
      has (context_at m fd).events event ≡ true → request m (Call.add fd event cb caller) ≡ none
  unfolding request add_request
  request-add_old h = rw (ltb-true fd (length m.contexts) known, h, add_request)

  pub request-add_new :
      has (context_at m fd).events event ≡ false
      → request m (Call.add fd event cb caller)
        ≡ some (add_op (context_at m fd).events, or_event (context_at m fd).events event)
  unfolding request add_request
  request-add_new h = rw (ltb-true fd (length m.contexts) known, h, add_request)

module _ (k : Epoll) (aside : ℕ → Type 0) (m : IoManager) (s : Epoll.State k) (fd : ℕ)
    (event : Event) (cb : Option Callback) (caller : Caller) (known : fd < length m.contexts) where
  pub add-Keeps :
      IsSingle event
      → IsReady cb caller
      → Inv m
      → Agrees k aside m s
      → Keeps k aside m s (Call.add fd event cb caller)
  add-Keeps single ready v a = elim (Bool-cases (has (context_at m fd).events event)) [
    | inl old ↦ unasked-Keeps k aside m s _ v a (request-add_old m fd event cb caller known old) (
        run-add m fd event cb caller known m false false
          (add_event-refuses m fd event cb caller known false (inl old)))
    | inr new ↦
        asked-Keeps k aside m s _ _ _ v a (request-add_new m fd event cb caller known new)
          (run-add m fd event cb caller known m false true
            (add_event-refuses m fd event cb caller known true (inr refl)))
          (λ good.
            succeeds new good (add_event-safe m fd event cb caller known false single v ready))
  ]
    where
      succeeds :
          has (context_at m fd).events event ≡ false
          → (Epoll.ctl k s
              (add_op (context_at m fd).events)
              fd
              (or_event (context_at m fd).events event)).1
            ≡ false
          → (((has (context_at m fd).events event ≡ true) ⊎ (false ≡ true))
              × (add_event m fd event cb caller false ≡ Result.ok (m, false)))
            ⊎ ((m' : IoManager) × (add_event m fd event cb caller false ≡ Result.ok (m', true))
                × Added m fd event (new_event_context cb caller) m')
          → Follows k m s
              (Call.add fd event cb caller)
              (add_op (context_at m fd).events)
              (or_event (context_at m fd).events event)
      succeeds new good (inl (inl old, r)) = absurd (true≢false (sym old ∙ new))
      succeeds new good (inl (inr bad, r)) = absurd (true≢false (sym bad))
      succeeds new good (inr (m', runs, added)) = record {
        io = m';
        runs = run-add m fd event cb caller known m' true false runs;
        inv = added.inv;
        only = added.only;
        watches =
            add_op-watches k s fd (context_at m fd).events (or_event (context_at m fd).events event)
              (or_event-IsSet (context_at m fd).events event single) good
            ∙ ap watched (sym added.events);
      }
