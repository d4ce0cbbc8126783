-- ===== src/IoManager/Kernel/Closed.antt =====
-- A call for a descriptor that has a registered event and is not watched any more
-- (src/iomanager/ioscheduler.cc).
use coroutinelib.Base.{
  ℕ, ◌<◌, ◌≡◌, refl, subst, ap, ◌∙◌, none, some, true, false, ◌⊎◌, inl, inr, Bool-cases, length,
}
use coroutinelib.Faults.{Result}
use coroutinelib.Epoll.{Epoll, Op}
use coroutinelib.IoManager.Event.{Event, without, has, is_set, not_and, IsSingle}
use coroutinelib.IoManager.{IoManager, context_at}
use coroutinelib.IoManager.Events
use coroutinelib.IoManager.Idle.{real_events}
use coroutinelib.IoManager.Kernel.{
  Call, fd_of, request, run, run_in, add_op, remove_op, cancel_all_request, ready_request,
}
use coroutinelib.IoManager.Kernel.Agreement.{run_in-asked, run_in-unasked}
use coroutinelib.IoManager.Kernel.Adding.{run-add, request-add_old, request-add_new}
use coroutinelib.IoManager.Kernel.Removing.{
  Removes, del-Removes, cancel-Removes, remove_request-refused, remove_request-asked,
}
use coroutinelib.IoManager.Invariant.{Inv}
use coroutinelib.IoManager.Removal.{ltb-true}
use coroutinelib.IoManager.Registered.{add_event-refuses}
use coroutinelib.IoManager.Delivery.{handle_ready-failed, handle_ready-quiet}

-- A call that changes nothing unless EPOLL_CTL_MOD or EPOLL_CTL_DEL succeeds.
data Waits (m : IoManager) (c : Call) : Type 0 where
  unasked : request m c ≡ none → run m c false ≡ Result.ok m → Waits m c
  asked :
      (op : Op) (e : Event)
      → request m c ≡ some (op, e)
      → (op ≡ Op.modify) ⊎ (op ≡ Op.delete)
      → run m c true ≡ Result.ok m
      → Waits m c

add_op-modify : (e : Event) → is_set e ≡ true → add_op e ≡ Op.modify
unfolding add_op
add_op-modify e h = rw h

remove_op-cases : (e : Event) → (remove_op e ≡ Op.modify) ⊎ (remove_op e ≡ Op.delete)
unfolding remove_op
remove_op-cases Event.none = inr refl
remove_op-cases Event.read = inl refl
remove_op-cases Event.write = inl refl
remove_op-cases Event.read_write = inl refl

-- Its event is READ or WRITE, if it has one.
abbrev pub NamesSingle : Call → Type 0
NamesSingle (Call.del fd event) = IsSingle event
NamesSingle (Call.cancel fd event) = IsSingle event
NamesSingle _ = Unit {0}

Removes-Waits :
    (m : IoManager) (c : Call) (event : Event)
    → fd_of c < length m.contexts
    → Removes m c event
    → Waits m c
Removes-Waits m c event known r =
    elim (Bool-cases (not_and (context_at m (fd_of c)).events event)) [
      | inl h ↦ Waits.unasked (r.asks ∙ remove_request-refused m (fd_of c) event h) (r.refused h)
      | inr h ↦
          Waits.asked _ _
            (r.asks
              ∙ remove_request-asked m (fd_of c) event
                  (ltb-true (fd_of c) (length m.contexts) known) h)
            (remove_op-cases (without (context_at m (fd_of c)).events event)) r.failed
    ]

call-Waits :
    (m : IoManager) (c : Call)
    → Inv m
    → fd_of c < length m.contexts
    → is_set (context_at m (fd_of c)).events ≡ true
    → NamesSingle c
    → Waits m c
unfolding request run cancel_all_request ready_request Events.cancel_all
call-Waits m (Call.add fd event cb caller) v known set single =
    elim (Bool-cases (has (context_at m fd).events event)) [
      | inl old ↦ Waits.unasked (request-add_old m fd event cb caller known old) (
          run-add m fd event cb caller known m false false
            (add_event-refuses m fd event cb caller known false (inl old)))
      | inr new ↦
          Waits.asked _ _ (request-add_new m fd event cb caller known new)
            (inl (add_op-modify (context_at m fd).events set))
            (run-add m fd event cb caller known m false true
              (add_event-refuses m fd event cb caller known true (inr refl)))
    ]
call-Waits m (Call.del fd event) v known set single =
    Removes-Waits m (Call.del fd event) event known (del-Removes m v fd event single)
call-Waits m (Call.cancel fd event) v known set single =
    Removes-Waits m (Call.cancel fd event) event known (cancel-Removes m v fd event single)
call-Waits m (Call.cancel_all fd) v known set single =
    let l = ltb-true fd (length m.contexts) known in
    Waits.asked Op.delete Event.none (rw (l, set, cancel_all_request)) (inr refl)
      (rw (l, set, Events.cancel_all))
call-Waits m (Call.ready fd mask trouble) v known set single =
    let real = real_events (context_at m fd).events mask trouble in
    elim (Bool-cases (has (context_at m fd).events real)) [
      | inr h ↦
          Waits.unasked (rw (h, ready_request))
            (handle_ready-quiet m fd known v mask trouble false h)
      | inl h ↦
          Waits.asked (remove_op (without (context_at m fd).events real))
            (without (context_at m fd).events real) (rw (h, ready_request))
            (remove_op-cases (without (context_at m fd).events real))
            (handle_ready-failed m fd known v mask trouble)
    ]

module _ (k : Epoll) where
  open k use {State, interest, ctl, ctl_failed, modified, deleted}

  refuses :
      (s : State) (fd : ℕ) (op : Op) (e : Event)
      → interest s fd ≡ none
      → (op ≡ Op.modify) ⊎ (op ≡ Op.delete)
      → (ctl s op fd e).1 ≡ true
  refuses s fd op e absent kind = elim (Bool-cases (ctl s op fd e).1) [
    | inl h ↦ h
    | inr h ↦ elim kind [
      | inl q ↦
          absurd ((modified s fd e (subst (λ (o : Op). (ctl s o fd e).1 ≡ false) q h)).0 absent)
      | inr q ↦
          absurd ((deleted s fd e (subst (λ (o : Op). (ctl s o fd e).1 ≡ false) q h)).0 absent)
    ]
  ]

  -- A call for a descriptor with a registered event that is not watched changes nothing.
  pub unwatched-keeps :
      (m : IoManager) (s : State) (c : Call)
      → Inv m
      → fd_of c < length m.contexts
      → is_set (context_at m (fd_of c)).events ≡ true
      → interest s (fd_of c) ≡ none
      → NamesSingle c
      → run_in k m s c ≡ Result.ok (m, s)
  unwatched-keeps m s c v known set gone single = elim (call-Waits m c v known set single) [
    | Waits.unasked e r ↦ run_in-unasked k m m s c e r
    | Waits.asked op e q kind r ↦
        let f = refuses s (fd_of c) op e gone kind in
        run_in-asked k m m s c op e true q f r
        ∙ ap (λ (t : State). Result.ok (m, t)) (ctl_failed s op (fd_of c) e f)
  ]
