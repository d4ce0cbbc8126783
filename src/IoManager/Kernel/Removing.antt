-- ===== src/IoManager/Kernel/Removing.antt =====
-- `delEvent`, `cancelEvent`, `cancelAll` and the ready descriptors with the epoll instance
-- (src/iomanager/ioscheduler.cc).
use coroutinelib.Base.{
  ℕ, ◌<◌, ◌≡◌, refl, sym, ap, ◌∙◌, none, some, Bool, true, false, ◌⊎◌, inl, inr, Bool-cases, length,
  ltb, arith,
}
use coroutinelib.Faults.{Result}
use coroutinelib.Epoll.{Epoll, Op}
use coroutinelib.IoManager.Event.{Event, without, and_event, has, is_set, not_and, IsSingle}
use coroutinelib.IoManager.{IoManager, context_at}
use coroutinelib.IoManager.Events
use coroutinelib.IoManager.Events.{del_event, cancel_event}
use coroutinelib.IoManager.Idle.{real_events}
use coroutinelib.IoManager.Kernel.{
  Call, fd_of, request, run, remove_op, remove_request, cancel_all_request, ready_request,
}
use coroutinelib.IoManager.Kernel.Agreement.{
  Agrees, Keeps, Follows, unasked-Keeps, asked-Keeps, remove_op-watches, remove_op-needs,
  true≢false, watched,
}
use coroutinelib.IoManager.Invariant.{Inv}
use coroutinelib.IoManager.Removal.{Removed, del_event-registered}
use coroutinelib.IoManager.Cancel.{cancel_event-registered}
use coroutinelib.IoManager.Delivery.{
  handle_ready-delivers, handle_ready-failed, handle_ready-quiet, cancel_all-delivers,
}

pub lt_of : (a b : ℕ) → ltb a b ≡ true → a < b
lt_of a b h = ground arith

without_none : (e : Event) → without Event.none e ≡ Event.none
without_none e = ground arith

-- The event is registered, or the descriptor has none.
abbrev pub IsRemovable : IoManager → (fd : ℕ) → Event → Type 0
IsRemovable m fd event =
    (has (context_at m fd).events event ≡ true) ⊎ ((context_at m fd).events ≡ Event.none)

module _ (m : IoManager) (fd : ℕ) (event : Event) where
  abbrev left : Event
  left = without (context_at m fd).events event

  pub remove_request-unknown : ltb fd (length m.contexts) ≡ false → remove_request m fd event ≡ none
  unfolding remove_request
  remove_request-unknown h = rw (h, remove_request)

  pub remove_request-refused :
      not_and (context_at m fd).events event ≡ true → remove_request m fd event ≡ none
  unfolding remove_request
  remove_request-refused h = elim (Bool-cases (ltb fd (length m.contexts))) [
    | inl k ↦ rw (k, h, remove_request)
    | inr k ↦ rw (k, remove_request)
  ]

  pub remove_request-asked :
      ltb fd (length m.contexts) ≡ true
      → not_and (context_at m fd).events event ≡ false
      → remove_request m fd event ≡ some (remove_op left, left)
  unfolding remove_request
  remove_request-asked k h = rw (k, h, remove_request)

-- What `delEvent` and `cancelEvent` have in common.
pub record Removes (m : IoManager) (c : Call) (event : Event) : Type 0 where
  pub asks : request m c ≡ remove_request m (fd_of c) event
  pub unknown : ltb (fd_of c) (length m.contexts) ≡ false → run m c false ≡ Result.ok m
  pub refused : not_and (context_at m (fd_of c)).events event ≡ true → run m c false ≡ Result.ok m
  pub failed : run m c true ≡ Result.ok m
  pub done :
      fd_of c < length m.contexts
      → has (context_at m (fd_of c)).events event ≡ true
      → (m' : IoManager) × (run m c false ≡ Result.ok m') × Removed m (fd_of c) event m'

module _ (m : IoManager) (v : Inv m) where
  pub del-Removes : (fd : ℕ) (event : Event) → IsSingle event → Removes m (Call.del fd event) event
  unfolding request run del_event
  del-Removes fd event single = record {
    asks = refl;
    unknown = λ h. rw (h, del_event);
    refused = λ h. elim (Bool-cases (ltb fd (length m.contexts))) [
      | inl l ↦ rw (l, h, del_event)
      | inr l ↦ rw (l, del_event)
    ];
    failed = elim (Bool-cases (ltb fd (length m.contexts))) [
      | inr l ↦ rw (l, del_event)
      | inl l ↦ elim (Bool-cases (not_and (context_at m fd).events event)) [
        | inl h ↦ rw (l, h, del_event)
        | inr h ↦ rw (l, h, del_event)
      ]
    ];
    done = λ known h.
        let (m', runs, removed, same) = del_event-registered m fd event known single v h in
        (m', rw runs, removed);
  }

  pub cancel-Removes :
      (fd : ℕ) (event : Event) → IsSingle event → Removes m (Call.cancel fd event) event
  unfolding request run cancel_event
  cancel-Removes fd event single = record {
    asks = refl;
    unknown = λ h. rw (h, cancel_event);
    refused = λ h. elim (Bool-cases (ltb fd (length m.contexts))) [
      | inl l ↦ rw (l, h, cancel_event)
      | inr l ↦ rw (l, cancel_event)
    ];
    failed = elim (Bool-cases (ltb fd (length m.contexts))) [
      | inr l ↦ rw (l, cancel_event)
      | inl l ↦ elim (Bool-cases (not_and (context_at m fd).events event)) [
        | inl h ↦ rw (l, h, cancel_event)
        | inr h ↦ rw (l, h, cancel_event)
      ]
    ];
    done = λ known h.
        let (m', runs, removed, sched) = cancel_event-registered m fd event known single v h in
        (m', rw runs, removed);
  }

module _ (k : Epoll) (aside : ℕ → Type 0) (m : IoManager) (s : Epoll.State k) (v : Inv m)
    (a : Agrees k aside m s) where
  remove-Keeps :
      (c : Call) (event : Event)
      → ¬ (aside (fd_of c))
      → IsRemovable m (fd_of c) event
      → Removes m c event
      → Keeps k aside m s c
  remove-Keeps c event n reg r = elim (Bool-cases (ltb (fd_of c) (length m.contexts))) [
    | inr u ↦
        unasked-Keeps k aside m s c v a (r.asks ∙ remove_request-unknown m (fd_of c) event u)
          (r.unknown u)
    | inl known ↦ elim (Bool-cases (not_and (context_at m (fd_of c)).events event)) [
      | inl h ↦
          unasked-Keeps k aside m s c v a (r.asks ∙ remove_request-refused m (fd_of c) event h)
            (r.refused h)
      | inr h ↦
          asked-Keeps k aside m s c _ _ v a
            (r.asks ∙ remove_request-asked m (fd_of c) event known h) r.failed
            (λ good. succeeds (lt_of (fd_of c) (length m.contexts) known) reg good)
    ]
  ]
    where
      succeeds :
          fd_of c < length m.contexts
          → IsRemovable m (fd_of c) event
          → (Epoll.ctl k s
              (remove_op (left m (fd_of c) event))
              (fd_of c)
              (left m (fd_of c) event)).1
            ≡ false
          → Follows k m s c (remove_op (left m (fd_of c) event)) (left m (fd_of c) event)
      succeeds known (inl h) good =
          let (m', runs, removed) = r.done known h in
          record {
            io = m';
            runs = runs;
            inv = removed.inv;
            only = removed.only;
            watches =
                remove_op-watches k s (fd_of c) (left m (fd_of c) event) good
                ∙ ap watched (sym removed.context.events);
          }
      succeeds known (inr h) good = absurd (
          remove_op-needs k s (fd_of c) (left m (fd_of c) event) good
            (a (fd_of c) n ∙ ap watched h))

  pub del-Keeps :
      (fd : ℕ) (event : Event)
      → ¬ (aside fd)
      → IsSingle event
      → IsRemovable m fd event
      → Keeps k aside m s (Call.del fd event)
  del-Keeps fd event n single reg =
      remove-Keeps (Call.del fd event) event n reg (del-Removes m v fd event single)

  pub cancel-Keeps :
      (fd : ℕ) (event : Event)
      → ¬ (aside fd)
      → IsSingle event
      → IsRemovable m fd event
      → Keeps k aside m s (Call.cancel fd event)
  cancel-Keeps fd event n single reg =
      remove-Keeps (Call.cancel fd event) event n reg (cancel-Removes m v fd event single)

  pub cancel_all-Keeps : (fd : ℕ) → ¬ (aside fd) → Keeps k aside m s (Call.cancel_all fd)
  unfolding request run cancel_all_request Events.cancel_all
  cancel_all-Keeps fd n = elim (Bool-cases (ltb fd (length m.contexts))) [
    | inr u ↦
        unasked-Keeps k aside m s _ v a (rw (u, cancel_all_request)) (rw (u, Events.cancel_all))
    | inl known ↦ elim (Bool-cases (is_set (context_at m fd).events)) [
      | inr h ↦
          unasked-Keeps k aside m s _ v a (rw (known, h, cancel_all_request))
            (rw (known, h, Events.cancel_all))
      | inl h ↦
          asked-Keeps k aside m s _ Op.delete Event.none v a (rw (known, h, cancel_all_request))
            (rw (known, h, Events.cancel_all))
            (λ good.
              let (m', runs, none_left, d) =
                cancel_all-delivers m fd (lt_of fd (length m.contexts) known) v h in
              record {
                io = m';
                runs = rw runs;
                inv = d.inv;
                only = d.only;
                watches = (Epoll.deleted k s fd Event.none good).1 ∙ ap watched (sym none_left);
              })
    ]
  ]

  pub ready-Keeps :
      (fd : ℕ) (mask : Event) (trouble : Bool)
      → fd < length m.contexts
      → and_event (context_at m fd).events mask ≡ mask
      → Keeps k aside m s (Call.ready fd mask trouble)
  unfolding request run ready_request
  ready-Keeps fd mask trouble known subset =
      let real = real_events (context_at m fd).events mask trouble in
      elim (Bool-cases (has (context_at m fd).events real)) [
        | inr h ↦
            unasked-Keeps k aside m s _ v a (rw (h, ready_request))
              (handle_ready-quiet m fd known v mask trouble false h)
        | inl h ↦
            asked-Keeps k aside m s _ (remove_op (without (context_at m fd).events real))
              (without (context_at m fd).events real) v a (rw (h, ready_request))
              (handle_ready-failed m fd known v mask trouble)
              (λ good. elim (handle_ready-delivers m fd known v mask trouble false subset) [
                | inl (bad, r) ↦ absurd (true≢false (sym bad))
                | inr (m', runs, d) ↦ record {
                  io = m';
                  runs = runs;
                  inv = d.inv;
                  only = d.only;
                  watches =
                      remove_op-watches k s fd (without (context_at m fd).events real) good
                      ∙ ap watched (sym d.events);
                }
              ])
      ]
