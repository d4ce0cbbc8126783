-- ===== src/IoManager/Registry/Steps.antt =====
-- Each event call of src/iomanager/ioscheduler.cc, as a change of the registry.
use coroutinelib.Base.{
  ℕ, ◌<◌, ◌≡◌, refl, sym, subst, ap, ap₂, ◌∙◌, Option, Bool, true, false, List, [], ◌∷◌, ◌++◌, ◌⊎◌,
  inl, inr, Bool-cases, length, is_some, length-set,
}
use coroutinelib.Base.Threads.{assign, assign_self, assign_other}
use std.Path.{fun_ext}
use mathlib.Core.List.{append-nil}
use native.Mathlib.Decide.{ℕ_discrete}
use coroutinelib.Faults.{Result}
use coroutinelib.Callback.{Callback}
use coroutinelib.Scheduler.{Scheduler, Task}
use coroutinelib.IoManager.Event.{Event, and_event, has, is_set, IsSingle}
use coroutinelib.IoManager.Context.Consistent.{
  task_of, task_of-is_task, context_of, context_of-IsFilled,
}
use coroutinelib.IoManager.{IoManager, context_at}
use coroutinelib.IoManager.Events
use coroutinelib.IoManager.Events.{Caller, add_event, del_event, cancel_event}
use coroutinelib.IoManager.Idle.{Ready, real_events, handle_ready}
use coroutinelib.IoManager.Kernel.{Call, fd_of, run}
use coroutinelib.IoManager.Kernel.Agreement.{kept_elsewhere, true≢false}
use coroutinelib.IoManager.Kernel.Adding.{run-add}
use coroutinelib.IoManager.Kernel.Removing.{del-Removes, cancel-Removes}
use coroutinelib.IoManager.Invariant.{Inv, OnlyAt, OnlyAt-refl, context_at-IsConsistent}
use coroutinelib.IoManager.Registered.{
  IsReady, Added, new_event_context, add_event-safe, add_event-refuses,
}
use coroutinelib.IoManager.Removal.{ltb-true, del_event-registered}
use coroutinelib.IoManager.Cancel.{cancel_event-registered}
use coroutinelib.IoManager.TwoEvents.{Delivered}
use coroutinelib.IoManager.Delivery.{
  handle_ready-failed, handle_ready-delivers, cancel_all-delivers, and_self, real-subset,
}
use coroutinelib.IoManager.Registry.{
  Slots, get, events_of, serve, serve_in, take, released, IsServed,
}
use coroutinelib.IoManager.Registry.View.{
  view, view_context, events_of-view, get-view, is_some-view, view-without, view-Triggered,
  view-added, schedule_lock-tasks, schedule_events-tasks, take-real, take-all, take-none,
}

-- A call that has done what the registry says.
pub record Serves (m : IoManager) (c : Call) (fails : Bool) : Type 0 where
  pub io : IoManager
  pub runs : run m c fails ≡ Result.ok io
  pub inv : Inv io
  pub size : length io.contexts ≡ length m.contexts
  pub view : view io ≡ serve_in (view m) c fails

-- The view of a manager in which one descriptor's context has changed.
view-only :
    (m m' : IoManager) (fd : ℕ) (s : Slots) (ts : List Task)
    → OnlyAt m fd m'
    → view_context (context_at m' fd) ≡ s
    → m'.sched.tasks ≡ m.sched.tasks ++ ts
    → view m' ≡ record {
      slots = assign (λ i. view_context (context_at m i)) fd s;
      queue = m.sched.tasks ++ ts;
    }
view-only m m' fd s ts only e q =
    ap₂ (λ (f : ℕ → Slots) (l : List Task). record { slots = f; queue = l }) (fun_ext at_each) q
  where
    at_each :
        (i : ℕ)
        → view_context (context_at m' i) ≡ assign (λ j. view_context (context_at m j)) fd s i
    at_each i = elim (ℕ_discrete i fd) [
      | yes same ↦
          ap (λ (j : ℕ). view_context (context_at m' j)) same
          ∙ e
          ∙ sym (assign_self (λ j. view_context (context_at m j)) fd s i same)
      | no other ↦
          ap view_context (kept_elsewhere m m' fd i only (λ q. other (sym q)))
          ∙ sym (assign_other (λ j. view_context (context_at m j)) fd s i other)
    ]

failed-Serves : (m : IoManager) (c : Call) → Inv m → run m c true ≡ Result.ok m → Serves m c true
failed-Serves m c v e = record { io = m; runs = e; inv = v; size = refl; view = refl }

pub OnlyAt-size :
    (m m' : IoManager) (fd : ℕ) → OnlyAt m fd m' → length m'.contexts ≡ length m.contexts
OnlyAt-size m m' fd only = ap length only.contexts ∙ length-set m.contexts fd (context_at m' fd)

-- A call whose `epoll_ctl` does not fail, by its effect on one context and on the queue.
done-Serves :
    (m m' : IoManager) (c : Call)
    → run m c false ≡ Result.ok m'
    → Inv m'
    → OnlyAt m (fd_of c) m'
    → view_context (context_at m' (fd_of c)) ≡ (serve c (view_context (context_at m (fd_of c)))).0
    → m'.sched.tasks ≡ m.sched.tasks ++ (serve c (view_context (context_at m (fd_of c)))).1
    → Serves m c false
done-Serves m m' c e v only slots tasks = record {
  io = m';
  runs = e;
  inv = v;
  size = OnlyAt-size m m' (fd_of c) only;
  view = view-only m m' (fd_of c) _ _ only slots tasks;
}

module _ (m : IoManager) (fd : ℕ) (event : Event) (known : fd < length m.contexts)
    (single : IsSingle event) (v : Inv m) where
  -- The slot of an event is taken exactly when its flag is set.
  taken-has :
      (b : Bool)
      → is_some (get (view_context (context_at m fd)) event) ≡ b
      → has (context_at m fd).events event ≡ b
  taken-has b h = sym (is_some-view (context_at m fd) event single) ∙ h

  has-taken :
      (b : Bool)
      → has (context_at m fd).events event ≡ b
      → is_some (get (view_context (context_at m fd)) event) ≡ b
  has-taken b h = is_some-view (context_at m fd) event single ∙ h

  released-registered :
      has (context_at m fd).events event ≡ true
      → released (get (view_context (context_at m fd)) event)
        ≡ task_of (context_of (context_at m fd) event) ∷ []
  released-registered h = rw (get-view (context_at m fd) event single, h) refl

  add-Serves :
      (cb : Option Callback) (caller : Caller) (fails : Bool)
      → IsReady cb caller
      → Serves m (Call.add fd event cb caller) fails
  add-Serves cb caller true ready = failed-Serves m _ v (
      run-add m fd event cb caller known m false true
        (add_event-refuses m fd event cb caller known true (inr refl)))
  add-Serves cb caller false ready = elim (Bool-cases (has (context_at m fd).events event)) [
    | inl old ↦
        done-Serves m m (Call.add fd event cb caller)
          (run-add m fd event cb caller known m false false
            (add_event-refuses m fd event cb caller known false (inl old)))
          v (OnlyAt-refl m fd) (rw (has-taken true old) refl) (sym (append-nil m.sched.tasks))
    | inr new ↦ stored new (add_event-safe m fd event cb caller known false single v ready)
  ]
    where
      stored :
          has (context_at m fd).events event ≡ false
          → (((has (context_at m fd).events event ≡ true) ⊎ (false ≡ true))
              × (add_event m fd event cb caller false ≡ Result.ok (m, false)))
            ⊎ ((m' : IoManager) × (add_event m fd event cb caller false ≡ Result.ok (m', true))
                × Added m fd event (new_event_context cb caller) m')
          → Serves m (Call.add fd event cb caller) false
      stored new (inl (inl old, r)) = absurd (true≢false (sym old ∙ new))
      stored new (inl (inr bad, r)) = absurd (true≢false (sym bad))
      stored new (inr (m', r, added)) =
          done-Serves m m' (Call.add fd event cb caller)
            (run-add m fd event cb caller known m' true false r) added.inv added.only
            (view-added (context_at m fd) (context_at m' fd) event (new_event_context cb caller)
                single added.events added.stored added.kept
              ∙ rw (has-taken false new) refl)
            (ap (λ (x : Scheduler). x.tasks) added.sched ∙ sym (append-nil m.sched.tasks))

  run-del :
      (m' : IoManager)
      → del_event m fd event false ≡ Result.ok (m', true)
      → run m (Call.del fd event) false ≡ Result.ok m'
  unfolding run
  run-del m' r = rw r

  del-Serves :
      (fails : Bool)
      → (is_some (get (view_context (context_at m fd)) event) ≡ true) ⊎ (fails ≡ true)
      → Serves m (Call.del fd event) fails
  del-Serves true h = failed-Serves m _ v (del-Removes m v fd event single).failed
  del-Serves false (inr bad) = absurd (true≢false (sym bad))
  del-Serves false (inl h) =
      let (m', r, removed, same) =
        del_event-registered m fd event known single v (taken-has true h) in
      done-Serves m m' (Call.del fd event) (run-del m' r) removed.inv removed.only
        (view-Triggered (context_at m fd) (context_at m' fd) event single removed.context)
        (ap (λ (x : Scheduler). x.tasks) same ∙ sym (append-nil m.sched.tasks))

  run-cancel :
      (m' : IoManager)
      → cancel_event m fd event false ≡ Result.ok (m', true)
      → run m (Call.cancel fd event) false ≡ Result.ok m'
  unfolding run
  run-cancel m' r = rw r

  cancel-Serves :
      (fails : Bool)
      → (is_some (get (view_context (context_at m fd)) event) ≡ true) ⊎ (fails ≡ true)
      → Serves m (Call.cancel fd event) fails
  cancel-Serves true h = failed-Serves m _ v (cancel-Removes m v fd event single).failed
  cancel-Serves false (inr bad) = absurd (true≢false (sym bad))
  cancel-Serves false (inl h) =
      let here = taken-has true h in
      let (m', r, removed, sched) = cancel_event-registered m fd event known single v here in
      done-Serves m m' (Call.cancel fd event) (run-cancel m' r) removed.inv removed.only
        (view-Triggered (context_at m fd) (context_at m' fd) event single removed.context)
        (ap (λ (x : Scheduler). x.tasks) sched
          ∙ schedule_lock-tasks m.sched (task_of (context_of (context_at m fd) event)) (
              task_of-is_task (context_of (context_at m fd) event) (
                context_of-IsFilled (context_at m fd) event single
                  (context_at-IsConsistent m fd v.consistent) here))
          ∙ ap (◌++◌ m.sched.tasks) (sym (released-registered here)))

module _ (m : IoManager) (fd : ℕ) (known : fd < length m.contexts) (v : Inv m) where
  -- The events `got` of a descriptor, delivered.
  Delivered-Serves :
      (m' : IoManager) (c : Call) (got : Event)
      → fd_of c ≡ fd
      → run m c false ≡ Result.ok m'
      → and_event (context_at m fd).events got ≡ got
      → take (has got Event.read) (has got Event.write) (view_context (context_at m fd))
        ≡ serve c (view_context (context_at m fd))
      → Delivered got m fd m'
      → Serves m c false
  Delivered-Serves m' c got at r subset e d =
      done-Serves m m' c r d.inv (subst (λ (i : ℕ). OnlyAt m i m') (sym at) d.only)
        (subst
          (λ (i : ℕ). view_context (context_at m' i) ≡ (serve c (view_context (context_at m i))).0)
          (sym at)
          (view-without (context_at m fd) (context_at m' fd) got d.events d.kept ∙ ap first e))
        (subst
          (λ (i : ℕ). m'.sched.tasks ≡ m.sched.tasks ++ (serve c (view_context (context_at m i))).1)
          (sym at)
          (ap (λ (x : Scheduler). x.tasks) d.sched
            ∙ schedule_events-tasks got (context_at m fd) m.sched
                (context_at-IsConsistent m fd v.consistent) subset
            ∙ ap (λ (p : Slots × List Task). m.sched.tasks ++ p.1) e))
    where
      first : Slots × List Task → Slots
      first p = p.0

  run-cancel_all :
      (m' : IoManager) (b fails : Bool)
      → Events.cancel_all m fd fails ≡ Result.ok (m', b)
      → run m (Call.cancel_all fd) fails ≡ Result.ok m'
  unfolding run
  run-cancel_all m' b fails r = rw r

  cancel_all-without :
      (fails : Bool)
      → is_set (context_at m fd).events ≡ false
      → Events.cancel_all m fd fails ≡ Result.ok (m, false)
  unfolding Events.cancel_all
  cancel_all-without fails h = rw (ltb-true fd (length m.contexts) known, h, Events.cancel_all)

  cancel_all-failed :
      is_set (context_at m fd).events ≡ true → Events.cancel_all m fd true ≡ Result.ok (m, true)
  unfolding Events.cancel_all
  cancel_all-failed h = rw (ltb-true fd (length m.contexts) known, h, Events.cancel_all)

  cancel_all-Serves : (fails : Bool) → Serves m (Call.cancel_all fd) fails
  cancel_all-Serves true = elim (Bool-cases (is_set (context_at m fd).events)) [
    | inl h ↦ failed-Serves m _ v (run-cancel_all m true true (cancel_all-failed h))
    | inr h ↦ failed-Serves m _ v (run-cancel_all m false true (cancel_all-without true h))
  ]
  cancel_all-Serves false = elim (Bool-cases (is_set (context_at m fd).events)) [
    | inl h ↦
        let (m', r, none_left, d) = cancel_all-delivers m fd known v h in
        Delivered-Serves m' (Call.cancel_all fd) (context_at m fd).events refl
          (run-cancel_all m' true false r) (and_self (context_at m fd).events)
          (take-all (context_at m fd)) d
    | inr h ↦
        done-Serves m m (Call.cancel_all fd)
          (run-cancel_all m false false (cancel_all-without false h)) v (OnlyAt-refl m fd)
          (sym (ap (λ (p : Slots × List Task). p.0) (take-none (context_at m fd) h)))
          (sym (
            ap (λ (p : Slots × List Task). m.sched.tasks ++ p.1) (take-none (context_at m fd) h)
            ∙ append-nil m.sched.tasks))
  ]

  run-ready :
      (mask : Event) (trouble fails : Bool) (m' : IoManager)
      → handle_ready m (Ready.descriptor fd mask trouble fails) ≡ Result.ok m'
      → run m (Call.ready fd mask trouble) fails ≡ Result.ok m'
  unfolding run
  run-ready mask trouble fails m' r = r

  ready-Serves :
      (mask : Event) (trouble fails : Bool)
      → and_event (events_of (view_context (context_at m fd))) mask ≡ mask
      → Serves m (Call.ready fd mask trouble) fails
  ready-Serves mask trouble true h =
      failed-Serves m _ v
        (run-ready mask trouble true m (handle_ready-failed m fd known v mask trouble))
  ready-Serves mask trouble false h =
      let subset : and_event (context_at m fd).events mask ≡ mask =
        ap (λ (a : Event). and_event a mask) (sym (events_of-view (context_at m fd))) ∙ h in
      elim (handle_ready-delivers m fd known v mask trouble false subset) [
        | inl (bad, r) ↦ absurd (true≢false (sym bad))
        | inr (m', r, d) ↦
            Delivered-Serves m' (Call.ready fd mask trouble)
              (real_events (context_at m fd).events mask trouble) refl
              (run-ready mask trouble false m' r)
              (real-subset (context_at m fd).events mask trouble subset)
              (take-real (context_at m fd) mask trouble) d
      ]

-- An event call on a manager in order, with any result of `epoll_ctl`, that keeps to what the registry
-- expects.
pub call-Serves :
    (m : IoManager) (c : Call) (fails : Bool)
    → Inv m
    → IsServed (length m.contexts) (view_context (context_at m (fd_of c))) c fails
    → Serves m c fails
call-Serves m (Call.add fd event cb caller) fails v (known, single, ready) =
    add-Serves m fd event known single v cb caller fails ready
call-Serves m (Call.del fd event) fails v (known, single, h) =
    del-Serves m fd event known single v fails h
call-Serves m (Call.cancel fd event) fails v (known, single, h) =
    cancel-Serves m fd event known single v fails h
call-Serves m (Call.cancel_all fd) fails v known = cancel_all-Serves m fd known v fails
call-Serves m (Call.ready fd mask trouble) fails v (known, h) =
    ready-Serves m fd known v mask trouble fails h
