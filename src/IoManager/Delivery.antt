-- ===== src/IoManager/Delivery.antt =====
-- The events of `cancelAll` and of a ready descriptor in `idle` end with their tasks in the queue
-- (src/iomanager/ioscheduler.cc).
use coroutinelib.Base.{
  ℕ, ◌<◌, ◌≡◌, refl, sym, subst, ap, ◌∙◌, Bool, true, false, arith, length, ◌⊎◌, inl, inr,
  if◌then◌else◌, Bool-cases,
}
use coroutinelib.Faults.{Result}
use coroutinelib.IoManager.Event.{Event, without, and_event, is_set, has}
use coroutinelib.IoManager.{IoManager, context_at}
use coroutinelib.IoManager.Events.{cancel_all, trigger_if}
use coroutinelib.IoManager.Removal.{ltb-true}
use coroutinelib.IoManager.Idle.{Ready, handle_ready, real_events}
use coroutinelib.IoManager.Invariant.{Inv, OnlyAt-refl}
use coroutinelib.IoManager.TwoEvents.{Delivered, two_steps}

module _ (m : IoManager) (fd : ℕ) (got : Event) where
  handle_ready-eq :
      (mask : Event) (trouble : Bool) (m1 m2 : IoManager)
      → real_events (context_at m fd).events mask trouble ≡ got
      → has (context_at m fd).events got ≡ true
      → trigger_if (has got Event.read) m fd Event.read ≡ Result.ok m1
      → trigger_if (has got Event.write) m1 fd Event.write ≡ Result.ok m2
      → handle_ready m (Ready.descriptor fd mask trouble false) ≡ Result.ok m2
  unfolding handle_ready
  handle_ready-eq mask trouble m1 m2 e h r1 r2 = rw (e, h, handle_ready, r1) r2

pub real-subset :
    (a mask : Event) (trouble : Bool)
    → and_event a mask ≡ mask
    → and_event a (real_events a mask trouble) ≡ real_events a mask trouble
real-subset a mask trouble h = ground arith

subset-none : (a r : Event) → and_event a r ≡ r → has a r ≡ false → r ≡ Event.none
subset-none a r s h = ground arith

pub and_self : (a : Event) → and_event a a ≡ a
and_self a = ground arith

without_self : (a : Event) → without a a ≡ Event.none
without_self a = ground arith

has-after_read :
    (a : Event)
    → has (if has a Event.read then without a Event.read else a) Event.write ≡ has a Event.write
has-after_read a = ground arith

-- Without events nothing is done.
Delivered-none :
    (m : IoManager) (fd : ℕ) (got : Event) → got ≡ Event.none → Inv m → Delivered got m fd m
Delivered-none m fd got e v =
    subst (λ (r : Event). Delivered r m fd m) (sym e)
      (record {
        inv = v;
        events = refl;
        count = omega arith;
        only = OnlyAt-refl m fd;
        kept = λ e single h. refl;
        sched = refl;
      })

module _ (m : IoManager) (fd : ℕ) (known : fd < length m.contexts) (v : Inv m) where
  pub handle_ready-quiet :
      (mask : Event) (trouble fails : Bool)
      → has (context_at m fd).events (real_events (context_at m fd).events mask trouble) ≡ false
      → handle_ready m (Ready.descriptor fd mask trouble fails) ≡ Result.ok m
  unfolding handle_ready
  handle_ready-quiet mask trouble fails h = rw (h, handle_ready)

  pub handle_ready-failed :
      (mask : Event) (trouble : Bool)
      → handle_ready m (Ready.descriptor fd mask trouble true) ≡ Result.ok m
  unfolding handle_ready
  handle_ready-failed mask trouble =
      elim (Bool-cases
        (has (context_at m fd).events (real_events (context_at m fd).events mask trouble))) [
          | inl e ↦ rw (e, handle_ready)
          | inr e ↦ rw (e, handle_ready)
        ]

  -- A ready descriptor in `idle`, reported with no more flags than are registered, with or without
  -- EPOLLERR or EPOLLHUP: if `epoll_ctl` fails nothing changes; else the events that it stands for
  -- (all registered ones for an error) are no longer registered, each has had its callback or fiber
  -- given to `scheduleLock` once, READ before WRITE, no other descriptor's context changes, and the
  -- manager stays in order with that many events less.
  pub handle_ready-delivers :
      (mask : Event) (trouble fails : Bool)
      → and_event (context_at m fd).events mask ≡ mask
      → ((fails ≡ true) × (handle_ready m (Ready.descriptor fd mask trouble fails) ≡ Result.ok m))
        ⊎ ((m' : IoManager) × (handle_ready m (Ready.descriptor fd mask trouble fails)
              ≡ Result.ok m')
            × Delivered (real_events (context_at m fd).events mask trouble) m fd m')
  handle_ready-delivers mask trouble true subset = inl (refl, handle_ready-failed mask trouble)
  handle_ready-delivers mask trouble false subset =
      let got = real_events (context_at m fd).events mask trouble in
      let within = real-subset (context_at m fd).events mask trouble subset in
      inr (elim (Bool-cases (has (context_at m fd).events got)) [
        | inl e ↦
            let t = two_steps m fd got known v within in
            (
              t.last,
              handle_ready-eq m fd got mask trouble t.middle t.last refl e t.first_runs
                  t.second_runs,
              t.delivered,
            )
        | inr e ↦ (
          m,
          handle_ready-quiet mask trouble false e,
          Delivered-none m fd got (subset-none (context_at m fd).events got within e) v,
        )
      ])

  cancel_all-eq :
      (m1 m2 : IoManager)
      → is_set (context_at m fd).events ≡ true
      → trigger_if (has (context_at m fd).events Event.read) m fd Event.read ≡ Result.ok m1
      → trigger_if (has (context_at m1 fd).events Event.write) m1 fd Event.write ≡ Result.ok m2
      → is_set (context_at m2 fd).events ≡ false
      → cancel_all m fd false ≡ Result.ok (m2, true)
  unfolding cancel_all
  cancel_all-eq m1 m2 s r1 r2 n =
      rw (ltb-true fd (length m.contexts) known, s, cancel_all, r1, r2, n)

  -- `cancelAll` of a descriptor with registered events, with `epoll_ctl` succeeding: it returns
  -- true, no event of the descriptor is registered any more, each has had its callback or fiber
  -- given to `scheduleLock` once, READ before WRITE, no other descriptor's context changes, and the
  -- manager stays in order with that many events less.
  pub cancel_all-delivers :
      is_set (context_at m fd).events ≡ true
      → (m' : IoManager) × (cancel_all m fd false ≡ Result.ok (m', true))
        × ((context_at m' fd).events ≡ Event.none)
        × Delivered (context_at m fd).events m fd m'
  cancel_all-delivers s =
      let events = (context_at m fd).events in
      let t = two_steps m fd events known v (and_self events) in
      let none_left = t.delivered.events ∙ without_self events in
      let second_test : has (context_at t.middle fd).events Event.write ≡ has events Event.write =
        ap (λ (a : Event). has a Event.write) t.first.events ∙ has-after_read events in
      (
        t.last,
        cancel_all-eq t.middle t.last s t.first_runs
            (ap (λ (b : Bool). trigger_if b t.middle fd Event.write) second_test ∙ t.second_runs)
            (ap is_set none_left),
        none_left,
        t.delivered,
      )
