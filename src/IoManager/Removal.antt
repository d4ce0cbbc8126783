-- ===== src/IoManager/Removal.antt =====
-- Removing events (src/iomanager/ioscheduler.cc): `delEvent`, `cancelEvent` and `cancelAll`.
use coroutinelib.Base.{
  ℕ, ◌+◌, ◌^◌, ◌<◌, ◌≡◌, refl, sym, subst, ap, ◌∙◌, true, false, arith, length, set, get_or,
  length-set, All-set, get_or-set_self, ltb,
}
use coroutinelib.Faults.{Result}
use coroutinelib.IoManager.Event.{Event, without, not_and, has, flags, IsSingle, is_read, is_write}
use coroutinelib.IoManager.Event.Laws.{without-absent, Event-cases}
use coroutinelib.IoManager.Context.{new_context, reset_event_context}
use coroutinelib.IoManager.Context.Consistent.{IsConsistent, Triggered, cleared, cleared-Triggered}
use coroutinelib.IoManager.{IoManager, context_at, put_context, count_down}
use coroutinelib.IoManager.Events.{del_event}
use coroutinelib.IoManager.Invariant.{
  registered, registered-set, registered-le, Inv, TriggeredAt, context_at-IsConsistent, OnlyAt,
}

pub ltb-true : (a b : ℕ) → a < b → ltb a b ≡ true
ltb-true a b h = ground arith

-- Counting down by the event that was removed.
pub counted-down :
    (n before after : ℕ) → n ≡ before → after + 1 ≡ before → before < 2 ^ 64 → count_down n ≡ after
counted-down n before after e d h = omega (arith, e, d, h)

pub registered-bound : (m : IoManager) → Inv m → registered m.contexts < 2 ^ 64
registered-bound m v = omega (arith, registered-le m.contexts, v.room)

pub not_and-registered : (a e : Event) → IsSingle e → has a e ≡ true → not_and a e ≡ false
not_and-registered a _ is_read =
    Event-cases (λ b. has b Event.read ≡ true → not_and b Event.read ≡ false) (λ h. cc) (λ h. refl)
      (λ h. cc) (λ h. refl) a
not_and-registered a _ is_write =
    Event-cases (λ b. has b Event.write ≡ true → not_and b Event.write ≡ false) (λ h. cc) (λ h. cc)
      (λ h. refl) (λ h. refl) a

-- A manager from which one registered event has gone.
pub record Removed (m : IoManager) (fd : ℕ) (event : Event) (m' : IoManager) : Type 0 where
  pub inv : Inv m'
  pub one_less : registered m'.contexts + 1 ≡ registered m.contexts
  pub context : Triggered (context_at m fd) event (context_at m' fd)
  pub only : OnlyAt m fd m'

-- `triggerEvent` of a registered event together with the count.
pub trigger_count :
    (m m' : IoManager) (fd : ℕ) (event : Event)
    → IsSingle event
    → Inv m
    → TriggeredAt m fd event m'
    → Removed m fd event (record m' { pending = count_down m'.pending })
trigger_count m m' fd event single v t = record {
  inv = record {
    consistent = t.consistent;
    counted =
        counted-down m'.pending (registered m.contexts) (registered m'.contexts)
          (t.pending ∙ v.counted) t.one_less (registered-bound m v);
    room = omega (arith, t.size, v.room);
  };
  one_less = t.one_less;
  context = t.context;
  only = record { contexts = t.only.contexts; timer = t.only.timer };
}

module _ (m : IoManager) (fd : ℕ) (event : Event) (known : fd < length m.contexts)
    (single : IsSingle event) where
  abbrev deleted : IoManager
  deleted = record (put_context m fd (cleared (context_at m fd) event)) {
    pending = count_down m.pending;
  }

  -- Both `delEvent` and `cancelEvent` go on to `epoll_ctl` when their test lets them.
  del_event-eq :
      not_and (context_at m fd).events event ≡ false
      → del_event m fd event false ≡ Result.ok (deleted, true)
  unfolding del_event
  del_event-eq h = go event single h
    where
      go :
          (e : Event)
          → IsSingle e
          → not_and (context_at m fd).events e ≡ false
          → del_event m fd e false
            ≡ Result.ok (
              record (put_context m fd (cleared (context_at m fd) e)) {
                pending = count_down m.pending;
              },
              true,
            )
      go _ is_read h = rw (ltb-true fd (length m.contexts) known, h, del_event)
      go _ is_write h = rw (ltb-true fd (length m.contexts) known, h, del_event)

  here :
      get_or (set m.contexts fd (cleared (context_at m fd) event)) fd (new_context fd)
      ≡ cleared (context_at m fd) event
  here = get_or-set_self m.contexts fd (cleared (context_at m fd) event) (new_context fd) known

  cleared_count :
      registered (set m.contexts fd (cleared (context_at m fd) event))
        + flags (context_at m fd).events
      ≡ flags (cleared (context_at m fd) event).events + registered m.contexts
  cleared_count =
      registered-set m.contexts fd (cleared (context_at m fd) event) (new_context fd) known

  -- `delEvent` of a registered event, with `epoll_ctl` succeeding: it returns true, the event is
  -- gone without being scheduled, the rest of the contexts is as before, and the manager stays in
  -- order with one event less.
  pub del_event-registered :
      Inv m
      → has (context_at m fd).events event ≡ true
      → (m' : IoManager) × (del_event m fd event false ≡ Result.ok (m', true))
        × Removed m fd event m'
        × (m'.sched ≡ m.sched)
  del_event-registered v h =
      let t =
        cleared-Triggered (context_at m fd) event single (context_at-IsConsistent m fd v.consistent)
          h in
      let less : registered deleted.contexts + 1 ≡ registered m.contexts =
        omega (arith, cleared_count, t.flags_left) in
      (
        deleted,
        del_event-eq (not_and-registered (context_at m fd).events event single h),
        record {
          inv = record {
            consistent = All-set IsConsistent m.contexts fd _ t.consistent v.consistent;
            counted =
                counted-down m.pending (registered m.contexts) (registered deleted.contexts)
                  v.counted less (registered-bound m v);
            room =
                omega (arith, length-set m.contexts fd (cleared (context_at m fd) event), v.room);
          };
          one_less = less;
          context = subst (Triggered (context_at m fd) event) (sym here) t;
          only = record { contexts = ap (set m.contexts fd) (sym here); timer = refl };
        },
        refl,
      )

  cleared-events : (cleared (context_at m fd) event).events ≡ without (context_at m fd).events event
  unfolding reset_event_context
  cleared-events = go event single
    where
      go :
          (e : Event)
          → IsSingle e
          → (cleared (context_at m fd) e).events ≡ without (context_at m fd).events e
      go _ is_read = refl
      go _ is_write = refl

  -- `delEvent` of an event that is not registered, which its test lets through unless the event is
  -- READ and no event is registered, with `epoll_ctl` succeeding: it returns true and counts one
  -- event down although the number of registered events stays, so that the manager is out of order.
  pub del_event-absent :
      Inv m
      → has (context_at m fd).events event ≡ false
      → not_and (context_at m fd).events event ≡ false
      → (m' : IoManager) × (del_event m fd event false ≡ Result.ok (m', true))
        × (registered m'.contexts ≡ registered m.contexts)
        × (m'.pending ≡ count_down m.pending)
        × (¬ (Inv m'))
  del_event-absent v h passes =
      let same : registered deleted.contexts ≡ registered m.contexts = omega (
        arith,
        cleared_count,
        ap flags (cleared-events ∙ without-absent (context_at m fd).events event single h),
      ) in
      (
        deleted,
        del_event-eq passes,
        same,
        refl,
        (λ w. omega (arith, w.counted, same, v.counted, registered-bound m v)),
      )
