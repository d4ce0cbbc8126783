-- ===== src/IoManager/Registered.antt =====
-- Registering and removing events keeps `IOManager` in order (src/iomanager/ioscheduler.cc).
use coroutinelib.Base.{
  ℕ, ◌+◌, ◌<◌, ◌≡◌, ◌≢◌, refl, sym, subst, ap, ◌∙◌, Option, none, some, Bool, true, false, ◌||◌,
  arith, length, set, get_or, length-set, All-set, ◌⊎◌, inl, inr, if◌then◌else◌, is_some,
  get_or-set_self, Bool-cases, ltb,
}
use coroutinelib.Faults.{Result}
use coroutinelib.Callback.{Callback}
use coroutinelib.IoManager.Event.{Event, or_event, has, flags, IsSingle, is_read, is_write}
use coroutinelib.IoManager.Event.Laws.{has-or_self, has-or_read, has-or_write, flags-or}
use coroutinelib.IoManager.Context.{FdContext, EventContext, new_context}
use coroutinelib.IoManager.Context.Consistent.{IsConsistent, Fits, context_of}
use coroutinelib.IoManager.{IoManager, context_at, put_context, count_up}
use coroutinelib.IoManager.Events.{Caller, fill_event_context, add_event}
use coroutinelib.IoManager.Invariant.{
  registered, registered-set, registered-le, Inv, context_at-IsConsistent, OnlyAt,
}

ltb-true : (a b : ℕ) → a < b → ltb a b ≡ true
ltb-true a b h = ground arith

-- The event context that `addEvent` fills.
abbrev pub new_event_context : Option Callback → Caller → EventContext
new_event_context cb caller = record {
  scheduled = caller.scheduled;
  fiber = if is_some cb then none else some caller.fiber;
  cb = cb;
}

-- What `addEvent` makes of a context without the event.
pub record Filled (c : FdContext) (event : Event) (e : EventContext) (c' : FdContext) : Type 0 where
  pub consistent : IsConsistent c'
  pub stored : context_of c' event ≡ e
  pub events : c'.events ≡ or_event c.events event
  pub flags_more : flags c'.events ≡ flags c.events + 1
  pub kept :
      (other : Event) → IsSingle other → other ≢ event → context_of c' other ≡ context_of c other

-- The calling thread has a scheduler, and a callback is given or the calling fiber is running.
abbrev pub IsReady : Option Callback → Caller → Type 0
IsReady cb caller = (caller.scheduled ≡ true) × ((is_some cb || caller.running) ≡ true)

new-IsFilled :
    (cb : Option Callback) (caller : Caller)
    → ((is_some cb || is_some (if is_some cb then none else some caller.fiber)) ≡ true)
new-IsFilled none caller = refl
new-IsFilled (some f) caller = refl

kept_by_read :
    (c : FdContext) (e : EventContext) (other : Event)
    → IsSingle other
    → other ≢ Event.read
    → context_of (record c { events = or_event c.events Event.read; read = e }) other
      ≡ context_of c other
kept_by_read c e _ is_read n = absurd (n refl)
kept_by_read c e _ is_write n = refl

kept_by_write :
    (c : FdContext) (e : EventContext) (other : Event)
    → IsSingle other
    → other ≢ Event.write
    → context_of (record c { events = or_event c.events Event.write; write = e }) other
      ≡ context_of c other
kept_by_write c e _ is_read n = refl
kept_by_write c e _ is_write n = absurd (n refl)

fill_event_context-Filled :
    (c : FdContext) (event : Event) (cb : Option Callback) (caller : Caller)
    → IsSingle event
    → IsConsistent c
    → has c.events event ≡ false
    → IsReady cb caller
    → (c' : FdContext) × (fill_event_context
          (record c { events = or_event c.events event })
          event
          cb
          caller
        ≡ Result.ok c')
      × Filled c event (new_event_context cb caller) c'
unfolding fill_event_context
fill_event_context-Filled c _ cb caller is_read v h (scheduled, ready) = (
  record c { events = or_event c.events Event.read; read = new_event_context cb caller },
  rw (subst (λ b. Fits b c.read) h v.reads, ready, fill_event_context),
  record {
    consistent = record {
      reads =
          subst (λ b. Fits b (new_event_context cb caller))
            (sym (has-or_self c.events Event.read is_read)) (scheduled, new-IsFilled cb caller);
      writes = subst (λ b. Fits b c.write) (sym (has-or_read c.events)) v.writes;
    };
    stored = refl;
    events = refl;
    flags_more = flags-or c.events Event.read is_read h;
    kept = kept_by_read c (new_event_context cb caller);
  },
)
fill_event_context-Filled c _ cb caller is_write v h (scheduled, ready) = (
  record c { events = or_event c.events Event.write; write = new_event_context cb caller },
  rw (subst (λ b. Fits b c.write) h v.writes, ready, fill_event_context),
  record {
    consistent = record {
      reads = subst (λ b. Fits b c.read) (sym (has-or_write c.events)) v.reads;
      writes =
          subst (λ b. Fits b (new_event_context cb caller))
            (sym (has-or_self c.events Event.write is_write)) (scheduled, new-IsFilled cb caller);
    };
    stored = refl;
    events = refl;
    flags_more = flags-or c.events Event.write is_write h;
    kept = kept_by_write c (new_event_context cb caller);
  },
)

-- What a successful `addEvent` has done.
pub record Added (m : IoManager) (fd : ℕ) (event : Event) (e : EventContext) (m' : IoManager)
    : Type 0 where
  pub inv : Inv m'
  pub one_more : registered m'.contexts ≡ registered m.contexts + 1
  pub stored : context_of (context_at m' fd) event ≡ e
  pub events : (context_at m' fd).events ≡ or_event (context_at m fd).events event
  pub only : OnlyAt m fd m'
  pub kept :
      (other : Event)
      → IsSingle other
      → other ≢ event
      → context_of (context_at m' fd) other ≡ context_of (context_at m fd) other
  pub sched : m'.sched ≡ m.sched

module _ (m : IoManager) (fd : ℕ) (event : Event) (cb : Option Callback) (caller : Caller)
    (known : fd < length m.contexts) where
  add_event-eq :
      (c' : FdContext)
      → has (context_at m fd).events event ≡ false
      → fill_event_context
          (record (context_at m fd) { events = or_event (context_at m fd).events event })
          event
          cb
          caller
        ≡ Result.ok c'
      → add_event m fd event cb caller false
        ≡ Result.ok (record (put_context m fd c') { pending = count_up m.pending }, true)
  unfolding add_event
  add_event-eq c' h e = rw (ltb-true fd (length m.contexts) known, h, e, add_event)

  pub add_event-refuses :
      (fails : Bool)
      → (has (context_at m fd).events event ≡ true) ⊎ (fails ≡ true)
      → add_event m fd event cb caller fails ≡ Result.ok (m, false)
  unfolding add_event
  add_event-refuses fails (inl h) = rw (ltb-true fd (length m.contexts) known, h, add_event)
  add_event-refuses fails (inr h) =
      rw (ltb-true fd (length m.contexts) known, h, add_event) (ground arith)

  put_context-Added :
      (c' : FdContext)
      → Inv m
      → has (context_at m fd).events event ≡ false
      → Filled (context_at m fd) event (new_event_context cb caller) c'
      → Added m fd event
          (new_event_context cb caller)
          (record (put_context m fd c') { pending = count_up m.pending })
  put_context-Added c' v h f = record {
    inv = record {
      consistent = All-set IsConsistent m.contexts fd c' f.consistent v.consistent;
      counted = omega (arith, more, v.counted, v.room, registered-le m.contexts);
      room = omega (arith, length-set m.contexts fd c', v.room);
    };
    one_more = more;
    stored = ap (λ (c : FdContext). context_of c event) here ∙ f.stored;
    events = ap (λ (c : FdContext). c.events) here ∙ f.events;
    only = record { contexts = ap (set m.contexts fd) (sym here); timer = refl };
    kept = λ other s n. ap (λ (c : FdContext). context_of c other) here ∙ f.kept other s n;
    sched = refl;
  }
    where
      here : get_or (set m.contexts fd c') fd (new_context fd) ≡ c'
      here = get_or-set_self m.contexts fd c' (new_context fd) known

      more : registered (set m.contexts fd c') ≡ registered m.contexts + 1
      more = omega (arith, registered-set m.contexts fd c' (new_context fd) known, f.flags_more)

  -- `addEvent` of READ or WRITE on a descriptor that has a context, from a thread that has a
  -- scheduler, with a callback or a running fiber: it returns -1 and changes nothing if the event
  -- is registered or `epoll_ctl` fails; else it returns 0, the event is registered with its
  -- callback or fiber, no other context changes, and the manager stays in order with one event
  -- more.
  pub add_event-safe :
      (fails : Bool)
      → IsSingle event
      → Inv m
      → IsReady cb caller
      → (((has (context_at m fd).events event ≡ true) ⊎ (fails ≡ true))
          × (add_event m fd event cb caller fails ≡ Result.ok (m, false)))
        ⊎ ((m' : IoManager) × (add_event m fd event cb caller fails ≡ Result.ok (m', true))
            × Added m fd event (new_event_context cb caller) m')
  add_event-safe fails single v ready = elim (Bool-cases (has (context_at m fd).events event)) [
    | inl old ↦ inl (inl old, add_event-refuses fails (inl old))
    | inr new ↦ elim (Bool-cases fails) [
      | inl bad ↦ inl (inr bad, add_event-refuses fails (inr bad))
      | inr good ↦
          let (c', runs, f) =
            fill_event_context-Filled (context_at m fd) event cb caller single
              (context_at-IsConsistent m fd v.consistent) new ready in
          inr (
            record (put_context m fd c') { pending = count_up m.pending },
            rw good (add_event-eq c' new runs),
            put_context-Added c' v new f,
          )
    ]
  ]
