-- ===== src/Server/Relisten.antt =====
-- The server of src/main.cc goes on listening.
use coroutinelib.Base.{
  ℕ, ◌+◌, ◌<◌, ◌≤◌, ◌≡◌, ◌≢◌, refl, sym, ap, ◌∙◌, Option, none, some, Bool, true, false, ◌⊎◌, inl,
  inr, arith, length, ltb,
}
use coroutinelib.Faults.{Fault, Result}
use coroutinelib.Callback.{Callback}
use coroutinelib.Scheduler.{cb_task, schedule_lock}
use coroutinelib.IoManager.Event.{Event, and_event, without, has, is_read}
use coroutinelib.IoManager.Context.Consistent.{task_of}
use coroutinelib.IoManager.Event.Laws.{has-or_self, has-without_self}
use coroutinelib.IoManager.Context.{FdContext, EventContext}
use coroutinelib.IoManager.{IoManager, context_at}
use coroutinelib.IoManager.Events.{Caller, add_event}
use coroutinelib.IoManager.Idle.{Ready, handle_ready}
use coroutinelib.IoManager.Invariant.{Inv, OnlyAt, registered}
use coroutinelib.IoManager.Registered.{Added, new_event_context, add_event-safe, add_event-refuses}
use coroutinelib.IoManager.Kernel.Agreement.{kept_elsewhere, true≢false}
use coroutinelib.IoManager.Registry.Steps.{OnlyAt-size}
use coroutinelib.IoManager.TwoEvents.{Delivered}
use coroutinelib.IoManager.Delivery.{handle_ready-delivers}
use coroutinelib.Server.Accept.{on_accept, on_readable, on_accepted, watch_io_read, test_accept}

ltb-false : (a b : ℕ) → b ≤ a → ltb a b ≡ false
ltb-false a b h = ground arith

-- The callback waits for the descriptor to be readable.
pub record Awaits (m : IoManager) (fd : ℕ) (cb : Callback) : Type 0 where
  pub set : has (context_at m fd).events Event.read ≡ true
  pub stored : (context_at m fd).read ≡ record { scheduled = true; fiber = none; cb = some cb }

-- A descriptor with a context that waits for nothing to read.
abbrev pub IsIdle : IoManager → ℕ → Type 0
IsIdle m fd = (fd < length m.contexts) × (has (context_at m fd).events Event.read ≡ false)

-- What `accept` returned: nothing, or such a descriptor other than the listening one.
abbrev pub IsFresh : IoManager → (listen_fd : ℕ) → Option ℕ → Type 0
IsFresh m listen_fd none = Unit {0}
IsFresh m listen_fd (some fd) = IsIdle m fd × (fd ≢ listen_fd)

-- The callback of a connection is set, if there is one.
abbrev pub Serving : IoManager → Option ℕ → Type 0
Serving m none = Unit {0}
Serving m (some fd) = Awaits m fd (on_readable fd)

abbrev pub connections : Option ℕ → ℕ
connections none = 0
connections (some fd) = 1

Awaits-elsewhere :
    (m m' : IoManager) (fd other : ℕ) (cb : Callback)
    → OnlyAt m fd m'
    → fd ≢ other
    → Awaits m other cb
    → Awaits m' other cb
Awaits-elsewhere m m' fd other cb only n w =
    let e = kept_elsewhere m m' fd other only n in
    record {
      set = ap (λ (c : FdContext). has c.events Event.read) e ∙ w.set;
      stored = ap (λ (c : FdContext). c.read) e ∙ w.stored;
    }

IsIdle-elsewhere :
    (m m' : IoManager) (fd other : ℕ)
    → OnlyAt m fd m'
    → fd ≢ other
    → IsIdle m other
    → IsIdle m' other
IsIdle-elsewhere m m' fd other only n (known, unset) = (
  omega (arith, OnlyAt-size m m' fd only, known),
  ap (λ (c : FdContext). has c.events Event.read) (kept_elsewhere m m' fd other only n) ∙ unset,
)

-- `addEvent` of READ for an idle descriptor.
record Reads (m : IoManager) (fd : ℕ) (cb : Callback) (caller : Caller) : Type 0 where
  io : IoManager
  runs : add_event m fd Event.read (some cb) caller false ≡ Result.ok (io, true)
  inv : Inv io
  only : OnlyAt m fd io
  awaits : Awaits io fd cb
  one_more : registered io.contexts ≡ registered m.contexts + 1

add_read :
    (m : IoManager) (fd : ℕ) (cb : Callback) (caller : Caller)
    → Inv m
    → IsIdle m fd
    → caller.scheduled ≡ true
    → Reads m fd cb caller
add_read m fd cb caller v (known, unset) scheduled =
    go (add_event-safe m fd Event.read (some cb) caller known false is_read v (scheduled, refl))
  where
    go :
        (((has (context_at m fd).events Event.read ≡ true) ⊎ (false ≡ true))
            × (add_event m fd Event.read (some cb) caller false ≡ Result.ok (m, false)))
          ⊎ ((m' : IoManager) × (add_event m fd Event.read (some cb) caller false
                ≡ Result.ok (m', true))
              × Added m fd Event.read (new_event_context (some cb) caller) m')
        → Reads m fd cb caller
    go (inl (inl old, r)) = absurd (true≢false (sym old ∙ unset))
    go (inl (inr bad, r)) = absurd (true≢false (sym bad))
    go (inr (m', r, added)) = record {
      io = m';
      runs = r;
      inv = added.inv;
      only = added.only;
      awaits = record {
        set =
            ap (λ (a : Event). has a Event.read) added.events
            ∙ has-or_self (context_at m fd).events Event.read is_read;
        stored =
            added.stored
            ∙ ap (λ (b : Bool). record { scheduled = b; fiber = none; cb = some cb }) scheduled;
      };
      one_more = added.one_more;
    }

-- What `test_accept` has to leave behind.
pub record Relistens (m : IoManager) (listen_fd : ℕ) (accepted : Option ℕ) (m' : IoManager)
    : Type 0 where
  pub inv : Inv m'
  pub listening : Awaits m' listen_fd on_accept
  pub serving : Serving m' accepted
  pub count : registered m'.contexts ≡ registered m.contexts + 1 + connections accepted

module _ (m : IoManager) (listen_fd : ℕ) (caller : Caller) (v : Inv m)
    (scheduled : caller.scheduled ≡ true) where
  -- `test_accept` of the idle listening descriptor, called by a thread of the manager, when `accept`
  -- fails or gives another idle descriptor that has a context, and `epoll_ctl` succeeds: the manager
  -- stays in order, `test_accept` waits for the listening descriptor again, the callback of the
  -- connection, if there is one, waits for its data, and nothing else is registered.
  pub test_accept-Relistens :
      (accepted : Option ℕ)
      → IsIdle m listen_fd
      → IsFresh m listen_fd accepted
      → (m' : IoManager) × (test_accept m listen_fd accepted caller false false ≡ Result.ok m')
        × Relistens m listen_fd accepted m'
  unfolding test_accept on_accepted watch_io_read
  test_accept-Relistens none idle fresh =
      let r = add_read m listen_fd on_accept caller v idle scheduled in
      (
        r.io,
        rw (r.runs),
        record {
          inv = r.inv;
          listening = r.awaits;
          serving = tt;
          count = omega (arith, r.one_more);
        },
      )
  test_accept-Relistens (some fd) idle (fd_idle, n) =
      let r = add_read m fd (on_readable fd) caller v fd_idle scheduled in
      let r' =
        add_read r.io listen_fd on_accept caller r.inv
          (IsIdle-elsewhere m r.io fd listen_fd r.only n idle) scheduled in
      (
        r'.io,
        rw (r.runs, r'.runs),
        record {
          inv = r'.inv;
          listening = r'.awaits;
          serving =
              Awaits-elsewhere r.io r'.io listen_fd fd (on_readable fd) r'.only (λ e. n (sym e))
                r.awaits;
          count = omega (arith, r.one_more, r'.one_more);
        },
      )

  -- A connection whose `epoll_ctl` fails is treated like a failed `accept`: nothing waits for it, and
  -- nothing closes it.
  pub test_accept-lost :
      (fd : ℕ) (last_fails : Bool)
      → fd < length m.contexts
      → test_accept m listen_fd (some fd) caller true last_fails
        ≡ test_accept m listen_fd none caller true last_fails
  unfolding test_accept on_accepted
  test_accept-lost fd last_fails known =
      rw (add_event-refuses m fd Event.read (some (on_readable fd)) caller known true (inr refl))

  -- A connection whose descriptor has no context: the thread waits for its own lock, and the listening
  -- descriptor is not registered again.
  pub test_accept-deadlock :
      (fd : ℕ) (fails last_fails : Bool)
      → length m.contexts ≤ fd
      → test_accept m listen_fd (some fd) caller fails last_fails ≡ Result.err Fault.deadlock
  unfolding test_accept on_accepted add_event
  test_accept-deadlock fd fails last_fails out = rw (ltb-false fd (length m.contexts) out)

without_read : (a : Event) → has (without a Event.read) Event.read ≡ false
without_read a = has-without_self a Event.read is_read

read_within : (a : Event) → has a Event.read ≡ true → and_event a Event.read ≡ Event.read
read_within a h = ground arith

-- A round for the listening descriptor: the report, and the callback that it scheduled.
pub record Cycle (m : IoManager) (listen_fd : ℕ) (accepted : Option ℕ) (caller : Caller)
    : Type 0 where
  pub reported : IoManager
  pub last : IoManager
  pub report_runs :
      handle_ready m (Ready.descriptor listen_fd Event.read false false) ≡ Result.ok reported
  pub scheduled : reported.sched ≡ (schedule_lock m.sched (cb_task (some on_accept) none)).0
  pub callback_runs : test_accept reported listen_fd accepted caller false false ≡ Result.ok last
  pub inv : Inv last
  pub listening : Awaits last listen_fd on_accept
  pub serving : Serving last accepted
  pub count : registered last.contexts ≡ registered m.contexts + connections accepted

module _ (m : IoManager) (listen_fd : ℕ) (caller : Caller) (v : Inv m)
    (scheduled : caller.scheduled ≡ true) (known : listen_fd < length m.contexts)
    (listening : Awaits m listen_fd on_accept) where
  IsFresh-later :
      (m' : IoManager) (accepted : Option ℕ)
      → OnlyAt m listen_fd m'
      → IsFresh m listen_fd accepted
      → IsFresh m' listen_fd accepted
  IsFresh-later m' none only fresh = tt
  IsFresh-later m' (some fd) only (idle, n) =
      (IsIdle-elsewhere m m' listen_fd fd only (λ e. n (sym e)) idle, n)

  Cycle-from :
      (accepted : Option ℕ) (m' : IoManager)
      → IsFresh m listen_fd accepted
      → handle_ready m (Ready.descriptor listen_fd Event.read false false) ≡ Result.ok m'
      → Delivered Event.read m listen_fd m'
      → Cycle m listen_fd accepted caller
  Cycle-from accepted m' fresh r d =
      let idle : IsIdle m' listen_fd = (
        omega (arith, OnlyAt-size m m' listen_fd d.only, known),
        ap (λ (a : Event). has a Event.read) d.events
            ∙ without_read (context_at m listen_fd).events,
      ) in
      let (last, runs, w) =
        test_accept-Relistens m' listen_fd caller d.inv scheduled accepted idle
          (IsFresh-later m' accepted d.only fresh) in
      record {
        reported = m';
        last = last;
        report_runs = r;
        scheduled =
            d.sched
            ∙ ap (λ (e : EventContext). (schedule_lock m.sched (task_of e)).0) listening.stored;
        callback_runs = runs;
        inv = w.inv;
        listening = w.listening;
        serving = w.serving;
        count = omega (arith, w.count, d.count);
      }

  -- While `test_accept` waits for the listening descriptor of a manager in order, a report that it is
  -- readable, with `epoll_ctl` succeeding, schedules `test_accept` once; and when `test_accept` runs
  -- next, `accept` failing or giving another idle descriptor that has a context and `epoll_ctl`
  -- succeeding, it waits for the listening descriptor as before, the callback of the connection, if
  -- there is one, waits for its data, and the manager is in order.
  pub accept-Cycle :
      (accepted : Option ℕ) → IsFresh m listen_fd accepted → Cycle m listen_fd accepted caller
  accept-Cycle accepted fresh =
      elim (handle_ready-delivers m listen_fd known v Event.read false false
        (read_within (context_at m listen_fd).events listening.set)) [
          | inl (bad, r) ↦ absurd (true≢false (sym bad))
          | inr (m', r, d) ↦ Cycle-from accepted m' fresh r d
        ]
