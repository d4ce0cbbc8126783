-- ===== src/IoManager/Actions/Closed.antt =====
-- A descriptor that is closed while events are registered for it (src/iomanager/ioscheduler.cc):
-- nothing takes its events out of the manager, the hook of `close` in src/hook/hook.cc being empty.
use coroutinelib.Base.{
  ℕ, ◌<◌, ◌≡◌, ◌≢◌, refl, sym, subst, ap, ◌∙◌, Option, none, some, true, arith, ◌⊎◌, inl, inr,
  length, length-set, get_or,
}
use coroutinelib.Faults.{Result}
use coroutinelib.Epoll.{Epoll}
use coroutinelib.Timer.Manager.Valid.{IsValid}
use coroutinelib.IoManager.Event.{is_set}
use coroutinelib.IoManager.Context.{FdContext, new_context}
use coroutinelib.IoManager.{IoManager, context_at}
use coroutinelib.IoManager.Invariant.{Inv}
use coroutinelib.IoManager.Kernel
use coroutinelib.IoManager.Kernel.{fd_of, run_in}
use coroutinelib.IoManager.Kernel.Agreement.{Agrees, watched, kept_elsewhere}
use coroutinelib.IoManager.Kernel.Calls.{IsPipe, IsAllowed, call-Keeps}
use coroutinelib.IoManager.Kernel.Closed.{NamesSingle, unwatched-keeps}
use coroutinelib.IoManager.Actions.{Inner, Action, perform}
use coroutinelib.IoManager.Actions.Ordered.{IsMet, IsOrdered, inner-Kept, Inv-same}

-- The pipe's reading end and the closed descriptor.
abbrev IsAside : (pipe fd : ℕ) → ℕ → Type 0
IsAside pipe fd i = (i ≡ pipe) ⊎ (i ≡ fd)

-- An action after `fd` was closed: a call or a report for `fd`, naming READ or WRITE if it names an
-- event; a call for another descriptor that keeps to what the manager expects; or one of timers and
-- tasks.
unfoldable pub IsPossibleAfter : (pipe fd : ℕ) → IoManager → Action → Type 0
unfolding IsAllowed IsMet
IsPossibleAfter pipe fd m (Action.event c) =
    ((fd_of c ≡ fd) × NamesSingle c) ⊎ ((fd_of c ≢ fd) × IsAllowed (IsPipe pipe) m c)
IsPossibleAfter pipe fd m (Action.inner a) = IsMet m a

-- The action is a call or a report for `fd`.
abbrev pub IsFor : ℕ → Action → Type 0
IsFor fd (Action.event c) = fd_of c ≡ fd
IsFor fd (Action.inner a) = ⊥

not_either : {A B : Type 0} → ¬ A → ¬ B → A ⊎ B → ⊥
not_either p n (inl a) = p a
not_either p n (inr b) = n b

IsAllowed-IsAside :
    (pipe fd : ℕ) (m : IoManager) (c : Kernel.Call)
    → fd_of c ≢ fd
    → IsAllowed (IsPipe pipe) m c
    → IsAllowed (IsAside pipe fd) m c
unfolding IsAllowed
IsAllowed-IsAside pipe fd m (Kernel.Call.add _ event cb caller) n (p, known, single, ready) =
    ((λ e. not_either p n e), known, single, ready)
IsAllowed-IsAside pipe fd m (Kernel.Call.del _ event) n (p, single, removable) =
    ((λ e. not_either p n e), single, removable)
IsAllowed-IsAside pipe fd m (Kernel.Call.cancel _ event) n (p, single, removable) =
    ((λ e. not_either p n e), single, removable)
IsAllowed-IsAside pipe fd m (Kernel.Call.cancel_all _) n p = λ e. not_either p n e
IsAllowed-IsAside pipe fd m (Kernel.Call.ready _ mask trouble) n p = p

module _ (k : Epoll) (pipe fd : ℕ) (d : FdContext) (set : is_set d.events ≡ true) where
  open k use {State, interest, close, closed, close_other}

  -- The manager has the context `d` for the descriptor, which is not watched; the rest is in order.
  pub record IsForgotten (m : IoManager) (s : State) : Type 0 where
    pub inv : Inv m
    pub agrees : Agrees k (IsAside pipe fd) m s
    pub valid : IsValid m.timer
    pub known : fd < length m.contexts
    pub context : context_at m fd ≡ d
    pub unwatched : interest s fd ≡ none

  -- An action that returns, and changes nothing if it is for the descriptor.
  pub record Forgets (m : IoManager) (s : State) (a : Action) : Type 0 where
    pub io : IoManager
    pub epoll : State
    pub runs : perform k m s a ≡ Result.ok (some (io, epoll))
    pub forgotten : IsForgotten io epoll
    pub unchanged : IsFor fd a → (io ≡ m) × (epoll ≡ s)

  own_call :
      (m : IoManager) (s : State) (c : Kernel.Call)
      → IsForgotten m s
      → fd_of c ≡ fd
      → NamesSingle c
      → Forgets m s (Action.event c)
  unfolding perform
  own_call m s c v e single =
      let at : context_at m (fd_of c) ≡ d = ap (context_at m) e ∙ v.context in
      record {
        io = m;
        epoll = s;
        runs =
            rw
              (unwatched-keeps k m s c v.inv (omega (arith, e, v.known))
                (ap (λ (c : FdContext). is_set c.events) at ∙ set) (ap (interest s) e ∙ v.unwatched)
                single)
              refl;
        forgotten = v;
        unchanged = λ own. (refl, refl);
      }

  other_call :
      (m : IoManager) (s : State) (c : Kernel.Call)
      → IsForgotten m s
      → fd_of c ≢ fd
      → IsAllowed (IsPipe pipe) m c
      → Forgets m s (Action.event c)
  unfolding perform
  other_call m s c v n allowed =
      let w =
        call-Keeps k (IsAside pipe fd) m s c v.inv v.agrees
          (IsAllowed-IsAside pipe fd m c n allowed) in
      record {
        io = w.io;
        epoll = w.epoll;
        runs = rw w.runs refl;
        forgotten = record {
          inv = w.inv;
          agrees = w.agrees;
          valid = subst IsValid (sym w.only.timer) v.valid;
          known = omega (
            arith,
            v.known,
            ap length w.only.contexts,
            length-set m.contexts (fd_of c) (context_at w.io (fd_of c)),
          );
          context = kept_elsewhere m w.io (fd_of c) fd w.only n ∙ v.context;
          unwatched = w.rest fd (λ e. n (sym e)) ∙ v.unwatched;
        };
        unchanged = λ own. absurd (n own);
      }

  inner_action :
      (m : IoManager) (s : State) (a : Inner)
      → IsForgotten m s
      → IsMet m a
      → Forgets m s (Action.inner a)
  unfolding perform
  inner_action m s a v met =
      let w = inner-Kept m a met v.valid in
      let same : (i : ℕ) → context_at w.io i ≡ context_at m i =
        λ i. ap (λ cs. get_or cs i (new_context i)) w.contexts in
      record {
        io = w.io;
        epoll = s;
        runs = rw w.acts refl;
        forgotten = record {
          inv = Inv-same m w.io w.contexts w.pending v.inv;
          agrees = λ i n. v.agrees i n ∙ ap (λ (c : FdContext). watched c.events) (sym (same i));
          valid = w.valid;
          known = omega (arith, v.known, ap length w.contexts);
          context = same fd ∙ v.context;
          unwatched = v.unwatched;
        };
        unchanged = λ own. absurd own;
      }

  action-Forgets :
      (m : IoManager) (s : State) (a : Action)
      → IsForgotten m s
      → IsPossibleAfter pipe fd m a
      → Forgets m s a
  unfolding IsPossibleAfter
  action-Forgets m s (Action.event c) v (inl (e, single)) = own_call m s c v e single
  action-Forgets m s (Action.event c) v (inr (n, allowed)) = other_call m s c v n allowed
  action-Forgets m s (Action.inner a) v met = inner_action m s a v met

  -- Actions one after the other.
  pub data Later (m : IoManager) (s : State) : IoManager → State → Type 0 where
    now : Later m s m s
    then :
        {m1 m2 : IoManager} {s1 s2 : State} (a : Action)
        → Later m s m1 s1
        → IsPossibleAfter pipe fd m1 a
        → perform k m1 s1 a ≡ Result.ok (some (m2, s2))
        → Later m s m2 s2

  IsForgotten-eq :
      (q : Result (Option (IoManager × State))) (m m' : IoManager) (s s' : State)
      → IsForgotten m s
      → q ≡ Result.ok (some (m, s))
      → q ≡ Result.ok (some (m', s'))
      → IsForgotten m' s'
  IsForgotten-eq q m m' s s' v e e' =
      subst (λ (p : IoManager × State). IsForgotten p.0 p.1) (ap pick (sym e ∙ e')) v
    where
      pick : Result (Option (IoManager × State)) → IoManager × State
      pick (Result.ok (some x)) = x
      pick _ = (m, s)

  Later-IsForgotten :
      {m : IoManager} {s : State} {m' : IoManager} {s' : State}
      → IsForgotten m s
      → Later m s m' s'
      → IsForgotten m' s'
  Later-IsForgotten v Later.now = v
  Later-IsForgotten v (Later.then {m1} {m2} {s1} {s2} a l possible e) =
      let w = action-Forgets m1 s1 a (Later-IsForgotten v l) possible in
      IsForgotten-eq (perform k m1 s1 a) w.io m2 w.epoll s2 w.forgotten w.runs e

  closed-IsForgotten :
      (m : IoManager) (s : State)
      → IsOrdered k pipe m s
      → fd < length m.contexts
      → context_at m fd ≡ d
      → IsForgotten m (close s fd)
  closed-IsForgotten m s v known e = record {
    inv = v.inv;
    agrees = λ i n. close_other s fd i (λ q. n (inr q)) ∙ v.agrees i (λ q. n (inl q));
    valid = v.valid;
    known = known;
    context = e;
    unwatched = closed s fd;
  }

  -- On any epoll instance that keeps the kernel's contract: when a descriptor of a manager in order is
  -- closed while it has a registered event, then whatever is done later, in any order (actions of
  -- threads, timers and tasks and calls and reports for other descriptors, each of which meets what the
  -- code expects; any calls and reports for the closed one, `delEvent` and `cancelEvent` of READ or
  -- WRITE), another such action returns without a fault; the descriptor's context has the events and
  -- the waiting callbacks and fibers that it had when it was closed, the instance does not watch it,
  -- and an action for it changes nothing, so that it schedules none of them.
  pub closed-Forgets :
      {m m' : IoManager} {s s' : State} (a : Action)
      → IsOrdered k pipe m s
      → fd < length m.contexts
      → context_at m fd ≡ d
      → Later m (close s fd) m' s'
      → IsPossibleAfter pipe fd m' a
      → Forgets m' s' a
  closed-Forgets {m} {m'} {s} {s'} a v known e later possible =
      action-Forgets m' s' a (Later-IsForgotten (closed-IsForgotten m s v known e) later) possible
