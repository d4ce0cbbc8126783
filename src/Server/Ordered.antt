-- ===== src/Server/Ordered.antt =====
-- The loop of epoll/epoll.cc: each connection is watched while it is open, and closed once.
use coroutinelib.Base.{
  ℕ, ℤ, ◌+◌, ◌≡◌, ◌≢◌, refl, sym, ap, ◌∙◌, Option, none, some, Bool, true, false, List, [], ◌∷◌,
  arith, inl, inr, ◌⊎◌, Bool-cases, if◌then◌else◌, ◌==◌, is_positive,
}
use coroutinelib.Base.Threads.{assign, assign_self, assign_other}
use native.Mathlib.Decide.{ℕ_discrete}
use coroutinelib.Epoll.{Op, Epoll}
use coroutinelib.IoManager.Event.{Event}
use coroutinelib.Server.{Action}
use coroutinelib.Server.Loop.{
  Setup, start, Report, Server, Outcome, and_then, accept_one, answer_one, handle_one,
  handle_events, serve,
}

abbrev pub count_if : Bool → ℕ
count_if b = if b then 1 else 0

-- How often a descriptor stands in a list, and how often it was closed.
abbrev pub times : ℕ → List ℕ → ℕ
times fd [] = 0
times fd (x ∷ xs) = count_if (x == fd) + times fd xs

abbrev pub closes : ℕ → List Action → ℕ
closes fd [] = 0
closes fd (Action.close x ∷ xs) = count_if (x == fd) + closes fd xs
closes fd (Action.send x ∷ xs) = closes fd xs

eq_true : (a b : ℕ) → a ≡ b → (a == b) ≡ true
eq_true a b e = ground arith

eq_false : (a b : ℕ) → a ≢ b → (a == b) ≡ false
eq_false a b n = ground arith

module _ (k : Epoll) (listen_fd : ℕ) where
  open k use {State, interest, ctl, close, ctl_failed, ctl_other, added, closed, close_other}

  -- The listening descriptor and the open connections are watched for EPOLLIN, nothing else is; each
  -- connection has been closed as often as it was accepted, but for those that are open.
  pub record IsOrdered (w : Server k) : Type 0 where
    pub listening : interest w.epoll listen_fd ≡ some Event.read
    pub watched :
        (fd : ℕ)
        → fd ≢ listen_fd
        → interest w.epoll fd ≡ (if w.is_open fd then some Event.read else none)
    pub apart : w.is_open listen_fd ≡ false
    pub closed_once : (fd : ℕ) → times fd w.accepted ≡ closes fd w.done + count_if (w.is_open fd)

  -- What the kernel may report: a new connection has a descriptor that is not in use, and other events
  -- are for open connections.
  abbrev pub IsNew : Server k → Option ℕ → Type 0
  IsNew w none = Unit {0}
  IsNew w (some fd) = (fd ≢ listen_fd) × (w.is_open fd ≡ false)

  abbrev pub IsReport : Server k → Report → Type 0
  IsReport w r =
      ((r.fd ≡ listen_fd) × IsNew w r.accepted) ⊎ ((r.fd ≢ listen_fd) × (w.is_open r.fd ≡ true))

  abbrev pub server_of : Outcome k → Server k
  server_of (Outcome.goes_on w) = w
  server_of (Outcome.returned w) = w

  count_other : (x fd : ℕ) → fd ≢ x → count_if (x == fd) ≡ 0
  count_other x fd n = ground arith

  count_self : (x fd : ℕ) → fd ≡ x → count_if (x == fd) ≡ 1
  count_self x fd e = ground arith

  -- A connection that is closed, whatever is done to it before.
  close-IsOrdered :
      (w : Server k) (fd : ℕ) (s : State) (done : List Action)
      → fd ≢ listen_fd
      → w.is_open fd ≡ true
      → IsOrdered w
      → interest s fd ≡ none
      → ((other : ℕ) → other ≢ fd → interest s other ≡ interest w.epoll other)
      → ((x : ℕ) → closes x done ≡ count_if (fd == x) + closes x w.done)
      → IsOrdered (record w { epoll = s; is_open = assign w.is_open fd false; done = done })
  close-IsOrdered w fd s done n is_open v gone rest counts = record {
    listening = rest listen_fd (λ e. n (sym e)) ∙ v.listening;
    watched = λ x nx. elim (ℕ_discrete x fd) [
      | yes e ↦ rw (assign_self w.is_open fd false x e) (ap (interest s) e ∙ gone)
      | no d ↦ rw (assign_other w.is_open fd false x d) (rest x d ∙ v.watched x nx)
    ];
    apart = assign_other w.is_open fd false listen_fd (λ e. n (sym e)) ∙ v.apart;
    closed_once = λ x. elim (ℕ_discrete x fd) [
      | yes e ↦ rw (assign_self w.is_open fd false x e) (
          omega (
            arith,
            counts x,
            count_self fd x e,
            v.closed_once x,
            ap count_if (ap w.is_open e ∙ is_open),
          ))
      | no d ↦
          rw (assign_other w.is_open fd false x d)
            (omega (arith, counts x, count_other fd x d, v.closed_once x))
    ];
  }

  answer_one-IsOrdered :
      (w : Server k) (fd : ℕ) (len : ℤ)
      → fd ≢ listen_fd
      → w.is_open fd ≡ true
      → IsOrdered w
      → IsOrdered (answer_one k w fd len)
  unfolding answer_one
  answer_one-IsOrdered w fd len n is_open v = elim (Bool-cases (is_positive len)) [
    | inl e ↦ rw e (
        close-IsOrdered w fd (close (ctl w.epoll Op.delete fd Event.none).0 fd)
          (Action.close fd ∷ Action.send fd ∷ w.done) n is_open v
          (closed (ctl w.epoll Op.delete fd Event.none).0 fd)
          (λ other d.
            close_other (ctl w.epoll Op.delete fd Event.none).0 fd other d
            ∙ ctl_other w.epoll Op.delete fd Event.none other d)
          (λ x. refl))
    | inr e ↦ rw e (
        close-IsOrdered w fd (close w.epoll fd) (Action.close fd ∷ w.done) n is_open v
          (closed w.epoll fd) (λ other d. close_other w.epoll fd other d) (λ x. refl))
  ]

  -- How a part of the loop may end: in order; or with -1, after a connection was accepted that could
  -- not be watched, or when `epoll_wait` failed.
  pub data Ends : Outcome k → Type 0 where
    in_order : {w : Server k} → IsOrdered w → Ends (Outcome.goes_on w)
    unwatched :
        {w : Server k} (fd : ℕ) (rest : List ℕ)
        → w.accepted ≡ fd ∷ rest
        → interest w.epoll fd ≡ none
        → Ends (Outcome.returned w)
    wait_failed : {w : Server k} → IsOrdered w → Ends (Outcome.returned w)

  accept-IsOrdered :
      (w : Server k) (fd : ℕ)
      → fd ≢ listen_fd
      → w.is_open fd ≡ false
      → IsOrdered w
      → (ctl w.epoll Op.add fd Event.read).1 ≡ false
      → IsOrdered (record w {
        epoll = (ctl w.epoll Op.add fd Event.read).0;
        is_open = assign w.is_open fd true;
        accepted = fd ∷ w.accepted;
      })
  accept-IsOrdered w fd n unused v ok =
      let s = (ctl w.epoll Op.add fd Event.read).0 in
      let rest : (other : ℕ) → other ≢ fd → interest s other ≡ interest w.epoll other =
        λ other d. ctl_other w.epoll Op.add fd Event.read other d in
      record {
        listening = rest listen_fd (λ e. n (sym e)) ∙ v.listening;
        watched = λ x nx. elim (ℕ_discrete x fd) [
          | yes e ↦
              rw (assign_self w.is_open fd true x e)
                (ap (interest s) e ∙ (added w.epoll fd Event.read ok).1)
          | no d ↦ rw (assign_other w.is_open fd true x d) (rest x d ∙ v.watched x nx)
        ];
        apart = assign_other w.is_open fd true listen_fd (λ e. n (sym e)) ∙ v.apart;
        closed_once = λ x. elim (ℕ_discrete x fd) [
          | yes e ↦ rw (assign_self w.is_open fd true x e) (
              omega
                (arith, count_self fd x e, v.closed_once x, ap count_if (ap w.is_open e ∙ unused)))
          | no d ↦
              rw (assign_other w.is_open fd true x d)
                (omega (arith, count_other fd x d, v.closed_once x))
        ];
      }

  accept_one-Ends :
      (w : Server k) (accepted : Option ℕ)
      → IsNew w accepted
      → IsOrdered w
      → Ends (accept_one k w accepted)
  unfolding accept_one
  accept_one-Ends w none new v = Ends.in_order v
  accept_one-Ends w (some fd) (n, unused) v =
      elim (Bool-cases (ctl w.epoll Op.add fd Event.read).1) [
        | inl bad ↦ rw bad (
            Ends.unwatched fd w.accepted refl (
              ap (λ (s : State). interest s fd) (ctl_failed w.epoll Op.add fd Event.read bad)
              ∙ v.watched fd n
              ∙ ap (λ (b : Bool). if b then some Event.read else none) unused))
        | inr good ↦ rw good (Ends.in_order (accept-IsOrdered w fd n unused v good))
      ]

  handle_one-Ends :
      (w : Server k) (r : Report) → IsReport w r → IsOrdered w → Ends (handle_one k listen_fd w r)
  unfolding handle_one
  handle_one-Ends w r (inl (e, new)) v =
      rw (eq_true r.fd listen_fd e) (accept_one-Ends w r.accepted new v)
  handle_one-Ends w r (inr (n, is_open)) v =
      rw (eq_false r.fd listen_fd n) (Ends.in_order (answer_one-IsOrdered w r.fd r.len n is_open v))

  -- A condition on the server that goes on.
  abbrev pub If : (Server k → Type 0) → Outcome k → Type 0
  If P (Outcome.goes_on w) = P w
  If P (Outcome.returned w) = Unit {0}

  -- Such reports, each when its turn comes.
  abbrev pub AreReports : Server k → List Report → Type 0
  AreReports w [] = Unit {0}
  AreReports w (r ∷ rs) = IsReport w r × If (λ w'. AreReports w' rs) (handle_one k listen_fd w r)

  abbrev pub AreWaits : Server k → List (Option (List Report)) → Type 0
  AreWaits w [] = Unit {0}
  AreWaits w (none ∷ waits) = Unit {0}
  AreWaits w (some rs ∷ waits) =
      AreReports w rs × If (λ w'. AreWaits w' waits) (handle_events k listen_fd w rs)

  and_then-Ends :
      (P : Server k → Type 0) (o : Outcome k) (f : Server k → Outcome k)
      → If P o
      → Ends o
      → ((w : Server k) → P w → IsOrdered w → Ends (f w))
      → Ends (and_then k o f)
  and_then-Ends P (Outcome.goes_on w) f later (Ends.in_order v) goes_on = goes_on w later v
  and_then-Ends P (Outcome.returned w) f later ends goes_on = ends

  handle_events-Ends :
      (w : Server k) (rs : List Report)
      → AreReports w rs
      → IsOrdered w
      → Ends (handle_events k listen_fd w rs)
  unfolding handle_events
  handle_events-Ends w [] reports v = Ends.in_order v
  handle_events-Ends w (r ∷ rs) (report, reports) v =
      and_then-Ends (λ w'. AreReports w' rs) (handle_one k listen_fd w r)
        (λ w'. handle_events k listen_fd w' rs) reports (handle_one-Ends w r report v)
        (λ w' later v'. handle_events-Ends w' rs later v')

  -- From a server in order, on any epoll instance that keeps the kernel's contract, with new
  -- connections on descriptors not in use and other events for open connections: whatever `accept` and
  -- `read` return, any number of rounds leaves the listening descriptor and the open connections
  -- watched, nothing else, and every accepted connection closed exactly once unless it is open; unless
  -- `main` has returned -1 because `epoll_wait` failed or because a new connection could not be
  -- watched.
  pub serve-Ends :
      (w : Server k) (waits : List (Option (List Report)))
      → AreWaits w waits
      → IsOrdered w
      → Ends (serve k listen_fd w waits)
  unfolding serve
  serve-Ends w [] reports v = Ends.in_order v
  serve-Ends w (none ∷ waits) reports v = Ends.wait_failed v
  serve-Ends w (some rs ∷ waits) (reports, after) v =
      and_then-Ends (λ w'. AreWaits w' waits) (handle_events k listen_fd w rs)
        (λ w'. serve k listen_fd w' waits) after (handle_events-Ends w rs reports v)
        (λ w' later v'. serve-Ends w' waits later v')

  -- `main` up to its loop, when no call fails.
  abbrev pub set_up : Setup
  set_up = record {
    socket = some listen_fd;
    bind_fails = false;
    listen_fails = false;
    create_fails = false;
  }

  abbrev pub started : State → Server k
  started s = record {
    epoll = (ctl s Op.add listen_fd Event.read).0;
    is_open = λ fd. false;
    accepted = [];
    done = [];
  }

  pub start-IsOrdered :
      (s : State)
      → ((fd : ℕ) → interest s fd ≡ none)
      → (ctl s Op.add listen_fd Event.read).1 ≡ false
      → (start k s set_up ≡ some (listen_fd, started s)) × IsOrdered (started s)
  unfolding start
  start-IsOrdered s empty ok = (
    rw ok refl,
    record {
      listening = (added s listen_fd Event.read ok).1;
      watched = λ fd n. ctl_other s Op.add listen_fd Event.read fd n ∙ empty fd;
      apart = refl;
      closed_once = λ fd. refl;
    },
  )
