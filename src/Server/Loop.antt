-- ===== src/Server/Loop.antt =====
-- epoll/epoll.cc: `main`, with the epoll instance as the interface of Epoll.antt and the results of the
-- other system calls as arguments.
use coroutinelib.Base.{
  ℕ, ℤ, Option, none, some, Bool, true, false, not, List, [], ◌∷◌, if◌then◌else◌, ◌==◌, is_positive,
}
use coroutinelib.Base.Threads.{assign}
use coroutinelib.Epoll.{Op, Epoll}
use coroutinelib.IoManager.Event.{Event}
use coroutinelib.Server.{Action}

-- What the system calls before the loop return; `none` is -1.
pub record Setup : Type 0 where
  pub socket : Option ℕ
  pub bind_fails : Bool
  pub listen_fails : Bool
  pub create_fails : Bool

-- An event of `epoll_wait`: its descriptor, and what `accept` or `read` returns for it.
pub record Report : Type 0 where
  pub fd : ℕ
  pub accepted : Option ℕ
  pub len : ℤ

module _ (k : Epoll) where
  open k use {State, interest, ctl, close}

  -- The epoll instance and the connections that are open, with a record of the connections accepted
  -- and of what was done to them, the latest first.
  pub record Server : Type 0 where
    pub epoll : State
    pub is_open : ℕ → Bool
    pub accepted : List ℕ
    pub done : List Action

  -- How a part of `main` ends: it goes on, or `main` has returned -1.
  pub data Outcome : Type 0 where
    goes_on : Server → Outcome
    returned : Server → Outcome

  -- What comes next, unless `main` has returned.
  abbrev pub and_then : Outcome → (Server → Outcome) → Outcome
  and_then (Outcome.goes_on w) f = f w
  and_then (Outcome.returned w) f = Outcome.returned w

  -- A new connection, from the result of `accept` on.
  unfoldable pub accept_one : Server → Option ℕ → Outcome
  accept_one w none = Outcome.goes_on w
  accept_one w (some conn_fd) =
      let (s, fails) = ctl w.epoll Op.add conn_fd Event.read in
      let w' = record w {
        epoll = s;
        is_open = assign w.is_open conn_fd true;
        accepted = conn_fd ∷ w.accepted;
      } in
      if fails then Outcome.returned w' else Outcome.goes_on w'

  -- Data of a connection, from the result of `read` on. The result of EPOLL_CTL_DEL is not looked at.
  unfoldable pub answer_one : Server → (fd : ℕ) → (len : ℤ) → Server
  answer_one w fd len =
      if not (is_positive len)
      then record w {
        epoll = close w.epoll fd;
        is_open = assign w.is_open fd false;
        done = Action.close fd ∷ w.done;
      }
      else record w {
        epoll = close (ctl w.epoll Op.delete fd Event.none).0 fd;
        is_open = assign w.is_open fd false;
        done = Action.close fd ∷ Action.send fd ∷ w.done;
      }

  -- The body of the loop over the events.
  unfoldable pub handle_one : (listen_fd : ℕ) → Server → Report → Outcome
  unfolding accept_one answer_one
  handle_one listen_fd w r =
      if r.fd == listen_fd
      then accept_one w r.accepted
      else Outcome.goes_on (answer_one w r.fd r.len)

  -- That loop.
  unfoldable pub handle_events : (listen_fd : ℕ) → Server → List Report → Outcome
  unfolding handle_one
  handle_events listen_fd w [] = Outcome.goes_on w
  handle_events listen_fd w (r ∷ rs) =
      and_then (handle_one listen_fd w r) (λ w'. handle_events listen_fd w' rs)

  -- `while (1)`, over the returns of `epoll_wait`, `none` for -1.
  unfoldable pub serve : (listen_fd : ℕ) → Server → List (Option (List Report)) → Outcome
  unfolding handle_events
  serve listen_fd w [] = Outcome.goes_on w
  serve listen_fd w (none ∷ waits) = Outcome.returned w
  serve listen_fd w (some rs ∷ waits) =
      and_then (handle_events listen_fd w rs) (λ w'. serve listen_fd w' waits)

  -- `main` before the loop, on a new epoll instance: the listening descriptor and the server, or
  -- `none` for a return of -1.
  unfoldable pub start : State → Setup → Option (ℕ × Server)
  start s setup = elim setup.socket [
    | none ↦ none
    | some listen_fd ↦
        let (s', fails) = ctl s Op.add listen_fd Event.read in
        if setup.bind_fails
        then none
        else if setup.listen_fails
        then none
        else if setup.create_fails
        then none
        else if fails
        then none
        else some
            (listen_fd, record { epoll = s'; is_open = λ fd. false; accepted = []; done = [] })
  ]
