-- ===== src/Server/Tests.antt =====
-- The theorems on src/main.cc and epoll/epoll.cc applied.
use coroutinelib.Base.{
  ℕ, ℤ, ◌≡◌, refl, none, some, Option, true, false, List, [], ◌∷◌, ◌++◌, arith, inl, inr,
  if◌then◌else◌, is_positive,
}
use coroutinelib.Epoll.Example.{map_epoll}
use coroutinelib.Timer.Manager.{new_manager}
use coroutinelib.IoManager.{IoManager}
use coroutinelib.IoManager.Event.{Event}
use coroutinelib.IoManager.Context.{no_context, new_context}
use coroutinelib.IoManager.Events.{Caller}
use coroutinelib.IoManager.Invariant.{registered, Inv}
use coroutinelib.Server.{Action}
use coroutinelib.Server.Receive.{Recv, receive, receive-answers}
use coroutinelib.Server.Accept.{on_accept}
use coroutinelib.Server.Relisten.{Cycle, accept-Cycle}
use coroutinelib.Server.Loop.{Report, handle_one, handle_events, accept_one, answer_one, serve}
use coroutinelib.Server.Ordered.{started, Ends, start-IsOrdered, serve-Ends}

-- `recv` gives EAGAIN, and then data.
abbrev again : Recv
again = record { ret = ℤ.negsuc 0; is_again = true }

abbrev data_of : ℕ → Recv
data_of n = record { ret = ℤ.pos n; is_again = false }

receive-answers_example :
    (receive 7 (again ∷ []) ≡ none)
    × (receive 7 ((again ∷ []) ++ data_of 12 ∷ [])
        ≡ some (
            if is_positive (ℤ.pos 12)
            then Action.send 7 ∷ Action.close 7 ∷ []
            else Action.close 7 ∷ []))
receive-answers_example =
    receive-answers 7 (again ∷ []) (data_of 12) [] ((refl, refl), tt) (inl refl)

-- `test_accept` waits for descriptor 0.
abbrev listening : IoManager
listening = record {
  sched = record { tasks = []; active = 0; idle = 1; stop_flag = false };
  timer = new_manager 0;
  contexts =
      record {
        read = record { scheduled = true; fiber = none; cb = some on_accept };
        write = no_context;
        fd = 0;
        events = Event.read;
      }
      ∷ new_context 1
      ∷ [];
  pending = 1;
  pipe = 0;
}

listening-Inv : Inv listening
unfolding registered
listening-Inv = record {
  consistent = (
    record { reads = (refl, refl); writes = refl },
    (record { reads = refl; writes = refl }, tt),
  );
  counted = refl;
  room = omega arith;
}

abbrev worker : Caller
worker = record { scheduled = true; fiber = 0; running = true }

accept-Cycle_example : Cycle listening 0 (some 1) worker
accept-Cycle_example =
    accept-Cycle listening 0 worker listening-Inv refl (omega arith)
      (record { set = refl; stored = refl }) (some 1) ((omega arith, refl), (λ e. omega (arith, e)))

-- The loop of epoll.cc on listening descriptor 3: a connection, and the end of its stream.
abbrev rounds : List (Option (List Report))
rounds =
    some (record { fd = 3; accepted = some 4; len = ℤ.pos 0 } ∷ [])
    ∷ some (record { fd = 4; accepted = none; len = ℤ.pos 0 } ∷ [])
    ∷ []

serve-Ends_example : Ends map_epoll 3 (serve map_epoll 3 (started map_epoll 3 (λ fd. none)) rounds)
unfolding handle_events handle_one accept_one answer_one native.Mathlib.Decide.ℕ_discrete
serve-Ends_example =
    serve-Ends map_epoll 3 (started map_epoll 3 (λ fd. none)) rounds
      (
        (inl (refl, ((λ e. omega (arith, e)), refl)), tt),
        ((inr ((λ e. omega (arith, e)), refl), tt), tt),
      )
      (start-IsOrdered map_epoll 3 (λ fd. none) (λ fd. refl) refl).1
