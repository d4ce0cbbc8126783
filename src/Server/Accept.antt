-- ===== src/Server/Accept.antt =====
-- src/main.cc: `test_accept`, `watch_io_read` and `test_iomanager`.
use coroutinelib.Base.{ℕ, suc, Option, none, some, Bool}
use coroutinelib.Faults.{Fault, Result, ◌>>=◌, ◌>>◌, or_process_exit}
use coroutinelib.Callback.{Callback}
use coroutinelib.Epoll.{Epoll}
use coroutinelib.Timer.Manager.{Manager}
use coroutinelib.IoManager.{IoManager}
use coroutinelib.IoManager.Event.{Event}
use coroutinelib.IoManager.Events.{Caller, add_event}
use coroutinelib.IoManager.Kernel.{Call, construct, run_in}

-- The callbacks of the program: `test_accept`, and the lambda for a connection, whose loop is
-- `receive` of Server/Receive.antt.
abbrev pub on_accept : Callback
on_accept = Callback.user 0

abbrev pub on_readable : (fd : ℕ) → Callback
on_readable fd = Callback.user (suc fd)

-- `watch_io_read`.
unfoldable pub watch_io_read :
    IoManager → (listen_fd : ℕ) → Caller → (fails : Bool) → Result IoManager
unfolding add_event
watch_io_read m listen_fd caller fails = do
  r ← add_event m listen_fd Event.read (some on_accept) caller fails
  Result.ok r.0

-- The branches on what `accept` returned.
unfoldable pub on_accepted :
    IoManager → (accepted : Option ℕ) → Caller → (fails : Bool) → Result IoManager
unfolding add_event
on_accepted m none caller fails = Result.ok m
on_accepted m (some fd) caller fails = do
  r ← add_event m fd Event.read (some (on_readable fd)) caller fails
  Result.ok r.0

-- `test_accept`: what `accept` returned, and the results of the two `epoll_ctl`s, which for a failed
-- `accept` is one.
unfoldable pub test_accept :
    IoManager
    → (listen_fd : ℕ) → (accepted : Option ℕ) → Caller
    → (fails last_fails : Bool) → Result IoManager
unfolding on_accepted watch_io_read
test_accept m listen_fd accepted caller fails last_fails = do
  m' ← on_accepted m accepted caller fails
  watch_io_read m' listen_fd caller last_fails

-- What the system calls of `test_iomanager` return: the descriptor of `socket`, and whether `bind` and
-- `listen` fail.
pub record Setup : Type 0 where
  pub socket : Option ℕ
  pub bind_fails : Bool
  pub listen_fails : Bool

-- `error` ends the process; so does the call of `socket` here.
unfoldable pub opened : Option ℕ → Result ℕ
opened none = Result.err Fault.process_exit
opened (some fd) = Result.ok fd

-- `test_iomanager` up to the end of its scope, on a new epoll instance whose manager's pipe is `pipe`.
unfoldable pub test_iomanager :
    (k : Epoll)
    → Epoll.State k
    → Setup
    → Manager
    → (pipe : ℕ) → Caller
    → Result (IoManager × Epoll.State k)
unfolding opened construct run_in
test_iomanager k s setup timer pipe caller = do
  listen_fd ← opened setup.socket
  or_process_exit setup.bind_fails
  or_process_exit setup.listen_fails
  r ← construct k timer s pipe
  run_in k r.0 r.1 (Call.add listen_fd Event.read (some on_accept) caller)
