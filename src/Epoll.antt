-- ===== src/Epoll.antt =====
-- The kernel's epoll instance as the code of src/ uses it: an interface, which `epoll_ctl(2)` documents.
pub mod Example
use coroutinelib.Base.{ℕ, ◌≡◌, ◌≢◌, Option, none, some, Bool, true, false}
use coroutinelib.IoManager.Event.{Event}

-- EPOLL_CTL_ADD, EPOLL_CTL_MOD, EPOLL_CTL_DEL.
pub data Op : Type 0 where
  add modify delete : Op

-- `interest` is the events that the instance watches a descriptor for; `ctl` is `epoll_ctl`, whose
-- Boolean says that it failed; `close` is `close` of a descriptor without duplicates.
pub record Epoll : Type 1 where
  pub State : Type 0
  pub interest : State → (fd : ℕ) → Option Event
  pub ctl : State → Op → (fd : ℕ) → Event → State × Bool
  pub close : State → (fd : ℕ) → State
  -- A call that fails changes nothing.
  pub ctl_failed :
      (s : State) (op : Op) (fd : ℕ) (e : Event) → (ctl s op fd e).1 ≡ true → (ctl s op fd e).0 ≡ s
  -- A call concerns its descriptor alone.
  pub ctl_other :
      (s : State) (op : Op) (fd : ℕ) (e : Event) (other : ℕ)
      → other ≢ fd
      → interest (ctl s op fd e).0 other ≡ interest s other
  -- EEXIST for ADD, ENOENT for the others; and what each does if it succeeds.
  pub added :
      (s : State) (fd : ℕ) (e : Event)
      → (ctl s Op.add fd e).1 ≡ false
      → (interest s fd ≡ none) × (interest (ctl s Op.add fd e).0 fd ≡ some e)
  pub modified :
      (s : State) (fd : ℕ) (e : Event)
      → (ctl s Op.modify fd e).1 ≡ false
      → (interest s fd ≢ none) × (interest (ctl s Op.modify fd e).0 fd ≡ some e)
  pub deleted :
      (s : State) (fd : ℕ) (e : Event)
      → (ctl s Op.delete fd e).1 ≡ false
      → (interest s fd ≢ none) × (interest (ctl s Op.delete fd e).0 fd ≡ none)
  -- A closed descriptor is not watched any more.
  pub closed : (s : State) (fd : ℕ) → interest (close s fd) fd ≡ none
  pub close_other :
      (s : State) (fd other : ℕ) → other ≢ fd → interest (close s fd) other ≡ interest s other
