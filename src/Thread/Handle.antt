-- ===== src/Thread/Handle.antt =====
-- `Thread::join`, the destructor and the names of src/thread/thread.cc. A `pthread_t` of 0 is `none`,
-- and a name stands for a string.
use coroutinelib.Base.{
  ℕ, ◌≡◌, refl, Option, none, some, Bool, true, false, List, [], ◌∷◌, if◌then◌else◌,
}

-- What has been done with a thread's `pthread_t` by a call that succeeded.
pub data Release : Type 0 where
  joined detached : ℕ → Release

-- `m_thread`, and the calls that released it.
pub record Handle : Type 0 where
  pub thread : Option ℕ
  pub releases : List Release

-- `join`, and whether it throws, because `pthread_join` fails.
unfoldable pub join : Handle → (fails : Bool) → Handle × Bool
join h fails = elim h.thread [
  | none ↦ (h, false)
  | some t ↦
      if fails
      then (h, true)
      else (record { thread = none; releases = Release.joined t ∷ h.releases }, false)
]

-- The destructor.
unfoldable pub delete_thread : Handle → Handle
delete_thread h = elim h.thread [
  | none ↦ h
  | some t ↦ record { thread = none; releases = Release.detached t ∷ h.releases }
]

-- Calls of `join`, each with its failure, whose exceptions are caught.
unfoldable pub join_all : Handle → List Bool → Handle
unfolding join
join_all h [] = h
join_all h (fails ∷ rest) = join_all (join h fails).0 rest

-- A `pthread_join` succeeds.
abbrev succeeds : List Bool → Bool
succeeds [] = false
succeeds (true ∷ rest) = succeeds rest
succeeds (false ∷ rest) = true

join_all-released :
    (r : List Release) (fails : List Bool)
    → join_all (record { thread = none; releases = r }) fails
      ≡ record { thread = none; releases = r }
unfolding join_all join
join_all-released r [] = refl
join_all-released r (b ∷ rest) = join_all-released r rest

-- After any calls of `join` and the destructor the thread has been released once: joined if a
-- `pthread_join` succeeded, and detached otherwise.
pub delete_thread-once :
    (t : ℕ) (fails : List Bool)
    → (delete_thread (join_all (record { thread = some t; releases = [] }) fails)).releases
      ≡ (if succeeds fails then Release.joined t else Release.detached t) ∷ []
unfolding delete_thread join_all join
delete_thread-once t [] = refl
delete_thread-once t (true ∷ rest) = delete_thread-once t rest
delete_thread-once t (false ∷ rest) = rw (join_all-released (Release.joined t ∷ []) rest) refl

-- `t_thread`, by its `m_name`, and `t_thread_name`.
pub record Names : Type 0 where
  pub thread : Option ℕ
  pub name : ℕ

-- `GetName`.
unfoldable pub get_name : Names → ℕ
get_name n = n.name

-- `SetName`.
unfoldable pub set_name : Names → ℕ → Names
set_name n name = record {
  thread = elim n.thread [ none ↦ none | some old ↦ some name ];
  name = name;
}

-- The two names of a thread that `Thread` made are the same after `SetName`.
pub get_name-set_name :
    (n : Names) (name : ℕ)
    → (get_name (set_name n name) ≡ name)
      × ((old : ℕ)
          → n.thread ≡ some old
          → (set_name n name).thread ≡ some (get_name (set_name n name)))
unfolding get_name set_name
get_name-set_name n name = (refl, λ old e. rw e refl)
