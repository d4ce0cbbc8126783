-- ===== src/Scheduler/Queue.antt =====
-- The task queue (src/scheduler/scheduler.h, src/scheduler/scheduler.cc): first in, first out for each
-- thread.
use mathlib.Core.List.{append-nil}
use coroutinelib.Base.{
  ℕ, ◌+◌, ◌≡◌, refl, sym, subst, ap, ◌∙◌, Bool, true, false, not, List, [], ◌∷◌, ◌++◌, arith, All,
  ◌⊎◌, inl, inr, Bool-cases, is_empty,
}
use coroutinelib.Scheduler.{
  Task, Scheduler, no_task, is_task, schedule_lock, is_foreign, skip_foreign, take_from,
  take_asserts, take_task,
}

-- The walk splits the queue into tasks for other threads and a rest that begins with one for this.
abbrev Walk : ℕ → List Task → List Task × List Task → Type 0
Walk id ts (passed, rest) =
    (ts ≡ passed ++ rest)
    × All (λ t. is_foreign id t ≡ true) passed
    × ((rest ≡ [])
        ⊎ ((t : Task) × (post : List Task) × (rest ≡ t ∷ post) × (is_foreign id t ≡ false)))

skip_foreign-Walk : (id : ℕ) (ts : List Task) → Walk id ts (skip_foreign id ts)
unfolding skip_foreign
skip_foreign-Walk id [] = (refl, tt, inl refl)
skip_foreign-Walk id (t ∷ ts) = elim (Bool-cases (is_foreign id t)) [
  | inl e ↦
      let (split, all, rest) = skip_foreign-Walk id ts in rw e (ap (◌∷◌ t) split, (e, all), rest)
  | inr e ↦ rw e (refl, tt, inr (t, ts, refl, e))
]

-- What `take_task` may do: nothing, when every task is for another thread; or take the first task that
-- is not, and leave the others in their order.
pub data Takes (s : Scheduler) (id : ℕ) : Scheduler × Task × Bool → Type 0 where
  nothing :
      All (λ t. is_foreign id t ≡ true) s.tasks → Takes s id (s, no_task, not (is_empty s.tasks))
  first :
      (passed : List Task) (t : Task) (rest : List Task)
      → s.tasks ≡ passed ++ t ∷ rest
      → All (λ u. is_foreign id u ≡ true) passed
      → is_foreign id t ≡ false
      → Takes s id (record s { tasks = passed ++ rest; active = s.active + 1 }, t, true)

take_from-Takes :
    (s : Scheduler) (id : ℕ) (passed rest : List Task)
    → s.tasks ≡ passed ++ rest
    → All (λ t. is_foreign id t ≡ true) passed
    → (rest ≡ [])
      ⊎ ((t : Task) × (post : List Task) × (rest ≡ t ∷ post) × (is_foreign id t ≡ false))
    → Takes s id (take_from s passed rest)
unfolding take_from
take_from-Takes s id passed [] split all h =
    subst (λ (ts : List Task). Takes s id (s, no_task, not (is_empty ts))) same
      (Takes.nothing (subst (All (λ t. is_foreign id t ≡ true)) (sym same) all))
  where
    same : s.tasks ≡ passed
    same = split ∙ append-nil passed
take_from-Takes s id passed (t ∷ rest) split all (inl e) = absurd (ground arith)
take_from-Takes s id passed (t ∷ rest) split all (inr (u, post, e, own)) =
    Takes.first passed t rest split all (rw (ap head e) own)
  where
    head : List Task → Task
    head [] = no_task
    head (v ∷ vs) = v

-- The locked block of `run` takes the first task of the queue that is not bound to another thread,
-- counts it as active and keeps the others in their order; only when every task is bound to other
-- threads does it take none and change nothing. `tickle_me` is set when a task was taken or passed over.
pub take_task-Takes : (s : Scheduler) (id : ℕ) → Takes s id (take_task s id)
unfolding take_task
take_task-Takes s id =
    let (split, all, rest) = skip_foreign-Walk id s.tasks in
    unfold take_from in take_from-Takes s id _ _ split all rest

All-append_one :
    (P : Task → Type 0) (ts : List Task) (t : Task) → All P ts → P t → All P (ts ++ t ∷ [])
All-append_one P [] t h p = (p, tt)
All-append_one P (u ∷ ts) t h p = (h.0, All-append_one P ts t h.1 p)

pub All-remove :
    (P : Task → Type 0) (passed : List Task) (t : Task) (rest : List Task)
    → All P (passed ++ t ∷ rest)
    → P t × All P (passed ++ rest)
All-remove P [] t rest h = h
All-remove P (u ∷ passed) t rest h =
    let (p, all) = All-remove P passed t rest h.1 in (p, (h.0, all))

-- The assertion in `run`: the queue holds no empty task.
abbrev pub HoldsTasks : Scheduler → Type 0
HoldsTasks s = All (λ t. is_task t ≡ true) s.tasks

HoldsTasks-rest :
    (id : ℕ) (ts : List Task)
    → All (λ t. is_task t ≡ true) ts
    → (elim (skip_foreign id ts).1 [ [] ↦ true | t ∷ rest ↦ is_task t ]) ≡ true
unfolding skip_foreign
HoldsTasks-rest id [] h = refl
HoldsTasks-rest id (t ∷ ts) h = elim (Bool-cases (is_foreign id t)) [
  | inl e ↦ rw e (HoldsTasks-rest id ts h.1)
  | inr e ↦ rw e h.0
]

pub take_asserts-HoldsTasks : (s : Scheduler) (id : ℕ) → HoldsTasks s → take_asserts s id ≡ true
unfolding take_asserts
take_asserts-HoldsTasks s id h = HoldsTasks-rest id s.tasks h

pub schedule_lock-HoldsTasks :
    (s : Scheduler) (t : Task) → HoldsTasks s → HoldsTasks (schedule_lock s t).0
unfolding schedule_lock
schedule_lock-HoldsTasks s t h = elim (Bool-cases (is_task t)) [
  | inl e ↦ rw (e, schedule_lock) (All-append_one (λ u. is_task u ≡ true) s.tasks t h e)
  | inr e ↦ rw (e, schedule_lock) h
]

pub Takes-HoldsTasks :
    {s : Scheduler} {id : ℕ} {r : Scheduler × Task × Bool}
    → Takes s id r
    → HoldsTasks s
    → HoldsTasks r.0
Takes-HoldsTasks (Takes.nothing all) h = h
Takes-HoldsTasks (Takes.first passed t rest e all own) h =
    (All-remove (λ u. is_task u ≡ true) passed t rest (subst (All (λ u. is_task u ≡ true)) e h)).1
