-- ===== src/Scheduler/Workers/Binding.antt =====
-- Which threads run which tasks, and when a thread leaves `run` (src/scheduler/scheduler.cc).
use coroutinelib.Base.{
  ℕ, ◌≡◌, refl, sym, subst, ap, ◌∙◌, Bool, true, false, arith, Option, none, some, inl, inr, ◌⊎◌,
  not, ◌==◌,
}
use mathlib.Core.Logic.{if_pos, if_neg}
use native.Mathlib.Decide.{ℕ_discrete}
use coroutinelib.Base.Threads.{assign}
use coroutinelib.Scheduler.{Task, Scheduler, is_task, schedule_lock, is_foreign}
use coroutinelib.Scheduler.Queue.{Takes, take_task-Takes}
use coroutinelib.Scheduler.Workers.{Place, System, Step, Reach}
use coroutinelib.Scheduler.Workers.Shutdown.{stopping-parts}

-- What the place of thread `i` says: a task that it runs is not bound to another thread, and its idle
-- fiber has ended only after `stop`.
abbrev pub PlaceIsFair : Bool → ℕ → Place → Type 0
PlaceIsFair stopped id (Place.choosing b) = b ≡ true → stopped ≡ true
PlaceIsFair stopped id (Place.working b t) = (is_foreign id t ≡ false) × (b ≡ true → stopped ≡ true)
PlaceIsFair stopped id (Place.without_task b) = b ≡ true → stopped ≡ true
PlaceIsFair stopped id Place.idling = Unit
PlaceIsFair stopped id (Place.looked b) = b ≡ true → stopped ≡ true
PlaceIsFair stopped id Place.exited = stopped ≡ true

assign-every {κ} :
    (P : ℕ → Place → Type κ) (place : ℕ → Place) (i : ℕ) (q : Place)
    → P i q
    → ((j : ℕ) → P j (place j))
    → (j : ℕ) → P j (assign place i q j)
assign-every P place i q p h j = elim (ℕ_discrete j i) [
  | yes e ↦ rw (if_pos _ e) (rw e p)
  | no n ↦ rw (if_neg _ n) (h j)
]

take-stop_flag :
    {s : Scheduler} {id : ℕ} {r : Scheduler × Task × Bool}
    → Takes s id r
    → r.0.stop_flag ≡ s.stop_flag
take-stop_flag (Takes.nothing all) = refl
take-stop_flag (Takes.first passed t rest e all own) = refl

take-own :
    {s : Scheduler} {id : ℕ} {r : Scheduler × Task × Bool}
    → Takes s id r
    → is_task r.1 ≡ true
    → is_foreign id r.1 ≡ false
take-own (Takes.nothing all) h = cc
take-own (Takes.first passed t rest e all own) h = own

post-stop_flag : (s : Scheduler) (t : Task) → (schedule_lock s t).0.stop_flag ≡ s.stop_flag
unfolding schedule_lock
post-stop_flag s t = ground arith

stop-PlaceIsFair : (b : Bool) (id : ℕ) (p : Place) → PlaceIsFair b id p → PlaceIsFair true id p
stop-PlaceIsFair b id (Place.choosing c) h = λ e. refl
stop-PlaceIsFair b id (Place.working c t) h = (h.0, λ e. refl)
stop-PlaceIsFair b id (Place.without_task c) h = λ e. refl
stop-PlaceIsFair b id Place.idling h = tt
stop-PlaceIsFair b id (Place.looked c) h = λ e. refl
stop-PlaceIsFair b id Place.exited h = refl

record Fair (tid : ℕ → ℕ) (s : System) : Type 0 where
  every : (i : ℕ) → PlaceIsFair s.sched.stop_flag (tid i) (s.place i)

module _ {tid : ℕ → ℕ} {s : System} (h : Fair tid s) where
  at : (i : ℕ) (p : Place) → s.place i ≡ p → PlaceIsFair s.sched.stop_flag (tid i) p
  at i p e = subst (PlaceIsFair s.sched.stop_flag (tid i)) e (h.every i)

  move :
      (b : Bool) (i : ℕ) (q : Place)
      → b ≡ s.sched.stop_flag
      → PlaceIsFair s.sched.stop_flag (tid i) q
      → (j : ℕ) → PlaceIsFair b (tid j) (assign s.place i q j)
  move b i q e p =
      subst (λ (c : Bool). (j : ℕ) → PlaceIsFair c (tid j) (assign s.place i q j)) (sym e)
        (assign-every (λ j. PlaceIsFair s.sched.stop_flag (tid j)) s.place i q p h.every)

-- Every step keeps what the places say.
Step-Fair : {n : ℕ} {tid : ℕ → ℕ} {s t : System} → Step n tid s t → Fair tid s → Fair tid t
Step-Fair {n} {tid} {s} (Step.take i b lt e k) h = record {
  every =
      move h _ i _ (take-stop_flag (take_task-Takes s.sched (tid i)))
        (take-own (take_task-Takes s.sched (tid i)) k, at h i _ e);
}
Step-Fair {n} {tid} {s} (Step.miss i b lt e k) h = record {
  every = move h _ i _ (take-stop_flag (take_task-Takes s.sched (tid i))) (at h i _ e);
}
Step-Fair (Step.finish i b t lt e) h = record { every = move h _ i _ refl (at h i _ e).1 }
Step-Fair (Step.sleep i lt e) h = record { every = move h _ i _ refl tt }
Step-Fair (Step.leave i lt e) h = record { every = move h _ i _ refl (at h i _ e refl) }
Step-Fair {s} (Step.look i over lt e k) h = record {
  every = move h _ i _ refl (λ b. (stopping-parts s.sched (k b)).0);
}
Step-Fair (Step.wake i over lt e) h = record { every = move h _ i _ refl (at h i _ e) }
Step-Fair {n} {tid} {s} (Step.post t k) h = record {
  every = λ j.
      subst (λ (b : Bool). PlaceIsFair b (tid j) (s.place j)) (sym (post-stop_flag s.sched t))
        (h.every j);
}
Step-Fair {n} {tid} {s} Step.stop h = record {
  every = λ j. stop-PlaceIsFair s.sched.stop_flag (tid j) (s.place j) (h.every j);
}

Reach-Fair : {n : ℕ} {tid : ℕ → ℕ} {s : System} → Reach n tid s → Fair tid s
Reach-Fair Reach.begin = record { every = λ i e. cc }
Reach-Fair (Reach.next r st) = Step-Fair st (Reach-Fair r)

is_foreign-some : (id : ℕ) (t : Task) (k : ℕ) → t.thread ≡ some k → is_foreign id t ≡ not (k == id)
unfolding is_foreign
is_foreign-some id t k q = rw (q, is_foreign)

same_id : (k id : ℕ) → not (k == id) ≡ false → k ≡ id
same_id k id e = ground arith

-- In every reachable state a task that thread `i` runs is bound to no other thread: its thread id is
-- that of `i`, or -1.
pub runs_own_tasks :
    {n : ℕ} {tid : ℕ → ℕ} {s : System}
    → Reach n tid s
    → (i : ℕ) (b : Bool) (t : Task) → s.place i ≡ Place.working b t
    → (t.thread ≡ none) ⊎ (t.thread ≡ some (tid i))
runs_own_tasks {n} {tid} r i b t e = bound t.thread refl
  where
    own : is_foreign (tid i) t ≡ false
    own = (at (Reach-Fair r) i _ e).0

    bound : (k : Option ℕ) → t.thread ≡ k → (t.thread ≡ none) ⊎ (t.thread ≡ some (tid i))
    bound none q = inl q
    bound (some k) q =
        inr (q ∙ ap some (same_id k (tid i) (sym (is_foreign-some (tid i) t k q) ∙ own)))

-- In every reachable state in which a thread has left `run`, `stop` was called before.
pub leaves_after_stop :
    {n : ℕ} {tid : ℕ → ℕ} {s : System}
    → Reach n tid s
    → (i : ℕ) → s.place i ≡ Place.exited
    → s.sched.stop_flag ≡ true
leaves_after_stop r i e = at (Reach-Fair r) i _ e
