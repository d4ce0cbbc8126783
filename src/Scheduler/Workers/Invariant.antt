-- ===== src/Scheduler/Workers/Invariant.antt =====
-- The counters count threads, and no task is lost, made up or run twice (src/scheduler/scheduler.cc).
use coroutinelib.Base.{
  ℕ, zero, suc, ◌+◌, ◌<◌, ◌≡◌, refl, sym, subst, ap, ◌∙◌, Bool, true, false, List, [], ◌∷◌, ◌++◌,
  arith, All,
}
use coroutinelib.Base.Threads.{assign, sum_threads, sum-assign, sum-ge}
use coroutinelib.Scheduler.{Task, Scheduler, is_task, schedule_lock, take_task}
use coroutinelib.Scheduler.Queue.{
  Takes, take_task-Takes, HoldsTasks, schedule_lock-HoldsTasks, Takes-HoldsTasks, All-remove,
}
use coroutinelib.Scheduler.Workers.{Place, System, start, Step, Reach}

abbrev pub is_working : Place → ℕ
is_working (Place.working b t) = 1
is_working _ = 0

abbrev pub is_idling : Place → ℕ
is_idling Place.idling = 1
is_idling (Place.looked over) = 1
is_idling _ = 0

-- The sum of a weight over tasks; with every weight equal, two collections hold the same tasks.
unfoldable pub weigh : (Task → ℕ) → List Task → ℕ
weigh w [] = 0
weigh w (t ∷ ts) = w t + weigh w ts

abbrev pub weigh_place : (Task → ℕ) → Place → ℕ
weigh_place w (Place.working b t) = w t
weigh_place w _ = 0

weigh-append : (w : Task → ℕ) (ts us : List Task) → weigh w (ts ++ us) ≡ weigh w ts + weigh w us
unfolding weigh
weigh-append w [] us = omega arith
weigh-append w (t ∷ ts) us = omega (arith, weigh-append w ts us)

weigh-snoc : (w : Task → ℕ) (ts : List Task) (t : Task) → weigh w (ts ++ t ∷ []) ≡ weigh w ts + w t
unfolding weigh
weigh-snoc w ts t = omega (arith, weigh-append w ts (t ∷ []))

pub record Inv (n : ℕ) (s : System) : Type 0 where
  pub holds : HoldsTasks s.sched
  pub active : s.sched.active ≡ sum_threads is_working s.place n
  pub idle : s.sched.idle ≡ sum_threads is_idling s.place n
  pub balance :
      (w : Task → ℕ)
      → weigh w s.posted
        ≡ weigh w s.sched.tasks + sum_threads (weigh_place w) s.place n + weigh w s.finished

sum-start : (w : Place → ℕ) (n : ℕ) → w (Place.choosing false) ≡ 0 → sum_threads w start.place n ≡ 0
unfolding sum_threads
sum-start w zero h = refl
sum-start w (suc n) h = omega (arith, h, sum-start w n h)

start-Inv : (n : ℕ) → Inv n start
unfolding weigh
start-Inv n = record {
  holds = tt;
  active = sym (sum-start is_working n refl);
  idle = sym (sum-start is_idling n refl);
  balance = λ w. omega (arith, sum-start (weigh_place w) n refl);
}

-- What taking a task does to the counters and to a weight.
record Taken (s : Scheduler) (r : Scheduler × Task × Bool) : Type 0 where
  count : r.0.active ≡ s.active + 1
  same_idle : r.0.idle ≡ s.idle
  weights : (w : Task → ℕ) → weigh w s.tasks ≡ w r.1 + weigh w r.0.tasks

weigh-remove :
    (w : Task → ℕ) (passed : List Task) (t : Task) (rest : List Task)
    → weigh w (passed ++ t ∷ rest) ≡ w t + weigh w (passed ++ rest)
unfolding weigh
weigh-remove w passed t rest =
    omega (arith, weigh-append w passed (t ∷ rest), weigh-append w passed rest)

take-Taken :
    {s : Scheduler} {id : ℕ} {r : Scheduler × Task × Bool}
    → Takes s id r
    → is_task r.1 ≡ true
    → Taken s r
take-Taken (Takes.nothing all) h = cc
take-Taken (Takes.first passed t rest e all own) h = record {
  count = refl;
  same_idle = refl;
  weights = λ w. ap (weigh w) e ∙ weigh-remove w passed t rest;
}

HoldsTasks-first :
    (s : Scheduler) (passed : List Task) (t : Task) (rest : List Task)
    → s.tasks ≡ passed ++ t ∷ rest
    → HoldsTasks s
    → is_task t ≡ true
HoldsTasks-first s passed t rest e h =
    (All-remove (λ u. is_task u ≡ true) passed t rest (subst (All (λ u. is_task u ≡ true)) e h)).0

-- Without a task the queue stays as it is.
miss-same :
    {s : Scheduler} {id : ℕ} {r : Scheduler × Task × Bool}
    → Takes s id r
    → HoldsTasks s
    → is_task r.1 ≡ false
    → r.0 ≡ s
miss-same (Takes.nothing all) holds h = refl
miss-same {s} (Takes.first passed t rest e all own) holds h =
    absurd (ground (arith, HoldsTasks-first s passed t rest e holds))

post-weights :
    (w : Task → ℕ) (s : Scheduler) (t : Task)
    → is_task t ≡ true
    → weigh w (schedule_lock s t).0.tasks ≡ weigh w s.tasks + w t
unfolding schedule_lock
post-weights w s t h = rw (h, schedule_lock) (weigh-snoc w s.tasks t)

post-counters :
    (s : Scheduler) (t : Task)
    → ((schedule_lock s t).0.active ≡ s.active) × ((schedule_lock s t).0.idle ≡ s.idle)
unfolding schedule_lock
post-counters s t = (ground arith, ground arith)

module _ {n : ℕ} {s : System} (v : Inv n s) where
  -- A step of thread `i` to another place changes each sum by the part of thread `i`.
  abbrev Moved : ℕ → Place → Place → Type 0
  Moved i p q =
      (weight : Place → ℕ)
      → sum_threads weight (assign s.place i q) n + weight p
        ≡ weight q + sum_threads weight s.place n

  moved : (i : ℕ) (p q : Place) → i < n → s.place i ≡ p → Moved i p q
  moved i p q lt e weight =
      subst
        (λ (r : Place).
          sum_threads weight (assign s.place i q) n + weight r
          ≡ weight q + sum_threads weight s.place n)
        e (sum-assign weight s.place i q n lt)

  take-Inv :
      (i k : ℕ) (b : Bool)
      → i < n
      → s.place i ≡ Place.choosing b
      → is_task (take_task s.sched k).1 ≡ true
      → Inv n (record s {
        sched = (take_task s.sched k).0;
        place = assign s.place i (Place.working b (take_task s.sched k).1);
      })
  take-Inv i k b lt e h = record {
    holds = Takes-HoldsTasks (take_task-Takes s.sched k) v.holds;
    active = omega (arith, v.active, taken.count, m is_working);
    idle = omega (arith, v.idle, taken.same_idle, m is_idling);
    balance = λ w. omega (arith, v.balance w, taken.weights w, m (weigh_place w));
  }
    where
      taken : Taken s.sched (take_task s.sched k)
      taken = take-Taken (take_task-Takes s.sched k) h

      m : Moved i (Place.choosing b) (Place.working b (take_task s.sched k).1)
      m = moved i _ _ lt e

  -- A step that leaves the queue and the number of active threads alone.
  quiet-Inv :
      (i : ℕ) (p q : Place) (sched : Scheduler)
      → i < n
      → s.place i ≡ p
      → sched.tasks ≡ s.sched.tasks
      → sched.active ≡ s.sched.active
      → is_working p ≡ is_working q
      → sched.idle + is_idling p ≡ is_idling q + s.sched.idle
      → ((w : Task → ℕ) → weigh_place w p ≡ weigh_place w q)
      → Inv n (record s { sched = sched; place = assign s.place i q })
  quiet-Inv i p q sched lt e same active working idle weight = record {
    holds = subst (All (λ t. is_task t ≡ true)) (sym same) v.holds;
    active = omega (arith, v.active, active, working, m is_working);
    idle = omega (arith, v.idle, idle, m is_idling);
    balance = λ w. omega (arith, v.balance w, ap (weigh w) same, weight w, m (weigh_place w));
  }
    where
      m : Moved i p q
      m = moved i p q lt e

-- Every step keeps the invariant.
Step-Inv : {n : ℕ} {tid : ℕ → ℕ} {s t : System} → Step n tid s t → Inv n s → Inv n t
unfolding weigh
Step-Inv {n} {tid} {s} (Step.take i b lt e h) v = take-Inv v i (tid i) b lt e h
Step-Inv {n} {tid} {s} (Step.miss i b lt e h) v =
    let same = miss-same (take_task-Takes s.sched (tid i)) v.holds h in
    quiet-Inv v i _ (Place.without_task b) (take_task s.sched (tid i)).0 lt e
      (ap (λ (r : Scheduler). r.tasks) same) (ap (λ (r : Scheduler). r.active) same) refl
      (omega (arith, ap (λ (r : Scheduler). r.idle) same)) (λ w. refl)
Step-Inv {n} {tid} {s} (Step.finish i b t lt e) v = record {
  holds = v.holds;
  active = omega (arith, v.active, moved v i _ (Place.choosing b) lt e is_working);
  idle = omega (arith, v.idle, moved v i _ (Place.choosing b) lt e is_idling);
  balance = λ w. omega (arith, v.balance w, moved v i _ (Place.choosing b) lt e (weigh_place w));
}
Step-Inv (Step.sleep i lt e) v =
    quiet-Inv v i _ Place.idling _ lt e refl refl refl (omega arith) (λ w. refl)
Step-Inv (Step.leave i lt e) v =
    quiet-Inv v i _ Place.exited _ lt e refl refl refl (omega arith) (λ w. refl)
Step-Inv (Step.look i over lt e h) v =
    quiet-Inv v i _ (Place.looked over) _ lt e refl refl refl (omega arith) (λ w. refl)
Step-Inv {s} (Step.wake i over lt e) v =
    quiet-Inv v i _ (Place.choosing over) _ lt e refl refl refl
      (omega (arith, v.idle, sum-ge is_idling s.place _ i lt, ap is_idling e)) (λ w. refl)
Step-Inv {n} {tid} {s} (Step.post t h) v = record {
  holds = schedule_lock-HoldsTasks s.sched t v.holds;
  active = (post-counters s.sched t).0 ∙ v.active;
  idle = (post-counters s.sched t).1 ∙ v.idle;
  balance = λ w. omega (arith, v.balance w, post-weights w s.sched t h);
}
Step-Inv Step.stop v = record {
  holds = v.holds;
  active = v.active;
  idle = v.idle;
  balance = v.balance;
}

pub Reach-Inv : {n : ℕ} {tid : ℕ → ℕ} {s : System} → Reach n tid s → Inv n s
Reach-Inv {n} Reach.begin = start-Inv n
Reach-Inv (Reach.next r st) = Step-Inv st (Reach-Inv r)
