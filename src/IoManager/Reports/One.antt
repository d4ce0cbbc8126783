-- ===== src/IoManager/Reports/One.antt =====
-- The handling of one report in `idle` (src/iomanager/ioscheduler.cc).
use coroutinelib.Base.{
  ℕ, ◌+◌, ◌≡◌, refl, sym, ap, ◌∙◌, Bool, true, false, List, arith, length, get_or, get_or-set_ne,
  length-set, inl, inr,
}
use coroutinelib.Faults.{Result}
use coroutinelib.IoManager.Event.{Event, without, flags}
use coroutinelib.IoManager.Context.{FdContext, new_context}
use coroutinelib.IoManager.{IoManager, context_at}
use coroutinelib.IoManager.Idle.{Ready, real_events, handle_ready}
use coroutinelib.IoManager.Invariant.{registered, Inv}
use coroutinelib.IoManager.TwoEvents.{Delivered}
use coroutinelib.IoManager.Delivery.{handle_ready-failed, handle_ready-delivers}
use coroutinelib.IoManager.Reports.{Avoids, IsReport, got_of, schedule_report, IsCleared}

-- After the handling of one report.
pub record One (m : IoManager) (r : Ready) (m' : IoManager) : Type 0 where
  pub inv : Inv m'
  pub size : length m'.contexts ≡ length m.contexts
  pub count : registered m'.contexts + flags (got_of m r) ≡ registered m.contexts
  pub kept : (fd : ℕ) → Avoids fd r → context_at m' fd ≡ context_at m fd
  pub cleared : IsCleared m m' r
  pub sched : m'.sched ≡ schedule_report m r m.sched
  pub timer : m'.timer ≡ m.timer

without-none : (a : Event) → without a Event.none ≡ a
without-none a = ground arith

One-failed :
    (m : IoManager) (fd : ℕ) (mask : Event) (trouble : Bool)
    → Inv m
    → One m (Ready.descriptor fd mask trouble true) m
One-failed m fd mask trouble v = record {
  inv = v;
  size = refl;
  count = omega arith;
  kept = λ other n. refl;
  cleared = sym (without-none (context_at m fd).events);
  sched = refl;
  timer = refl;
}

One-Delivered :
    (m m' : IoManager) (fd : ℕ) (mask : Event) (trouble : Bool)
    → Delivered (real_events (context_at m fd).events mask trouble) m fd m'
    → One m (Ready.descriptor fd mask trouble false) m'
One-Delivered m m' fd mask trouble d = record {
  inv = d.inv;
  size = ap length d.only.contexts ∙ length-set m.contexts fd (context_at m' fd);
  count = d.count;
  kept = λ other n.
      ap (λ (cs : List FdContext). get_or cs other (new_context other)) d.only.contexts
      ∙ get_or-set_ne m.contexts fd other (context_at m' fd) (new_context other) n;
  cleared = d.events;
  sched = d.sched;
  timer = d.only.timer;
}

pub handle_ready-One :
    (m : IoManager) (r : Ready)
    → Inv m
    → IsReport m r
    → (m' : IoManager) × (handle_ready m r ≡ Result.ok m') × One m r m'
unfolding handle_ready
handle_ready-One m Ready.pipe v h = (
  record m { pipe = 0 },
  refl,
  record {
    inv = record { consistent = v.consistent; counted = v.counted; room = v.room };
    size = refl;
    count = omega arith;
    kept = λ fd n. refl;
    cleared = tt;
    sched = refl;
    timer = refl;
  },
)
handle_ready-One m (Ready.descriptor fd mask trouble true) v h =
    (m, handle_ready-failed m fd h.0 v mask trouble, One-failed m fd mask trouble v)
handle_ready-One m (Ready.descriptor fd mask trouble false) v h =
    elim (handle_ready-delivers m fd h.0 v mask trouble false h.1) [
      | inl (e, runs) ↦ absurd (ground arith)
      | inr (m', runs, d) ↦ (m', runs, One-Delivered m m' fd mask trouble d)
    ]
