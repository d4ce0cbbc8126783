-- ===== src/IoManager/Reports/Handling.antt =====
-- The loop of `idle` over the ready events (src/iomanager/ioscheduler.cc).
use coroutinelib.Base.{ℕ, ◌+◌, ◌≡◌, refl, ap, ◌∙◌, List, [], ◌∷◌, arith, All}
use coroutinelib.Faults.{Result}
use coroutinelib.IoManager.Context.{FdContext}
use coroutinelib.IoManager.{IoManager, context_at}
use coroutinelib.IoManager.Idle.{Ready, handle_all}
use coroutinelib.IoManager.Invariant.{registered, Inv}
use coroutinelib.IoManager.Reports.{
  Avoids, Once, AreReports, schedule_reports, triggered, IsCleared,
}
use coroutinelib.IoManager.Reports.One.{handle_ready-One}
use coroutinelib.IoManager.Reports.Same.{
  AreReports-same, triggered-same, schedule_reports-same, IsCleared-same, others-same,
}

-- After the handling of all.
pub record Reported (m : IoManager) (rs : List Ready) (m' : IoManager) : Type 0 where
  pub inv : Inv m'
  pub count : registered m'.contexts + triggered m rs ≡ registered m.contexts
  pub kept : (fd : ℕ) → All (Avoids fd) rs → context_at m' fd ≡ context_at m fd
  pub cleared : All (IsCleared m m') rs
  pub sched : m'.sched ≡ schedule_reports m rs m.sched
  pub timer : m'.timer ≡ m.timer

IsCleared-later :
    (m m1 m' : IoManager) (r : Ready) (rs : List Ready)
    → Once r rs
    → IsCleared m m1 r
    → ((fd : ℕ) → All (Avoids fd) rs → context_at m' fd ≡ context_at m1 fd)
    → IsCleared m m' r
IsCleared-later m m1 m' Ready.pipe rs h c kept = tt
IsCleared-later m m1 m' (Ready.descriptor fd mask trouble fails) rs h c kept =
    ap (λ (d : FdContext). d.events) (kept fd h) ∙ c

-- The loop of `idle` over the ready events, each of a known descriptor and with no more flags than are
-- registered, no descriptor twice: it comes to its end with the manager in order. Each report's events
-- (all registered ones for an error, none if its `epoll_ctl` fails) are no longer registered and have
-- had their callbacks or fibers scheduled once, in the order of the reports; the other descriptors'
-- contexts and the timers are as before.
pub handle_all-delivers :
    (m : IoManager) (rs : List Ready)
    → Inv m
    → AreReports m rs
    → (m' : IoManager) × (handle_all m rs ≡ Result.ok m') × Reported m rs m'
unfolding handle_all
handle_all-delivers m [] v h = (
  m,
  refl,
  record {
    inv = v;
    count = omega arith;
    kept = λ fd a. refl;
    cleared = tt;
    sched = refl;
    timer = refl;
  },
)
handle_all-delivers m (r ∷ rs) v (report, once, others) =
    let (m1, runs, o) = handle_ready-One m r v report in
    let same = others-same m m1 r rs o once in
    let (m', goes_on, q) =
      handle_all-delivers m1 rs o.inv (AreReports-same m m1 rs o.size same others) in
    (
      m',
      rw runs goes_on,
      record {
        inv = q.inv;
        count = omega (arith, q.count, o.count, triggered-same m m1 rs same);
        kept = λ fd a. q.kept fd a.1 ∙ o.kept fd a.0;
        cleared = (
          IsCleared-later m m1 m' r rs once o.cleared q.kept,
          IsCleared-same m m1 m' rs same q.cleared,
        );
        sched =
            q.sched
            ∙ schedule_reports-same m m1 rs m1.sched same
            ∙ ap (schedule_reports m rs) o.sched;
        timer = q.timer ∙ o.timer;
      },
    )
