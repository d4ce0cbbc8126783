-- ===== src/IoManager/Reports/Same.antt =====
-- Reports of other descriptors are not touched by the handling of one (src/iomanager/ioscheduler.cc).
use coroutinelib.Base.{
  ℕ, ◌≡◌, refl, sym, subst, ap, ◌∙◌, Bool, List, [], ◌∷◌, arith, All, length, if◌then◌else◌,
}
use coroutinelib.Scheduler.{Scheduler}
use coroutinelib.IoManager.Event.{Event, without, and_event, flags}
use coroutinelib.IoManager.Context.{FdContext}
use coroutinelib.IoManager.{IoManager, context_at}
use coroutinelib.IoManager.Idle.{Ready, real_events}
use coroutinelib.IoManager.TwoEvents.{schedule_events}
use coroutinelib.IoManager.Reports.{
  Avoids, IsReport, Once, AreReports, got_of, schedule_report, schedule_reports, triggered,
  IsCleared,
}
use coroutinelib.IoManager.Reports.One.{One}

-- A report of the same descriptor as `r`'s does not come later.
Once-head :
    (r : Ready) (fd : ℕ) (mask : Event) (trouble fails : Bool) (rs : List Ready)
    → Once r (Ready.descriptor fd mask trouble fails ∷ rs)
    → Avoids fd r
Once-head Ready.pipe fd mask trouble fails rs h = tt
Once-head (Ready.descriptor other _ _ _) fd mask trouble fails rs h = λ e. h.0 (sym e)

Once-tail : (r q : Ready) (rs : List Ready) → Once r (q ∷ rs) → Once r rs
Once-tail Ready.pipe q rs h = tt
Once-tail (Ready.descriptor fd mask trouble fails) q rs h = h.1

-- A report reads the context of its descriptor alone.
abbrev pub SameFor : IoManager → IoManager → Ready → Type 0
SameFor m m1 Ready.pipe = Unit {0}
SameFor m m1 (Ready.descriptor fd mask trouble fails) = context_at m1 fd ≡ context_at m fd

module _ (m m1 : IoManager) where
  pub IsReport-same :
      (r : Ready)
      → length m1.contexts ≡ length m.contexts
      → SameFor m m1 r
      → IsReport m r
      → IsReport m1 r
  IsReport-same Ready.pipe size e h = tt
  IsReport-same (Ready.descriptor fd mask trouble fails) size e h = (
    omega (arith, size, h.0),
    subst (λ (c : FdContext). and_event c.events mask ≡ mask) (sym e) h.1,
  )

  pub AreReports-same :
      (rs : List Ready)
      → length m1.contexts ≡ length m.contexts
      → All (SameFor m m1) rs
      → AreReports m rs
      → AreReports m1 rs
  AreReports-same [] size e h = tt
  AreReports-same (r ∷ rs) size e h =
      (IsReport-same r size e.0 h.0, h.1, AreReports-same rs size e.1 h.2)

  pub got_of-same : (r : Ready) → SameFor m m1 r → got_of m1 r ≡ got_of m r
  got_of-same Ready.pipe e = refl
  got_of-same (Ready.descriptor fd mask trouble fails) e =
      ap (λ (c : FdContext). if fails then Event.none else real_events c.events mask trouble) e

  pub triggered-same : (rs : List Ready) → All (SameFor m m1) rs → triggered m1 rs ≡ triggered m rs
  triggered-same [] e = refl
  triggered-same (r ∷ rs) e = omega (arith, ap flags (got_of-same r e.0), triggered-same rs e.1)

  pub schedule_report-same :
      (r : Ready) (s : Scheduler) → SameFor m m1 r → schedule_report m1 r s ≡ schedule_report m r s
  schedule_report-same Ready.pipe s e = refl
  schedule_report-same (Ready.descriptor fd mask trouble fails) s e =
      ap
        (λ (c : FdContext).
          schedule_events (if fails then Event.none else real_events c.events mask trouble) c s)
        e

  pub schedule_reports-same :
      (rs : List Ready) (s : Scheduler)
      → All (SameFor m m1) rs
      → schedule_reports m1 rs s ≡ schedule_reports m rs s
  schedule_reports-same [] s e = refl
  schedule_reports-same (r ∷ rs) s e =
      schedule_reports-same rs (schedule_report m1 r s) e.1
      ∙ ap (schedule_reports m rs) (schedule_report-same r s e.0)

  pub IsCleared-same :
      (m' : IoManager) (rs : List Ready)
      → All (SameFor m m1) rs
      → All (IsCleared m1 m') rs
      → All (IsCleared m m') rs
  IsCleared-same m' [] e h = tt
  IsCleared-same m' (Ready.pipe ∷ rs) e h = (tt, IsCleared-same m' rs e.1 h.1)
  IsCleared-same m' (Ready.descriptor fd mask trouble fails ∷ rs) e h = (
    h.0
        ∙ ap
            (λ (c : FdContext).
              without c.events (if fails then Event.none else real_events c.events mask trouble))
            (e.0),
    IsCleared-same m' rs e.1 h.1,
  )

  -- Reports of other descriptors than that of `r` see the same contexts after it.
  pub others-same : (r : Ready) (rs : List Ready) → One m r m1 → Once r rs → All (SameFor m m1) rs
  others-same r [] o h = tt
  others-same r (Ready.pipe ∷ rs) o h = (tt, others-same r rs o (Once-tail r Ready.pipe rs h))
  others-same r (Ready.descriptor fd mask trouble fails ∷ rs) o h = (
    o.kept fd (Once-head r fd mask trouble fails rs h),
    others-same r rs o (Once-tail r (Ready.descriptor fd mask trouble fails) rs h),
  )
