-- ===== src/IoManager/Reports.antt =====
-- What one return of `epoll_wait` reports, and what `idle` makes of it
-- (src/iomanager/ioscheduler.cc).
pub mod One
pub mod Same
pub mod Handling
use coroutinelib.Base.{
  ℕ, ◌+◌, ◌<◌, ◌≡◌, ◌≢◌, refl, sym, subst, ap, ◌∙◌, Bool, true, false, List, [], ◌∷◌, arith, All,
  length, get_or, set, get_or-set_ne, length-set, if◌then◌else◌, inl, inr,
}
use coroutinelib.Faults.{Result, ◌>>=◌}
use coroutinelib.Timer.Manager.{Manager}
use coroutinelib.Scheduler.{Scheduler}
use coroutinelib.IoManager.Event.{Event, without, and_event, flags}
use coroutinelib.IoManager.Context.{FdContext, new_context}
use coroutinelib.IoManager.{IoManager, context_at}
use coroutinelib.IoManager.Idle.{Ready, real_events, handle_ready, handle_all}
use coroutinelib.IoManager.Invariant.{registered, Inv, OnlyAt}
use coroutinelib.IoManager.TwoEvents.{schedule_events, Delivered}
use coroutinelib.IoManager.Delivery.{handle_ready-failed, handle_ready-delivers}

-- A report of another descriptor than `fd`.
abbrev pub Avoids : ℕ → Ready → Type 0
Avoids fd Ready.pipe = Unit {0}
Avoids fd (Ready.descriptor other mask trouble fails) = other ≢ fd

-- A report of a known descriptor with no more flags than are registered.
abbrev pub IsReport : IoManager → Ready → Type 0
IsReport m Ready.pipe = Unit {0}
IsReport m (Ready.descriptor fd mask trouble fails) =
    (fd < length m.contexts) × (and_event (context_at m fd).events mask ≡ mask)

abbrev pub Once : Ready → List Ready → Type 0
Once Ready.pipe rs = Unit {0}
Once (Ready.descriptor fd mask trouble fails) rs = All (Avoids fd) rs

-- Such reports, with no descriptor twice.
abbrev pub AreReports : IoManager → List Ready → Type 0
AreReports m [] = Unit {0}
AreReports m (r ∷ rs) = IsReport m r × Once r rs × AreReports m rs

-- The events that are triggered for a report: none if `epoll_ctl` fails.
abbrev pub got_of : IoManager → Ready → Event
got_of m Ready.pipe = Event.none
got_of m (Ready.descriptor fd mask trouble fails) =
    if fails then Event.none else real_events (context_at m fd).events mask trouble

abbrev pub schedule_report : IoManager → Ready → Scheduler → Scheduler
schedule_report m Ready.pipe s = s
schedule_report m (Ready.descriptor fd mask trouble fails) s =
    schedule_events (got_of m (Ready.descriptor fd mask trouble fails)) (context_at m fd) s

-- The tasks of all reports, scheduled in the order of the reports.
abbrev pub schedule_reports : IoManager → List Ready → Scheduler → Scheduler
schedule_reports m [] s = s
schedule_reports m (r ∷ rs) s = schedule_reports m rs (schedule_report m r s)

-- The number of events that are triggered.
abbrev pub triggered : IoManager → List Ready → ℕ
triggered m [] = 0
triggered m (r ∷ rs) = flags (got_of m r) + triggered m rs

-- The triggered events of a report are not registered any more.
abbrev pub IsCleared : IoManager → IoManager → Ready → Type 0
IsCleared m m' Ready.pipe = Unit {0}
IsCleared m m' (Ready.descriptor fd mask trouble fails) =
    (context_at m' fd).events
    ≡ without (context_at m fd).events (got_of m (Ready.descriptor fd mask trouble fails))
