-- ===== src/Hook/Sleep.antt =====
-- A fiber that sleeps (src/hook/hook.cc): control goes back to the code that resumed it, and the set of
-- timers holds one that schedules it again.
use coroutinelib.Base.{
  ℕ, ◌+◌, ◌*◌, ◌/◌, ◌^◌, ◌<◌, ◌≤◌, ◌≡◌, ◌≢◌, refl, sym, subst, ap, ◌∙◌, Option, some, Bool, true,
  false, arith, All, In, length, inl, get_or-append_length, not, if◌then◌else◌,
}
use coroutinelib.Faults.{Result}
use coroutinelib.Callback.{Callback}
use coroutinelib.Timer.{Timer, deref, deadline, milliseconds, new_timer, null_timer}
use coroutinelib.Timer.Manager.{Manager, add_timer, insert_timer}
use coroutinelib.Timer.Manager.Valid.{IsValid, add_timer-IsValid}
use coroutinelib.Timer.Collision.{add_timer-pending}
use coroutinelib.Fiber.{World, State, fiber_at, home, get_this}
use coroutinelib.Fiber.Switch.{Own}
use coroutinelib.Fiber.Returns.{Yielded, yield-returns}
use coroutinelib.IoManager.{IoManager, add_io_timer, tickle}
use coroutinelib.Hook.{
  Local, Outcome, suspend, sleep, usleep, nanosleep, sleep_ms, usleep_ms, nanosleep_ms,
  is_hook_enable,
}

-- Fiber `i` is the current one, runs, and can go back to the code of the fiber `h` that resumed it.
pub record IsSuspendable (w : World) (i h : ℕ) : Type 0 where
  pub current : w.current ≡ some i
  pub known : i < length w.fibers
  pub apart : i ≢ h
  pub running : (fiber_at w i).state ≡ State.running
  pub to_home : home w (fiber_at w i) ≡ some h
  pub on_cpu : w.on_cpu ≡ i
  pub own : Own h (fiber_at w h).context

-- The thread after the call: timer `z` is in the set of its manager, and is to schedule fiber `i` at
-- the time `next`, once.
pub record Sleeps (i z next : ℕ) (l : Local) : Type 0 where
  pub manager : IoManager
  pub found : l.iom ≡ some manager
  pub valid : IsValid manager.timer
  pub member : In z manager.timer.timers
  pub once : (deref manager.timer.store z).recurring ≡ false
  pub due : deadline manager.timer.store z ≡ next
  pub cb : (deref manager.timer.store z).cb ≡ some (Callback.schedule_fiber i)

add_io_timer-timer :
    (m : IoManager) (ms : ℕ) (cb : Option Callback) (now : ℕ)
    → ((add_io_timer m ms cb false now).0.timer ≡ (add_timer m.timer ms cb false now).0)
      × ((add_io_timer m ms cb false now).1 ≡ length m.timer.store)
unfolding add_io_timer tickle add_timer
add_io_timer-timer m ms cb now = (ground arith, refl)

added-timer :
    (m : Manager) (ms : ℕ) (cb : Option Callback) (now : ℕ)
    → deref (add_timer m ms cb false now).0.store (length m.store) ≡ new_timer ms cb false now
unfolding add_timer insert_timer
added-timer m ms cb now = get_or-append_length m.store (new_timer ms cb false now) null_timer

pub get_this-current :
    (w : World) (i : ℕ) (garbage fails : Bool)
    → w.current ≡ some i
    → get_this w garbage fails ≡ Result.ok (w, i)
unfolding get_this
get_this-current w i garbage fails e = simp (e, get_this)

hooked :
    (l : Local) (o : Result Outcome)
    → l.enabled ≡ true
    → (if not l.enabled then Result.ok Outcome.original else o) ≡ o
hooked l o e = ap (λ (b : Bool). if not b then Result.ok Outcome.original else o) e

module _ (l : Local) (m : IoManager) (i h now : ℕ) (garbage fails : Bool) (here : l.iom ≡ some m)
    (v : IsValid m.timer) (r : IsSuspendable l.world i h) where
  suspended-Sleeps :
      (ms : ℕ) (w' : World)
      → All (λ z. deadline m.timer.store z ≢ now + milliseconds ms) m.timer.timers
      → Sleeps i (length m.timer.store) (now + milliseconds ms) (record l {
        world = w';
        iom = some (add_io_timer m ms (some (Callback.schedule_fiber i)) false now).0;
      })
  unfolding new_timer add_timer
  suspended-Sleeps ms w' free =
      let cb = some (Callback.schedule_fiber i) in
      let (timer, at) = add_io_timer-timer m ms cb now in
      let reads = added-timer m.timer ms cb now in
      record {
        manager = (add_io_timer m ms cb false now).0;
        found = refl;
        valid = subst IsValid (sym timer) (add_timer-IsValid m.timer ms cb false now v);
        member =
            subst (λ (t : Manager). In (length m.timer.store) t.timers) (sym timer)
              (add_timer-pending m.timer ms cb false now v free).0;
        once =
            ap (λ (t : Manager). (deref t.store (length m.timer.store)).recurring) timer
            ∙ ap (λ (t : Timer). t.recurring) reads;
        due =
            ap (λ (t : Manager). deadline t.store (length m.timer.store)) timer
            ∙ ap (λ (t : Timer). t.next) reads;
        cb =
            ap (λ (t : Manager). (deref t.store (length m.timer.store)).cb) timer
            ∙ ap (λ (t : Timer). t.cb) reads;
      }

  suspend-Sleeps :
      (ms : ℕ)
      → All (λ z. deadline m.timer.store z ≢ now + milliseconds ms) m.timer.timers
      → (l' : Local) × (z : ℕ) × (suspend l ms now garbage fails false
          ≡ Result.ok (Outcome.suspended l' z))
        × Yielded l.world i h l'.world
        × Sleeps i z (now + milliseconds ms) l'
  unfolding suspend
  suspend-Sleeps ms free =
      let (w', goes_back, y) =
        yield-returns l.world i h r.known r.apart (inl r.running) r.to_home r.on_cpu r.own in
      let (timer, at) = add_io_timer-timer m ms (some (Callback.schedule_fiber i)) now in
      (
        _,
        length m.timer.store,
        rw (get_this-current l.world i garbage fails r.current, here, goes_back, suspend, at),
        y,
        suspended-Sleeps ms w' free,
      )

  -- `sleep` with the hooks on, from the running fiber `i` of a thread with a manager, for less than
  -- 4294968 seconds, when no timer of the set has the deadline that comes out: control goes back to the
  -- code that resumed `i`, which is ready again, and a timer of the set is to schedule `i` once, exactly
  -- `seconds` seconds from now.
  pub sleep-Sleeps :
      (seconds : ℕ)
      → l.enabled ≡ true
      → seconds * 1000 < 2 ^ 32
      → All (λ z. deadline m.timer.store z ≢ now + seconds * 1000000000) m.timer.timers
      → (l' : Local) × (z : ℕ) × (sleep l seconds now garbage fails false
          ≡ Result.ok (Outcome.suspended l' z))
        × Yielded l.world i h l'.world
        × Sleeps i z (now + seconds * 1000000000) l'
  unfolding sleep is_hook_enable
  sleep-Sleeps seconds on short free =
      let exact : milliseconds (sleep_ms seconds) ≡ seconds * 1000000000 = omega arith in
      let (l', z, runs, y, s) = suspend-Sleeps (sleep_ms seconds) (
        subst (λ d. All (λ z. deadline m.timer.store z ≢ now + d) m.timer.timers) (sym exact)
          free) in
      (l', z, hooked l _ on ∙ runs, y, subst (λ d. Sleeps i z (now + d) l') exact s)

  -- `usleep` with the hooks on, from the running fiber `i` of a thread with a manager, when no
  -- timer of the set has the deadline that comes out: control goes back to the code that resumed
  -- `i`, which is ready again, and a timer of the set is to schedule `i` once, less than a
  -- millisecond before the time asked for or at that time.
  pub usleep-Sleeps :
      (usec : ℕ)
      → l.enabled ≡ true
      → All (λ z. deadline m.timer.store z ≢ now + milliseconds (usec / 1000)) m.timer.timers
      → (l' : Local) × (z due : ℕ) × (usleep l usec now garbage fails false
          ≡ Result.ok (Outcome.suspended l' z))
        × Yielded l.world i h l'.world
        × Sleeps i z due l'
        × (due ≤ now + usec * 1000)
        × (now + usec * 1000 < due + 1000000)
  unfolding usleep is_hook_enable
  usleep-Sleeps usec on free =
      let (l', z, runs, y, s) = suspend-Sleeps (usleep_ms usec) free in
      (
        l',
        z,
        now + milliseconds (usec / 1000),
        hooked l _ on ∙ runs,
        y,
        s,
        omega arith,
        omega arith,
      )

  -- `nanosleep` with the hooks on, from the running fiber `i` of a thread with a manager, for less
  -- than 2^31 milliseconds, when no timer of the set has the deadline that comes out: control goes
  -- back to the code that resumed `i`, which is ready again, and a timer of the set is to schedule
  -- `i` once, less than a millisecond before the time asked for or at that time.
  pub nanosleep-Sleeps :
      (sec nsec : ℕ)
      → l.enabled ≡ true
      → sec * 1000 + nsec / 1000000 < 2 ^ 31
      → All
          (λ z. deadline m.timer.store z ≢ now + milliseconds (sec * 1000 + nsec / 1000000))
          m.timer.timers
      → (l' : Local) × (z due : ℕ) × (nanosleep l sec nsec now garbage fails false
          ≡ Result.ok (Outcome.suspended l' z))
        × Yielded l.world i h l'.world
        × Sleeps i z due l'
        × (due ≤ now + sec * 1000000000 + nsec)
        × (now + sec * 1000000000 + nsec < due + 1000000)
  unfolding nanosleep is_hook_enable
  nanosleep-Sleeps sec nsec on short free =
      let exact : nanosleep_ms sec nsec ≡ sec * 1000 + nsec / 1000000 = ground arith in
      let (l', z, runs, y, s) = suspend-Sleeps (nanosleep_ms sec nsec) (
        subst (λ d. All (λ z. deadline m.timer.store z ≢ now + milliseconds d) m.timer.timers)
          (sym exact) free) in
      (
        l',
        z,
        now + milliseconds (sec * 1000 + nsec / 1000000),
        hooked l _ on ∙ runs,
        y,
        subst (λ d. Sleeps i z (now + milliseconds d) l') exact s,
        omega arith,
        omega arith,
      )
