-- ===== src/Timer/Collision.antt =====
-- Two timers with one deadline: `Timer::Comparator` (src/timer/timer.cc) takes them for the same element
-- of the set.
use coroutinelib.Base.{
  ℕ, ◌+◌, ◌<◌, ◌≡◌, ◌≢◌, refl, sym, subst, ap, ◌∙◌, Option, some, Bool, true, List, [], ◌∷◌, ◌++◌,
  arith, All, In, length, get_or-append_length, get_or-append_lt,
}
use coroutinelib.Callback.{Callback}
use coroutinelib.Timer.{Timer, milliseconds, deref, deadline, comparator, null_timer, new_timer}
use coroutinelib.Timer.OrderedSet.{insert, erase, find}
use coroutinelib.Timer.OrderedSet.Order.{IsSorted, All-map, All-In, erase-keys}
use coroutinelib.Timer.OrderedSet.Members.{
  insert-same, insert-In, insert-keeps, find-equal, All-In_self,
}
use coroutinelib.Timer.Cancel.{cleared}
use coroutinelib.Timer.Store.{deadline-set_same, snoc-IsSorted, snoc-keys, set_same-IsSorted}
use coroutinelib.Timer.Manager.{Manager, add_timer, insert_timer, cancel}
use coroutinelib.Timer.Manager.Valid.{IsValid}
use coroutinelib.Timer.Expiry.Round.{
  Agrees, expired, callbacks, expired-Agrees, callbacks-Agrees, Agrees-expired,
}

module _ (m : Manager) (ms : ℕ) (cb : Option Callback) (recurring : Bool) (now : ℕ)
    (v : IsValid m) where
  abbrev created : List Timer
  created = m.store ++ new_timer ms cb recurring now ∷ []

  abbrev added : ℕ
  added = length m.store

  new_deadline : deadline created added ≡ now + milliseconds ms
  unfolding new_timer
  new_deadline = ap (λ (t : Timer). t.next) (get_or-append_length m.store _ null_timer)

  new_timers :
      (add_timer m ms cb recurring now).0.timers ≡ insert (comparator created) added m.timers
  unfolding add_timer
  new_timers = refl

  kept_keys :
      (s : List ℕ)
      → All (λ z. z < length m.store) s
      → All (λ z. deadline created z ≡ deadline m.store z) s
  kept_keys s h = snoc-keys m.store (new_timer ms cb recurring now) s h

  order : IsSorted (deadline created) m.timers
  order = snoc-IsSorted m.store _ m.timers v.known v.sorted

  free :
      (s : List ℕ)
      → All (λ z. z < length m.store) s
      → All (λ z. deadline m.store z ≢ now + milliseconds ms) s
      → All (λ z. deadline created z ≢ deadline created added) s
  free [] k h = tt
  free (z ∷ s) k h = (
    (λ q. h.0 (omega (arith, q, new_deadline, (kept_keys (z ∷ []) (k.0, tt)).0))),
    free s k.1 h.1,
  )

  -- `addTimer` on a valid manager puts the new timer into the set, and keeps the others, if no timer of
  -- the set has its deadline.
  pub add_timer-pending :
      All (λ z. deadline m.store z ≢ now + milliseconds ms) m.timers
      → let (m', i, at_front) = add_timer m ms cb recurring now in
        In i m'.timers × All (λ z. In z m'.timers) m.timers
  unfolding add_timer
  add_timer-pending h = (
    insert-In (deadline created) added m.timers (free m.timers v.known h),
    All-In_self m.timers (λ z k. insert-keeps (comparator created) added z m.timers k),
  )

  module _ (z : ℕ) (member : In z m.timers)
      (equal : deadline m.store z ≡ now + milliseconds ms) where
    equal_keys : deadline created z ≡ deadline created added
    equal_keys =
        (kept_keys (z ∷ []) (All-In (λ w. w < length m.store) m.timers z v.known member, tt)).0
        ∙ equal
        ∙ sym new_deadline

    dropped : insert (comparator created) added m.timers ≡ m.timers
    dropped = insert-same (deadline created) added z m.timers order member equal_keys

    created-Agrees : (ts : List ℕ) → All (λ w. w < length m.store) ts → Agrees created m.store ts
    created-Agrees [] h = tt
    created-Agrees (w ∷ ts) h = (
      get_or-append_lt m.store (new_timer ms cb recurring now ∷ []) w null_timer h.0,
      created-Agrees ts h.1,
    )

    none_added : (ts : List ℕ) → All (λ w. w < length m.store) ts → All (λ w. w ≢ added) ts
    none_added [] h = tt
    none_added (w ∷ ts) h = ((λ e. omega (arith, e, h.0)), none_added ts h.1)

    -- `addTimer` on a valid manager in whose set a timer has the new one's deadline: the caller gets a
    -- timer with its callback, but the set stays as it is, without the new timer. In this state the
    -- callbacks that have expired at any time are those that have without the new timer.
    pub add_timer-dropped :
        (rollover : Bool) (later : ℕ)
        → let (m', i, at_front) = add_timer m ms cb recurring now in
          ((deref m'.store i).cb ≡ cb)
          × (m'.timers ≡ m.timers)
          × All (λ w. w ≢ i) m'.timers
          × (callbacks m'.store (expired rollover later m'.store m'.timers)
              ≡ callbacks m.store (expired rollover later m.store m.timers))
    unfolding add_timer insert_timer new_timer
    add_timer-dropped rollover later =
        let same = created-Agrees m.timers v.known in
        rw dropped (
          ap (λ (t : Timer). t.cb) (get_or-append_length m.store _ null_timer),
          refl,
          none_added m.timers v.known,
          callbacks-Agrees created m.store (expired rollover later created m.timers) (
                subst (Agrees created m.store)
                  (sym (expired-Agrees rollover later created m.store m.timers same))
                  (Agrees-expired rollover later created m.store m.timers same))
              ∙ ap (callbacks m.store)
                  (expired-Agrees rollover later created m.store m.timers same),
        )

module _ (m : Manager) (i z : ℕ) (f : Callback) (v : IsValid m) (member : In z m.timers)
    (equal : deadline m.store z ≡ deadline m.store i) (live : (deref m.store i).cb ≡ some f) where
  finds_other : find (comparator (cleared m i)) i m.timers ≡ some z
  finds_other =
      find-equal (deadline (cleared m i)) i z m.timers
        (set_same-IsSorted m.store i _ m.timers refl v.sorted) member
        (deadline-set_same m.store i z _ refl ∙ equal ∙ sym (deadline-set_same m.store i i _ refl))

  cancel-other_eq : cancel m i ≡ (record m { store = cleared m i; timers = erase z m.timers }, true)
  unfolding cancel
  cancel-other_eq = rw (live, finds_other, cancel)

  -- `cancel` of a timer with a callback takes a timer of the set that has the same deadline out of the
  -- set, whether or not it is the one to be cancelled, and returns true.
  pub cancel-takes_equal : ((cancel m i).1 ≡ true) × All (λ w. w ≢ z) (cancel m i).0.timers
  cancel-takes_equal = rw cancel-other_eq (
    refl,
    All-map (erase z m.timers) (λ w n e. n (ap (deadline m.store) e))
        (erase-keys (deadline m.store) z m.timers v.sorted member),
  )
