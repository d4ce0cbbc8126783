-- ===== src/Scheduler/Dispatch/Callbacks.antt =====
-- A callback in the queue that schedules a fiber (src/scheduler/scheduler.cc, src/hook/hook.cc).
use coroutinelib.Base.{
  ℕ, ◌<◌, ◌≤◌, ◌≡◌, ◌≢◌, refl, sym, ap, ◌∙◌, Option, none, some, false, List, [], ◌∷◌, ◌++◌, arith,
  All, length,
}
use coroutinelib.Callback.{Callback}
use coroutinelib.Faults.{Result, ◌>>=◌}
use coroutinelib.Fiber.{World}
use coroutinelib.Scheduler.{Scheduler, Task, fiber_task, cb_task, is_foreign}
use coroutinelib.Scheduler.Dispatch.{Leaves, round}
use coroutinelib.Scheduler.Dispatch.Serves.{
  Turn, post_all, post_all-tasks, posted-IsServing, turn_on, run_turns, IsFair, IsServing, Serves,
  run_turns-Serves,
}

abbrev Course : Type 0
Course = Result (Option (World × Scheduler))

abbrev go_on : Course → (World → Scheduler → Course) → Course
go_on q f = q >>= λ r. elim r [ none ↦ Result.ok none | some (w, s) ↦ f w s ]

go_on_assoc :
    (q : Course) (f g : World → Scheduler → Course)
    → go_on (go_on q f) g ≡ go_on q (λ w s. go_on (f w s) g)
go_on_assoc (Result.ok none) f g = refl
go_on_assoc (Result.ok (some (w, s))) f g = refl
go_on_assoc (Result.err e) f g = refl

go_on_same :
    (q : Course) (f g : World → Scheduler → Course)
    → ((w : World) (s : Scheduler) → f w s ≡ g w s)
    → go_on q f ≡ go_on q g
go_on_same (Result.ok none) f g h = refl
go_on_same (Result.ok (some (w, s))) f g h = h w s
go_on_same (Result.err e) f g h = refl

-- What the closure of a hook does: it posts its fiber.
abbrev pub schedules : ℕ → Turn
schedules i = record { leaves = Leaves.returns; posts = λ w. fiber_task (some i) none ∷ [] }

abbrev pub closure_task : ℕ → Task
closure_task i = cb_task (some (Callback.schedule_fiber i)) none

module _ (n h idle_fiber id : ℕ) where
  run_turns-append :
      (first second : List Turn) (w : World) (s : Scheduler)
      → run_turns idle_fiber id (first ++ second) w s
        ≡ go_on (run_turns idle_fiber id first w s) (run_turns idle_fiber id second)
  unfolding run_turns
  run_turns-append [] second w s = refl
  run_turns-append (turn ∷ first) second w s =
      let q = round w s idle_fiber id turn.leaves false in
      go_on_same q _ _ (λ w' s'. run_turns-append first second w' (post_all s' (turn.posts w')))
      ∙ sym (
          go_on_assoc q (λ w' s'. run_turns idle_fiber id first w' (post_all s' (turn.posts w')))
            (run_turns idle_fiber id second))

  run_turns-then :
      (first second : List Turn) (w w' : World) (s s' : Scheduler)
      → run_turns idle_fiber id first w s ≡ Result.ok (some (w', s'))
      → run_turns idle_fiber id (first ++ second) w s ≡ run_turns idle_fiber id second w' s'
  run_turns-then first second w w' s s' e =
      run_turns-append first second w s
      ∙ ap (λ (q : Course). go_on q (run_turns idle_fiber id second)) e

  schedules-IsFair : (i : ℕ) → i < n → i ≢ h → IsFair n h id (schedules i)
  unfolding is_foreign
  schedules-IsFair i known apart w more = (
    (
      (
        refl,
        λ f e.
            let same : i ≡ f = ap (get_or_zero) e in
            (omega (arith, same, known, more), λ q. apart (same ∙ q)),
      ),
      tt,
    ),
    (refl, tt),
  )
    where
      get_or_zero : Option ℕ → ℕ
      get_or_zero none = 0
      get_or_zero (some f) = f

  -- A thread in the loop of `run` as for `run_turns-Serves`, whose queue has the callback that schedules
  -- fiber `i`: when the callback has the thread, after as many rounds as there are tasks before it, and
  -- calls `scheduleLock` for `i`, then there is a number of further rounds after which `i` is the first
  -- in the queue, and has the thread in the next round, unless the fiber has ended.
  pub schedules-Serves :
      (turns : List Turn) (leaves : Leaves) (i : ℕ) (before after : List Task) (w : World)
      (s : Scheduler)
      → i < n
      → i ≢ h
      → n ≤ length w.fibers
      → IsServing h idle_fiber id w s
      → s.tasks ≡ before ++ closure_task i ∷ after
      → length turns ≡ length before
      → All (IsFair n h id) turns
      → (k : ℕ) × ((others : List Turn)
          → length others ≡ k
          → All (IsFair n h id) others
          → Serves n h idle_fiber id
              (turns ++ schedules i ∷ others)
              leaves
              (fiber_task (some i) none)
              w
              s)
  schedules-Serves turns leaves i before after w s known apart more v split same fair =
      let d =
        run_turns-Serves n h idle_fiber id turns Leaves.returns before (closure_task i) after w s
          more v split same fair in
      let r = d.turn in
      let fair_i = schedules-IsFair i known apart in
      let more' : n ≤ length r.world.fibers = omega (arith, r.grown, d.grown) in
      let left_over : Scheduler = record (d.queue) { tasks = d.later } in
      let posted = post_all left_over ((schedules i).posts r.world) in
      let serving : IsServing h idle_fiber id r.world posted =
        posted-IsServing n h idle_fiber id (schedules i) r.world d.queue d.later fair_i more'
          r.is_loop r.fits r.own in
      let at_end : posted.tasks ≡ d.later ++ fiber_task (some i) none ∷ [] =
        post_all-tasks r.world h left_over ((schedules i).posts r.world) (fair_i r.world more').0 in
      (
        length d.later,
        λ others enough fairs.
            let e =
              run_turns-Serves n h idle_fiber id others leaves d.later (fiber_task (some i) none) []
                r.world posted more' serving at_end enough fairs in
            record {
              before = e.before;
              queue = e.queue;
              waits =
                  run_turns-then turns (schedules i ∷ others) w d.before s d.queue d.waits
                  ∙ turn_on n h idle_fiber id (schedules i) others d.before d.queue r.world
                      left_over r.runs
                  ∙ e.waits;
              later = e.later;
              at_head = e.at_head;
              serving = e.serving;
              grown = e.grown;
              turn = e.turn;
            },
      )
