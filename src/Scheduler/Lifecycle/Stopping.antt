-- ===== src/Scheduler/Lifecycle/Stopping.antt =====
-- The loop that `stop` calls on the caller's thread runs every task and quits (tw/scheduler.cc).
use tw_server.Base.{
  All, ℕ, ◌+◌, ◌-◌, ◌≡◌, refl, ap, ◌∙◌, subst, from_ok, Bool, true, false, List, [], ◌∷◌, ◌++◌,
  Option, none, some, length, ◌==◌, Outcome, ok, fail, ◌>>=◌, Bool-cases, ◌⊎◌, inl, inr, arith,
}
use tw_server.Fiber.{State, init_state, term, is_term, new_fiber, set_state, exec}
use tw_server.Scheduler.{
  Task, Scheduler, Running, Round, again, quit, pick, update, round, run_idle, put_on_hold, swap_in,
  stopping, is_empty,
}
use tw_server.Scheduler.Draining.{
  rounds, idle_fiber, with_idle_fiber, with_idle_fiber-IsEnding, IsEnding, IsFree, IsQuiet,
  rounds_drain,
}
use tw_server.Scheduler.Lifecycle.{stop_with, Pool, construct, stop, run, call_main, join_all}

-- What comes after some rounds.
abbrev then_rounds : Running → ℕ → List ℕ → Round → Outcome Round
then_rounds r idle b (again event s) = rounds r idle b event s
then_rounds r idle b (quit s) = ok (quit s)

rounds-append :
    (r : Running) (idle : ℕ) (a b : List ℕ) (event : Option ℕ) (s : Scheduler)
    → rounds r idle (a ++ b) event s ≡ (rounds r idle a event s >>= then_rounds r idle b)
unfolding rounds
rounds-append r idle [] b event s = refl
rounds-append r idle (x ∷ a) b event s =
    after (round r idle x event s) (λ ev t. rounds-append r idle a b ev t)
  where
    after :
        (o : Outcome Round)
        → ((ev : Option ℕ) (t : Scheduler)
            → rounds r idle (a ++ b) ev t ≡ (rounds r idle a ev t >>= then_rounds r idle b))
        → (o >>= λ z. elim z [ again ev t ↦ rounds r idle (a ++ b) ev t | quit t ↦ ok (quit t) ])
          ≡ ((o >>= λ z. elim z [ again ev t ↦ rounds r idle a ev t | quit t ↦ ok (quit t) ])
              >>= then_rounds r idle b)
    after (fail e) ih = refl
    after (ok (again ev t)) ih = ih ev t
    after (ok (quit t)) ih = refl

-- A round of no task whose idle fiber has ended.
round_quits :
    (r : Running) (idle x : ℕ) (s : Scheduler)
    → s.tasks ≡ []
    → (s.fibers idle).state ≡ term
    → round r idle x none s ≡ ok (quit s)
unfolding round run_idle pick
round_quits r idle x s h e = rw (ap (pick s.fibers) h, e) refl

abbrev idle_entered : ℕ → Scheduler → Scheduler
idle_entered idle s = record s {
  fibers = update s.fibers idle (set_state exec (s.fibers idle));
  idle = s.idle + 1;
}

-- The scheduler after its idle fiber has ended.
idle_left : ℕ → Scheduler → Scheduler
unfolding set_state
idle_left idle s =
    let s' = idle_entered idle s in
    record s' {
      fibers = update s'.fibers idle (set_state term (s'.fibers idle));
      idle = s'.idle - 1;
    }

stopping-idle_entered :
    (idle : ℕ) (s : Scheduler) → stopping s ≡ true → stopping (idle_entered idle s) ≡ true
unfolding stopping
stopping-idle_entered idle s h = h

round_idles :
    (r : Running) (idle x : ℕ) (s : Scheduler)
    → s.tasks ≡ []
    → stopping s ≡ true
    → is_term (s.fibers idle).state ≡ false
    → round (with_idle_fiber idle r) idle x none s ≡ ok (again none (idle_left idle s))
unfolding round run_idle pick put_on_hold swap_in with_idle_fiber idle_fiber idle_left set_state
round_idles r idle x s h stops f =
    let self : (idle == idle) ≡ true = ground arith in
    rw (ap (pick s.fibers) h, f, self, stopping-idle_entered idle s stops) (rw self refl)

idle_left_ended : (idle : ℕ) (s : Scheduler) → ((idle_left idle s).fibers idle).state ≡ term
unfolding idle_left set_state
idle_left_ended idle s = let self : (idle == idle) ≡ true = ground arith in rw self refl

-- The rounds without a task of a scheduler that stops: the idle fiber ends in the first, and the
-- loop in the second.
idle_twice :
    (r : Running) (idle x y : ℕ) (s : Scheduler)
    → s.tasks ≡ []
    → stopping s ≡ true
    → (s' : Scheduler) × (rounds (with_idle_fiber idle r) idle (x ∷ y ∷ []) none s ≡ ok (quit s'))
      × (s'.tasks ≡ [])
      × (s'.active ≡ s.active)
unfolding rounds idle_left
idle_twice r idle x y s h stops = elim (Bool-cases (is_term (s.fibers idle).state)) [
  | inl over ↦
      (s, rw (round_quits (with_idle_fiber idle r) idle x s h (is_term_lem _ over)) refl, h, refl)
  | inr on ↦ (
    idle_left idle s,
    rw
        (
          round_idles r idle x s h stops on,
          round_quits (with_idle_fiber idle r) idle y (idle_left idle s) h (idle_left_ended idle s),
        )
        refl,
    h,
    refl,
  )
]
  where
    is_term_lem : (z : State) → is_term z ≡ true → z ≡ term
    is_term_lem z k = ground arith

with_idle : (idle : ℕ) (s : Scheduler) → Scheduler
with_idle idle s = record s { fibers = update s.fibers idle (new_fiber (some idle) false 32768) }

with_idle-IsQuiet :
    (idle : ℕ) (s : Scheduler) (l : List Task)
    → IsQuiet idle s.fibers l
    → IsQuiet idle (with_idle idle s).fibers l
unfolding with_idle
with_idle-IsQuiet idle s [] h = tt
with_idle-IsQuiet idle s (t ∷ l) h = (free t.fiber h.0, with_idle-IsQuiet idle s l h.1)
  where
    free : (o : Option ℕ) → IsFree idle s.fibers o → IsFree idle (with_idle idle s).fibers o
    free none u = tt
    free (some p) u = let other = u.0 in (other, rw other (u.1))

stopping_lem :
    (s : Scheduler)
    → s.autostop ≡ true
    → s.is_stopping ≡ true
    → s.tasks ≡ []
    → s.active ≡ 0
    → stopping s ≡ true
unfolding stopping
stopping_lem s a b c d = rw (a, b, c, d) refl

-- The whole of `run` of a scheduler that is to stop takes every task and quits.
run_lem :
    (r : Running) (idle x y : ℕ) (addresses : List ℕ) (s : Scheduler)
    → IsEnding idle r
    → All (λ a. (a == idle) ≡ false) addresses
    → IsQuiet idle s.fibers s.tasks
    → length addresses ≡ length s.tasks
    → s.autostop ≡ true
    → s.is_stopping ≡ true
    → s.active ≡ 0
    → (s' : Scheduler) × (run (with_idle_fiber idle r) idle (addresses ++ (x ∷ y ∷ [])) s ≡ ok s')
      × (s'.tasks ≡ [])
      × (s'.active ≡ s.active)
unfolding run with_idle
run_lem r idle x y addresses s e ne h n auto asked still =
    let w = with_idle_fiber idle r in
    let (s1, ran, none_left, count, auto1, asked1) =
      rounds_drain w idle addresses (with_idle idle s) (with_idle_fiber-IsEnding idle r e) ne
        (with_idle-IsQuiet idle s s.tasks h) n in
    let auto2 = auto1 ∙ auto in
    let asked2 = asked1 ∙ asked in
    let still2 = count ∙ still in
    let stops : stopping s1 ≡ true = stopping_lem s1 auto2 asked2 none_left still2 in
    let (s2, ended, none_left', count') = idle_twice r idle x y s1 none_left stops in
    (
      s2,
      rw (rounds-append w idle addresses (x ∷ y ∷ []) none (with_idle idle s), ran, ended) refl,
      none_left',
      count' ∙ count,
    )

is_empty_lem : (l : List Task) → is_empty l ≡ true → l ≡ []
is_empty_lem [] e = refl
is_empty_lem (t ∷ l) e = cc

-- A scheduler that is no IOManager, whose only thread is the one that made it, and on which no task
-- runs: whatever tasks it was given since, where their fibers are on no thread and every fiber but
-- the idle one that is swapped into runs to its end and schedules nothing, stop returns, with
-- enough rounds for the tasks and two for the idle fiber; no task is left, no thread is joined, and
-- none is active.
pub stop_empties :
    (tid : ℕ) (name : List ℕ) (core0 core : Scheduler) (p : Pool) (r : Running) (answer : ℕ → Bool)
    (idle x y : ℕ) (addresses : List ℕ)
    → construct tid false name 1 true core0 ≡ ok p
    → (tid == 0) ≡ false
    → IsEnding idle r
    → All (λ a. (a == idle) ≡ false) addresses
    → IsQuiet idle core.fibers core.tasks
    → length addresses ≡ length core.tasks
    → core.active ≡ 0
    → (p' : Pool) × (stop
          (run (with_idle_fiber idle r) idle (addresses ++ (x ∷ y ∷ [])))
          answer
          (record p { core = core })
        ≡ ok (p', [], []))
      × (p'.core.tasks ≡ [])
      × (p'.core.active ≡ 0)
unfolding stop stop_with construct call_main join_all
stop_empties tid name core0 core p r answer idle x y addresses made main e ne h n still =
    subst (λ p. Ended p) (from_ok made) (ended (Bool-cases (stopping asked)))
  where
    asked : Scheduler
    asked = record core { autostop = true; is_stopping = true }

    Ended : Pool → Type 0
    Ended p =
        (p' : Pool) × (stop (run (with_idle_fiber idle r) idle (addresses ++ (x ∷ y ∷ []))) answer
            (record p { core = core })
          ≡ ok (p', [], []))
        × (p'.core.tasks ≡ [])
        × (p'.core.active ≡ 0)

    only : Pool
    only = record {
      core = core0;
      name = name;
      thread_count = 0;
      threads = [];
      thread_ids = tid ∷ [];
      main_thread = tid;
      schedule_fiber = some init_state;
    }

    ended : (stopping asked ≡ true) ⊎ (stopping asked ≡ false) → Ended only
    ended (inl done) = (
      record only { core = asked },
      rw done refl,
      is_empty_lem core.tasks (ground (arith, done)),
      still,
    )
    ended (inr more) =
        let (s', ran, none_left, count) =
          run_lem r idle x y addresses asked e ne h n refl refl still in
        (
          record only { core = s'; schedule_fiber = some term },
          rw (more, main, ran) refl,
          none_left,
          count ∙ still,
        )
