-- ===== src/Scheduler/Laws.antt =====
-- What the loop of the scheduler takes and keeps (tw/scheduler.cc).
use tw_server.Base.{
  ℕ, ◌+◌, ◌-◌, ◌≡◌, refl, ap, sym, ◌∙◌, Bool, true, false, not, ◌&&◌, ◌||◌, List, [], ◌∷◌, ◌++◌,
  Option, none, some, if◌then◌else◌, ok, ◌>>=◌, Bool-cases, Option-cases, inl, inr, All,
  append_assoc, append-nil, arith,
}
use tw_server.Fiber.{Fiber, new_fiber, is_term, is_except, has}
use tw_server.Scheduler.{
  Task, Scheduler, Running, Round, again, quit, pick, is_running, schedule_all, schedule_no_lock,
  is_empty, round, run_task, run_callback, run_idle, update, swap_in, put_on_hold, run_fiber,
  schedule, is_ready, can_run, run_cb,
}

-- The tasks that have something to run.
abbrev pub real : List Task → List Task
real [] = []
real (t ∷ l) = if has t.cb || has t.fiber then t ∷ real l else real l

-- Scheduling several tasks keeps those with a fiber or a callback, in order, behind those that
-- wait, and changes nothing else. It asks for a wakeup exactly where no task waited and one is
-- scheduled.
schedule_all_lem :
    (l : List Task) (s : Scheduler)
    → ((schedule_all l s).0 ≡ record s { tasks = s.tasks ++ real l })
      × ((schedule_all l s).1 ≡ (is_empty s.tasks && not (is_empty l)))
unfolding schedule_all schedule_no_lock
schedule_all_lem [] s = (ap (λ t. record s { tasks = t }) (sym (append-nil s.tasks)), ground arith)
schedule_all_lem (t ∷ l) s = elim (Bool-cases (has t.cb || has t.fiber)) [
  | inl e ↦
      let s' : Scheduler = record s { tasks = s.tasks ++ t ∷ [] } in
      let (kept, woken) = schedule_all_lem l s' in
      rw e (
        kept ∙ ap (λ x. record s { tasks = x }) (append_assoc s.tasks (t ∷ []) (real l)),
        behind_one s.tasks (schedule_all l s').1 woken,
      )
  | inr e ↦
      let (kept, woken) = schedule_all_lem l s in
      rw e (kept, behind_none s.tasks (schedule_all l s).1 woken)
]
  where
    behind_one :
        (q : List Task) (b : Bool)
        → b ≡ (is_empty (q ++ t ∷ []) && not (is_empty l))
        → (is_empty q || b) ≡ (is_empty q && true)
    behind_one [] b h = refl
    behind_one (u ∷ q) b h = h

    behind_none :
        (q : List Task) (b : Bool)
        → b ≡ (is_empty q && not (is_empty l))
        → (is_empty q || b) ≡ (is_empty q && true)
    behind_none [] b h = refl
    behind_none (u ∷ q) b h = h

-- What `pick` takes: the first task that no thread runs. Those before it are all running, and stay
-- in their places with those behind it.
abbrev pub Picked : (ℕ → Fiber) → List Task → Option (Task × List Task) → Type 0
Picked fs l none = All (λ t. is_running fs t ≡ true) l
Picked fs l (some (t, rest)) =
    (a : List Task) × (b : List Task) × (l ≡ a ++ t ∷ b)
    × (rest ≡ a ++ b)
    × All (λ u. is_running fs u ≡ true) a
    × (is_running fs t ≡ false)

-- The loop takes the first task whose fiber is not running, and none exactly where all are running;
-- the other tasks keep their order.
pick_lem : (fs : ℕ → Fiber) (l : List Task) → Picked fs l (pick fs l)
unfolding pick
pick_lem fs [] = tt
pick_lem fs (t ∷ l) = elim (Bool-cases (is_running fs t)) [
  | inl e ↦ rw e (running (pick fs l) (pick_lem fs l) e)
  | inr e ↦ rw e ([], l, refl, refl, tt, e)
]
  where
    running :
        (r : Option (Task × List Task))
        → Picked fs l r
        → is_running fs t ≡ true
        → Picked fs (t ∷ l) (elim r [ none ↦ none | some r ↦ some (r.0, t ∷ r.1) ])
    running none h e = (e, h)
    running (some (u, rest)) (a, b, p, q, c, d) e =
        (t ∷ a, b, ap (λ x. t ∷ x) p, ap (λ x. t ∷ x) q, (e, c), d)

-- A thread's count of the fibers that are active or idle, seen from the scheduler.
abbrev pub Balanced : Scheduler → Round → Type 0
Balanced s (again event s') = (event ≡ none) × (s'.active ≡ s.active) × (s'.idle ≡ s.idle)
Balanced s (quit s') = s' ≡ s

put_on_hold-counts :
    (p : ℕ) (s : Scheduler)
    → ((put_on_hold p s).active ≡ s.active) × ((put_on_hold p s).idle ≡ s.idle)
unfolding put_on_hold
put_on_hold-counts p s =
    elim (Bool-cases (is_term (s.fibers p).state || is_except (s.fibers p).state)) [
      | inl e ↦ rw e (refl, refl)
      | inr e ↦ rw e (refl, refl)
    ]

module _ (run : Running)
    (keeps : (p : ℕ) (s : Scheduler)
      → ((run p s).active ≡ s.active) × ((run p s).idle ≡ s.idle)) where
  swap_in-counts :
      (p : ℕ) (s : Scheduler)
      → ((swap_in run p s).active ≡ s.active) × ((swap_in run p s).idle ≡ s.idle)
  unfolding swap_in
  swap_in-counts p s = keeps p _

  run_fiber-counts :
      (p : ℕ) (s : Scheduler)
      → ((run_fiber run p s).active ≡ s.active - 1) × ((run_fiber run p s).idle ≡ s.idle)
  unfolding run_fiber schedule schedule_no_lock
  run_fiber-counts p s =
      let s' = swap_in run p s in
      let s'' : Scheduler = record s' { active = s'.active - 1 } in
      elim (Bool-cases (is_ready (s'.fibers p).state)) [
        | inl e ↦ rw e (ap (λ x. x - 1) (swap_in-counts p s).0, (swap_in-counts p s).1)
        | inr e ↦ rw e (
          (put_on_hold-counts p s'').0 ∙ ap (λ x. x - 1) (swap_in-counts p s).0,
          (put_on_hold-counts p s'').1 ∙ (swap_in-counts p s).1,
        )
      ]

  run_callback-Balanced :
      (fresh cb : ℕ) (s : Scheduler)
      → (s' : Scheduler) × (run_callback run fresh none cb s ≡ ok (none, s'))
        × (s'.active ≡ s.active - 1)
        × (s'.idle ≡ s.idle)
  unfolding run_callback
  run_callback-Balanced fresh cb s =
      let s0 : Scheduler = record s {
        fibers = update s.fibers fresh (new_fiber (some cb) false 32768);
      } in
      let s' = swap_in run fresh s0 in
      let s'' : Scheduler = record s' { active = s'.active - 1 } in
      (
        put_on_hold fresh s'',
        refl,
        (put_on_hold-counts fresh s'').0 ∙ ap (λ x. x - 1) (swap_in-counts fresh s0).0,
        (put_on_hold-counts fresh s'').1 ∙ (swap_in-counts fresh s0).1,
      )

  run_idle-Balanced : (idle : ℕ) (s : Scheduler) → Balanced s (run_idle run idle none s)
  unfolding run_idle
  run_idle-Balanced idle s =
      let s0 : Scheduler = record s { idle = s.idle + 1 } in
      let s' = swap_in run idle s0 in
      let s'' : Scheduler = record s' { idle = s'.idle - 1 } in
      elim (Bool-cases (is_term (s.fibers idle).state)) [
        | inl e ↦ rw e refl
        | inr e ↦ rw e (
          refl,
          (put_on_hold-counts idle s'').0 ∙ (swap_in-counts idle s0).0,
          (put_on_hold-counts idle s'').1
              ∙ ap (λ x. x - 1) (swap_in-counts idle s0).1
              ∙ omega arith,
        )
      ]

  run_cb-Balanced :
      (fresh : ℕ) (cb : Option ℕ) (s : Scheduler)
      → (s' : Scheduler) × (run_cb run fresh none cb (record s { active = s.active + 1 })
          ≡ ok (again none s'))
        × (s'.active ≡ s.active)
        × (s'.idle ≡ s.idle)
  unfolding run_cb
  run_cb-Balanced fresh none s = (record s { active = s.active + 1 - 1 }, refl, omega arith, refl)
  run_cb-Balanced fresh (some cb) s =
      let (s', e, a, i) = run_callback-Balanced fresh cb (record s { active = s.active + 1 }) in
      (s', ap (λ o. o >>= λ r. ok (again (r.0) (r.1))) e, a ∙ omega arith, i)

  run_task-Balanced :
      (fresh : ℕ) (f cb : Option ℕ) (s : Scheduler)
      → (s' : Scheduler) × (run_task run fresh none f cb (record s { active = s.active + 1 })
          ≡ ok (again none s'))
        × (s'.active ≡ s.active)
        × (s'.idle ≡ s.idle)
  unfolding run_task
  run_task-Balanced fresh none cb s = run_cb-Balanced fresh cb s
  run_task-Balanced fresh (some p) cb s = elim (Bool-cases (can_run s.fibers (some p))) [
    | inl e ↦
        let s0 : Scheduler = record s { active = s.active + 1 } in
        (
          run_fiber run p s0,
          rw e refl,
          (run_fiber-counts p s0).0 ∙ omega arith,
          (run_fiber-counts p s0).1,
        )
    | inr e ↦ let (s', q, a, i) = run_cb-Balanced fresh cb s in (s', rw e q, a, i)
  ]

  -- Where a fiber that runs leaves both counts as they are, a round of the loop that starts without
  -- a fiber to use again never fails: it ends the loop and changes nothing, or it leaves both
  -- counts as they were and again no fiber to use again, so that branch of the loop never runs.
  pub round_lem :
      (idle fresh : ℕ) (s : Scheduler)
      → (r : Round) × (round run idle fresh none s ≡ ok r) × Balanced s r
  unfolding round
  round_lem idle fresh s = elim (Option-cases (pick s.fibers s.tasks)) [
    | inl e ↦ (run_idle run idle none s, rw (round, e) refl, run_idle-Balanced idle s)
    | inr ((t, rest), e) ↦
        let (s', q, a, i) = run_task-Balanced fresh t.fiber t.cb (record s { tasks = rest }) in
        (again none s', rw (round, e) q, (refl, a, i))
  ]
