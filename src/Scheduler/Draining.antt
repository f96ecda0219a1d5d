-- ===== src/Scheduler/Draining.antt =====
-- The loop of run empties its queue (tw/scheduler.cc), where what runs ends.
use tw_server.Base.{
  All, if◌then◌else◌, ℕ, ◌+◌, ◌-◌, ◌≡◌, refl, ap, ◌∙◌, false, List, [], ◌∷◌, Option, none, some,
  length, ok, Outcome, ◌>>=◌, ◌==◌, inl, inr, Bool-cases, arith,
}
use tw_server.Fiber.{Fiber, term, hold, exec, new_fiber, is_exec, set_state}
use tw_server.Scheduler.{
  Task, Scheduler, Running, Round, again, quit, pick, update, swap_in, put_on_hold, run_fiber,
  run_callback, run_cb, run_task, can_run, round, stopping,
}

-- The loop, with an address for a new fiber in each round, until the addresses are used up.
unfoldable pub rounds : Running → ℕ → List ℕ → Option ℕ → Scheduler → Outcome Round
unfolding round
rounds run idle [] event s = ok (again event s)
rounds run idle (fresh ∷ l) event s = round run idle fresh event s >>= λ r. elim r [
  | again event' s' ↦ rounds run idle l event' s'
  | quit s' ↦ ok (quit s')
]

-- `Scheduler::idle` from its swapIn until it is back: it ends where the scheduler stops, and else
-- is put on hold.
unfoldable pub idle_fiber : ℕ → Scheduler → Scheduler
unfolding stopping set_state
idle_fiber p s =
    let after = if stopping s then term else hold in
    record s { fibers = update s.fibers p (set_state after (s.fibers p)) }

-- The fibers of a loop whose idle fiber is `idle`, and whose others do what `run` says.
unfoldable pub with_idle_fiber : ℕ → Running → Running
unfolding idle_fiber
with_idle_fiber idle run p s = if p == idle then idle_fiber p s else run p s

-- What a fiber other than the idle one does that runs to its end, and no more.
pub record IsEnding (idle : ℕ) (run : Running) : Type 0 where
  pub ends : (p : ℕ) (s : Scheduler) → (p == idle) ≡ false → ((run p s).fibers p).state ≡ term
  pub others :
      (p : ℕ) (s : Scheduler) (q : ℕ)
      → (p == idle) ≡ false
      → (q == p) ≡ false
      → (run p s).fibers q ≡ s.fibers q
  pub tasks_same : (p : ℕ) (s : Scheduler) → (p == idle) ≡ false → (run p s).tasks ≡ s.tasks
  pub active_same : (p : ℕ) (s : Scheduler) → (p == idle) ≡ false → (run p s).active ≡ s.active
  pub autostop_same :
      (p : ℕ) (s : Scheduler) → (p == idle) ≡ false → (run p s).autostop ≡ s.autostop
  pub stopping_same :
      (p : ℕ) (s : Scheduler) → (p == idle) ≡ false → (run p s).is_stopping ≡ s.is_stopping

-- A task has no fiber, or one that is on no thread and is not the idle fiber.
abbrev pub IsFree : ℕ → (ℕ → Fiber) → Option ℕ → Type 0
IsFree idle fs none = Unit
IsFree idle fs (some p) = ((p == idle) ≡ false) × (is_exec (fs p).state ≡ false)

abbrev pub IsQuiet : ℕ → (ℕ → Fiber) → List Task → Type 0
IsQuiet idle fs l = All (λ t. IsFree idle fs t.fiber) l

-- A round took the first task.
pub record IsTaken (idle : ℕ) (s s' : Scheduler) (l : List Task) : Type 0 where
  pub tasks_lem : s'.tasks ≡ l
  pub active_lem : s'.active ≡ s.active
  pub autostop_lem : s'.autostop ≡ s.autostop
  pub stopping_lem : s'.is_stopping ≡ s.is_stopping
  pub quiet : IsQuiet idle s'.fibers l

idle_waiter :
    (idle : ℕ) (fs : ℕ → Fiber) (o : Option ℕ)
    → IsFree idle fs o
    → (elim o [ none ↦ false | some p ↦ is_exec (fs p).state ]) ≡ false
idle_waiter idle fs none h = refl
idle_waiter idle fs (some p) h = h.1

pick_first :
    (idle : ℕ) (fs : ℕ → Fiber) (t : Task) (l : List Task)
    → IsFree idle fs t.fiber
    → pick fs (t ∷ l) ≡ some (t, l)
unfolding pick
pick_first idle fs t l h = rw (idle_waiter idle fs t.fiber h) refl

-- The scheduler with a fiber on its thread.
abbrev entered : ℕ → Scheduler → Scheduler
entered p s = record s { fibers = update s.fibers p (set_state exec (s.fibers p)) }

-- The scheduler after a fiber that ended.
abbrev left : Running → ℕ → Scheduler → Scheduler
left run p s = let s' : Scheduler = run p (entered p s) in record s' { active = s'.active - 1 }

left-IsFree :
    (run : Running) (idle p : ℕ) (s : Scheduler) (fs : ℕ → Fiber) (o : Option ℕ)
    → IsEnding idle run
    → (p == idle) ≡ false
    → ((q : ℕ) → (q == p) ≡ false → s.fibers q ≡ fs q)
    → IsFree idle fs o
    → IsFree idle (left run p s).fibers o
left-IsFree run idle p s fs none e ne same h = tt
left-IsFree run idle p s fs (some q) e ne same h = (
  h.0,
  elim (Bool-cases (q == p)) [
    | inl f ↦
        let one : q ≡ p = ground arith in
        ap (λ q. is_exec ((run p (entered p s)).fibers q).state) one
        ∙ ap is_exec (e.ends p (entered p s) ne)
    | inr f ↦
        ap (λ x. is_exec x.state) (e.others p (entered p s) q ne f)
        ∙ rw f (ap (λ x. is_exec x.state) (same q f) ∙ h.1)
  ],
)

left-IsQuiet :
    (run : Running) (idle p : ℕ) (s : Scheduler) (fs : ℕ → Fiber) (l : List Task)
    → IsEnding idle run
    → (p == idle) ≡ false
    → ((q : ℕ) → (q == p) ≡ false → s.fibers q ≡ fs q)
    → IsQuiet idle fs l
    → IsQuiet idle (left run p s).fibers l
left-IsQuiet run idle p s fs [] e ne same h = tt
left-IsQuiet run idle p s fs (t ∷ l) e ne same h = (
  left-IsFree run idle p s fs t.fiber e ne same h.0,
  left-IsQuiet run idle p s fs l e ne same h.1,
)

-- `s0` is the scheduler before the task was taken.
abbrev IsAfter : Scheduler → Scheduler → List Task → Type 0
IsAfter s0 s l =
    (s.tasks ≡ l)
    × (s.active ≡ s0.active + 1)
    × (s.autostop ≡ s0.autostop)
    × (s.is_stopping ≡ s0.is_stopping)

left-IsTaken :
    (run : Running) (idle p : ℕ) (s0 s : Scheduler) (fs : ℕ → Fiber) (l : List Task)
    → IsEnding idle run
    → (p == idle) ≡ false
    → ((q : ℕ) → (q == p) ≡ false → s.fibers q ≡ fs q)
    → IsQuiet idle fs l
    → IsAfter s0 s l
    → IsTaken idle s0 (left run p s) l
left-IsTaken run idle p s0 s fs l e ne same h (t, a, b, c) = record {
  tasks_lem = e.tasks_same p (entered p s) ne ∙ t;
  active_lem = omega (arith, e.active_same p (entered p s) ne);
  autostop_lem = e.autostop_same p (entered p s) ne ∙ b;
  stopping_lem = e.stopping_same p (entered p s) ne ∙ c;
  quiet = left-IsQuiet run idle p s fs l e ne same h;
}

put_on_hold_done : (p : ℕ) (s : Scheduler) → (s.fibers p).state ≡ term → put_on_hold p s ≡ s
unfolding put_on_hold
put_on_hold_done p s e = rw e refl

run_fiber_lem :
    (run : Running) (idle p : ℕ) (s : Scheduler)
    → IsEnding idle run
    → (p == idle) ≡ false
    → run_fiber run p s ≡ left run p s
unfolding run_fiber swap_in
run_fiber_lem run idle p s e ne = let done = e.ends p (entered p s) ne in rw done refl

run_cb-IsTaken :
    (run : Running) (idle fresh : ℕ) (cb : Option ℕ) (s0 s : Scheduler) (l : List Task)
    → IsEnding idle run
    → (fresh == idle) ≡ false
    → IsQuiet idle s.fibers l
    → IsAfter s0 s l
    → (s' : Scheduler) × (run_cb run fresh none cb s ≡ ok (again none s')) × IsTaken idle s0 s' l
unfolding run_cb run_callback swap_in new_fiber
run_cb-IsTaken run idle fresh none s0 s l e ne h (t, a, b, c) = (
  record s { active = s.active - 1 },
  refl,
  record { tasks_lem = t; active_lem = omega arith; autostop_lem = b; stopping_lem = c; quiet = h },
)
run_cb-IsTaken run idle fresh (some cb) s0 s l e ne h k =
    let s1 : Scheduler = record s {
      fibers = update s.fibers fresh (new_fiber (some cb) false 32768);
    } in
    let done = e.ends fresh (entered fresh s1) ne in
    (
      left run fresh s1,
      ap (λ z. ok (again none z)) (put_on_hold_done fresh (left run fresh s1) done),
      left-IsTaken run idle fresh s0 s1 s.fibers l e ne (λ q f. rw f refl) h k,
    )

run_task-IsTaken :
    (run : Running) (idle fresh : ℕ) (f cb : Option ℕ) (s0 s : Scheduler) (l : List Task)
    → IsEnding idle run
    → (fresh == idle) ≡ false
    → IsFree idle s.fibers f
    → IsQuiet idle s.fibers l
    → IsAfter s0 s l
    → (s' : Scheduler) × (run_task run fresh none f cb s ≡ ok (again none s'))
      × IsTaken idle s0 s' l
unfolding run_task
run_task-IsTaken run idle fresh none cb s0 s l e ne u h k =
    run_cb-IsTaken run idle fresh cb s0 s l e ne h k
run_task-IsTaken run idle fresh (some p) cb s0 s l e ne u h k =
    elim (Bool-cases (can_run s.fibers (some p))) [
      | inl c ↦ (
        left run p s,
        rw c (ap (λ z. ok (again none z)) (run_fiber_lem run idle p s e u.0)),
        left-IsTaken run idle p s0 s s.fibers l e u.0 (λ q f. refl) h k,
      )
      | inr c ↦
          let (s', ran, z) = run_cb-IsTaken run idle fresh cb s0 s l e ne h k in (s', rw c ran, z)
    ]

round-IsTaken :
    (run : Running) (idle fresh : ℕ) (t : Task) (l : List Task) (s : Scheduler)
    → IsEnding idle run
    → (fresh == idle) ≡ false
    → IsQuiet idle s.fibers (t ∷ l)
    → s.tasks ≡ t ∷ l
    → (s' : Scheduler) × (round run idle fresh none s ≡ ok (again none s')) × IsTaken idle s s' l
unfolding round
round-IsTaken run idle fresh t l s e ne h ts =
    let first : pick s.fibers s.tasks ≡ some (t, l) =
      ap (pick s.fibers) ts ∙ pick_first idle s.fibers t l h.0 in
    let (s', ran, k) =
      run_task-IsTaken run idle fresh t.fiber t.cb s (record s { tasks = l; active = s.active + 1 })
        l e ne h.0 h.1 (refl, refl, refl, refl) in
    (s', rw first ran, k)

drained :
    (run : Running) (idle : ℕ) (addresses : List ℕ) (l : List Task) (s : Scheduler)
    → IsEnding idle run
    → All (λ a. (a == idle) ≡ false) addresses
    → IsQuiet idle s.fibers l
    → s.tasks ≡ l
    → length addresses ≡ length l
    → (s' : Scheduler) × (rounds run idle addresses none s ≡ ok (again none s'))
      × (s'.tasks ≡ [])
      × (s'.active ≡ s.active)
      × (s'.autostop ≡ s.autostop)
      × (s'.is_stopping ≡ s.is_stopping)
unfolding rounds
drained run idle [] [] s e a h ts n = (s, refl, ts, refl, refl, refl)
drained run idle [] (t ∷ l) s e a h ts n = absurd (omega arith)
drained run idle (fresh ∷ rest) [] s e a h ts n = absurd (omega arith)
drained run idle (fresh ∷ rest) (t ∷ l) s e a h ts n =
    let (s1, ran, k) = round-IsTaken run idle fresh t l s e a.0 h ts in
    let (s', later, none_left, count, auto, stop) =
      drained run idle rest l s1 e a.1 k.quiet k.tasks_lem (omega arith) in
    (
      s',
      rw ran later,
      none_left,
      count ∙ k.active_lem,
      auto ∙ k.autostop_lem,
      stop ∙ k.stopping_lem,
    )

pub with_idle_fiber-IsEnding :
    (idle : ℕ) (run : Running) → IsEnding idle run → IsEnding idle (with_idle_fiber idle run)
unfolding with_idle_fiber
with_idle_fiber-IsEnding idle run e = record {
  ends = λ p s ne. rw ne (e.ends p s ne);
  others = λ p s q ne f. rw ne (e.others p s q ne f);
  tasks_same = λ p s ne. rw ne (e.tasks_same p s ne);
  active_same = λ p s ne. rw ne (e.active_same p s ne);
  autostop_same = λ p s ne. rw ne (e.autostop_same p s ne);
  stopping_same = λ p s ne. rw ne (e.stopping_same p s ne);
}

-- Where the fibers of the tasks are on no thread, and every fiber but the idle one that the loop
-- swaps into runs to its end and schedules nothing, as many rounds as there are tasks empty the
-- queue and leave no thread counted as active that was not before.
pub rounds_drain :
    (run : Running) (idle : ℕ) (addresses : List ℕ) (s : Scheduler)
    → IsEnding idle run
    → All (λ a. (a == idle) ≡ false) addresses
    → IsQuiet idle s.fibers s.tasks
    → length addresses ≡ length s.tasks
    → (s' : Scheduler) × (rounds run idle addresses none s ≡ ok (again none s'))
      × (s'.tasks ≡ [])
      × (s'.active ≡ s.active)
      × (s'.autostop ≡ s.autostop)
      × (s'.is_stopping ≡ s.is_stopping)
rounds_drain run idle addresses s e a h n = drained run idle addresses s.tasks s e a h refl n
