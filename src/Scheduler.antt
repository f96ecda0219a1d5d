-- ===== src/Scheduler.antt =====
-- tw/scheduler.h and tw/scheduler.cc: the tasks of a scheduler and one round of the loop that runs
-- them. What a fiber does between swapIn and its return to the scheduler is the parameter
-- `Running`; the threads are in Lifecycle, and a mutex makes each
-- operation one step.
pub mod Laws
pub mod Draining
pub mod Lifecycle
mod Examples
use tw_server.Base.{
  ℕ, zero, suc, ◌+◌, ◌-◌, Bool, true, false, not, ◌&&◌, ◌||◌, List, [], ◌∷◌, ◌++◌, Option, none,
  some, if◌then◌else◌, ◌==◌, ltb, Outcome, ok, fail, Fault, ◌>>=◌,
}
use tw_server.Fiber.{
  Fiber, State, hold, exec, ready, term, except, new_fiber, reset, is_term, is_except, is_exec,
  is_init, has, set_state,
}

-- FiberAndFunc.
pub record Task : Type 0 where
  pub fiber : Option ℕ
  pub cb : Option ℕ

abbrev pub no_task : Task
no_task = record { fiber = none; cb = none }

pub record Scheduler : Type 0 where
  pub fibers : ℕ → Fiber
  pub tasks : List Task
  pub active : ℕ
  pub idle : ℕ
  pub is_stopping : Bool
  pub autostop : Bool

abbrev pub is_empty : List Task → Bool
is_empty [] = true
is_empty (t ∷ l) = false

-- `scheduleNoLock`: whether there was nothing to do before.
unfoldable pub schedule_no_lock : Task → Scheduler → Scheduler × Bool
schedule_no_lock t s = (
  (if has t.cb || has t.fiber then record s { tasks = s.tasks ++ t ∷ [] } else s),
  is_empty s.tasks,
)

-- `schedule(f)`: the Boolean is whether `tickle` is called.
unfoldable pub schedule : Task → Scheduler → Scheduler × Bool
unfolding schedule_no_lock
schedule t s = schedule_no_lock t s

unfoldable pub schedule_all : List Task → Scheduler → Scheduler × Bool
unfolding schedule_no_lock
schedule_all [] s = (s, false)
schedule_all (t ∷ l) s =
    let r : Scheduler × Bool = schedule_no_lock t s in
    let r' : Scheduler × Bool = schedule_all l (r.0) in (r'.0, r.1 || r'.1)

-- A fiber that is on a thread now.
abbrev pub is_running : (ℕ → Fiber) → Task → Bool
is_running fs t = elim t.fiber [ none ↦ false | some p ↦ is_exec (fs p).state ]

-- The task that the loop takes: the first whose fiber is not running.
unfoldable pub pick : (ℕ → Fiber) → List Task → Option (Task × List Task)
pick fs [] = none
pick fs (t ∷ l) =
    let rest : Option (Task × List Task) = pick fs l in
    if is_running fs t
    then elim rest [ none ↦ none | some r ↦ some (r.0, t ∷ r.1) ]
    else some (t, l)

abbrev pub update : (ℕ → Fiber) → ℕ → Fiber → ℕ → Fiber
update fs p f q = if q == p then f else fs q

-- What a fiber does from its swapIn until it is back in the scheduler, to everything.
abbrev pub Running : Type 0
Running = ℕ → Scheduler → Scheduler

unfoldable pub swap_in : Running → ℕ → Scheduler → Scheduler
unfolding set_state
swap_in run p s = run p (record s { fibers = update s.fibers p (set_state exec (s.fibers p)) })

abbrev pub is_ready : State → Bool
is_ready ready = true
is_ready s = false

-- A fiber that is neither ready nor finished when it comes back is put on hold.
unfoldable pub put_on_hold : ℕ → Scheduler → Scheduler
unfolding set_state
put_on_hold p s =
    if is_term (s.fibers p).state || is_except (s.fibers p).state
    then s
    else record s { fibers = update s.fibers p (set_state hold (s.fibers p)) }

unfoldable pub run_fiber : Running → ℕ → Scheduler → Scheduler
unfolding swap_in schedule put_on_hold
run_fiber run p s =
    let s' : Scheduler = swap_in run p s in
    let s'' : Scheduler = record s' { active = s'.active - 1 } in
    if is_ready (s''.fibers p).state
    then (schedule (record { fiber = some p; cb = none }) s'').0
    else put_on_hold p s''

-- The variable `event` of the loop: a finished fiber that is used again. `fresh` is the address of
-- a new one. The result holds `event` after the round.
unfoldable pub run_callback :
    Running → ℕ → Option ℕ → ℕ → Scheduler → Outcome (Option ℕ × Scheduler)
unfolding reset swap_in put_on_hold new_fiber
run_callback run fresh none cb s =
    let s0 : Scheduler = record s {
      fibers = update s.fibers fresh (new_fiber (some cb) false 32768);
    } in
    let s' : Scheduler = swap_in run fresh s0 in
    ok (none, put_on_hold fresh (record s' { active = s'.active - 1 }))
run_callback run fresh (some p) cb s = reset (some cb) (s.fibers p) >>= λ f.
    let s' : Scheduler = swap_in run p (record s { fibers = update s.fibers p f }) in
    ok (none, put_on_hold p (record s' { active = s'.active - 1 }))

pub data Round : Type 0 where
  again : Option ℕ → Scheduler → Round
  quit : Scheduler → Round

-- The round without a task: the idle fiber runs, or the loop ends.
unfoldable pub run_idle : Running → ℕ → Option ℕ → Scheduler → Round
unfolding swap_in put_on_hold
run_idle run idle event s =
    if is_term (s.fibers idle).state
    then quit s
    else let s' : Scheduler = swap_in run idle (record s { idle = s.idle + 1 }) in
      again event (put_on_hold idle (record s' { idle = s'.idle - 1 }))

abbrev pub can_run : (ℕ → Fiber) → Option ℕ → Bool
can_run fs none = false
can_run fs (some p) = not (is_term (fs p).state) && not (is_except (fs p).state)

-- A task that was taken and has no fiber that can run.
unfoldable pub run_cb : Running → ℕ → Option ℕ → Option ℕ → Scheduler → Outcome Round
unfolding run_callback
run_cb run fresh event none s = ok (again event (record s { active = s.active - 1 }))
run_cb run fresh event (some cb) s =
    run_callback run fresh event cb s >>= λ r. ok (again (r.0) (r.1))

-- A task that was taken, by its fiber and its callback.
unfoldable pub run_task : Running → ℕ → Option ℕ → Option ℕ → Option ℕ → Scheduler → Outcome Round
unfolding run_fiber run_cb
run_task run fresh event none cb s = run_cb run fresh event cb s
run_task run fresh event (some p) cb s =
    if can_run s.fibers (some p)
    then ok (again event (run_fiber run p s))
    else run_cb run fresh event cb s

-- One round of the loop of `run`.
unfoldable pub round : Running → ℕ → ℕ → Option ℕ → Scheduler → Outcome Round
unfolding pick run_task run_idle
round run idle fresh event s = after_pick (pick s.fibers s.tasks)
  where
    after_pick : Option (Task × List Task) → Outcome Round
    after_pick none = ok (run_idle run idle event s)
    after_pick (some (t, rest)) =
        run_task run fresh event t.fiber t.cb (record s { tasks = rest; active = s.active + 1 })

unfoldable pub stopping : Scheduler → Bool
stopping s = s.autostop && s.is_stopping && is_empty s.tasks && s.active == 0
