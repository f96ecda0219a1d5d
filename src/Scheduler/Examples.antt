-- ===== src/Scheduler/Examples.antt =====
-- Runs of a scheduler with two tasks (tw/scheduler.cc).
use tw_server.Base.{ℕ, ◌≡◌, refl, false, List, [], ◌∷◌, some, none, ok, ◌==◌, if◌then◌else◌}
use tw_server.Fiber.{Fiber, hold, main_fiber}
use tw_server.Scheduler.{Scheduler, Task, Running, Round, round}
use tw_server.Scheduler.Laws.{Balanced, round_lem}

-- The fiber 1 is on a thread, the fiber 2 waits.
abbrev fibers : ℕ → Fiber
fibers p = if p == 1 then main_fiber else record main_fiber { state = hold }

abbrev tasks : List Task
tasks =
    record { fiber = some 1; cb = none }
    ∷ record { fiber = some 2; cb = none }
    ∷ record { fiber = none; cb = some 9 }
    ∷ []

abbrev busy : Scheduler
busy = record {
  fibers = fibers;
  tasks = tasks;
  active = 1;
  idle = 0;
  is_stopping = false;
  autostop = false;
}

-- A fiber that does nothing before it is back.
abbrev nothing_done : Running
nothing_done p s = s

round_lem_example : (r : Round) × (round nothing_done 5 6 none busy ≡ ok r) × Balanced busy r
round_lem_example = round_lem nothing_done (λ p s. (refl, refl)) 5 6 busy
