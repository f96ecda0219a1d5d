-- ===== src/Scheduler/Lifecycle/Examples.antt =====
-- A scheduler that starts two threads, and one of its caller alone (tw/scheduler.cc).
use tw_server.Base.{
  ℕ, ◌+◌, ◌≡◌, refl, true, false, List, [], ◌∷◌, ◌++◌, none, some, length, arith, codes,
  if◌then◌else◌, ◌==◌, ok,
}
use tw_server.Fiber.{init_state, hold, term, main_fiber, set_state}
use tw_server.Scheduler.{Scheduler, Running, update}
use tw_server.Scheduler.Draining.{IsEnding, with_idle_fiber}
use tw_server.Scheduler.Lifecycle.{Worker, Pool, construct, start, stop, run}
use tw_server.Scheduler.Lifecycle.Joining.{IsStopped, stop-start}
use tw_server.Scheduler.Lifecycle.Stopping.{stop_empties}

abbrev nothing_yet : Scheduler
nothing_yet = record {
  fibers = λ p. record main_fiber { state = hold };
  tasks = [];
  active = 0;
  idle = 0;
  is_stopping = false;
  autostop = false;
}

abbrev made : ℕ → ℕ × ℕ
made i = (i + 1, i + 100)

abbrev three : Pool
three = record {
  core = nothing_yet;
  name = codes "io";
  thread_count = 2;
  threads = [];
  thread_ids = 40 ∷ [];
  main_thread = 40;
  schedule_fiber = some init_state;
}

made_three : construct 40 false (codes "io") 3 true nothing_yet ≡ ok three
unfolding construct
made_three = refl

stop-start_example :
    (p1 : Pool) × (p2 : Pool) × (handles : List ℕ) × (ws : List Worker) × (start
        (λ i. some (made i))
        three
      ≡ ok p1)
    × (length p1.threads + (if true then 1 else 0) ≡ 3)
    × (length p1.thread_ids ≡ 3)
    × (stop (λ q. ok q) (λ h. true) p1 ≡ ok (p2, handles, ws))
    × IsStopped p1 p2 handles ws
stop-start_example =
    stop-start 40 false (codes "io") 3 true nothing_yet three (λ i. some (made i)) made (λ q. ok q)
      (λ h. true) made_three (λ i. refl) (λ i. ground arith) (λ i. refl) (λ q. (q, refl))

abbrev alone : Pool
alone = record three { thread_count = 0 }

made_alone : construct 40 false (codes "io") 1 true nothing_yet ≡ ok alone
unfolding construct
made_alone = refl

abbrev to_the_end : Running
to_the_end p s = record s { fibers = update s.fibers p (set_state term (s.fibers p)) }

to_the_end-IsEnding : IsEnding 5 to_the_end
unfolding set_state
to_the_end-IsEnding = record {
  ends = λ p s ne. let same : (p == p) ≡ true = ground arith in rw same refl;
  others = λ p s q ne f. rw f refl;
  tasks_same = λ p s ne. refl;
  active_same = λ p s ne. refl;
  autostop_same = λ p s ne. refl;
  stopping_same = λ p s ne. refl;
}

abbrev two_tasks : Scheduler
two_tasks = record nothing_yet {
  tasks = record { fiber = some 7; cb = none } ∷ record { fiber = none; cb = some 3 } ∷ [];
}

stop_empties_example :
    (p' : Pool) × (stop
        (run (with_idle_fiber 5 to_the_end) 5 ((20 ∷ 21 ∷ []) ++ (22 ∷ 23 ∷ [])))
        (λ h. true)
        (record alone { core = two_tasks })
      ≡ ok (p', [], []))
    × (p'.core.tasks ≡ [])
    × (p'.core.active ≡ 0)
stop_empties_example =
    stop_empties 40 (codes "io") nothing_yet two_tasks alone to_the_end (λ h. true) 5 22 23
      (20 ∷ 21 ∷ []) made_alone refl to_the_end-IsEnding (refl, (refl, tt)) ((refl, refl), (tt, tt))
      refl refl
