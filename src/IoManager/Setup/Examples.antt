-- ===== src/IoManager/Setup/Examples.antt =====
-- An IO manager of three threads, and one that is woken while a thread is idle (tw/iomanager.cc).
use tw_server.Base.{
  ℕ, ◌+◌, ◌≡◌, ◌≤◌, refl, true, false, [], ◌∷◌, map, length, none, some, ok, codes, inl, arith,
}
use tw_server.Fiber.{init_state, hold, main_fiber}
use tw_server.Scheduler.{Task, Scheduler}
use tw_server.Scheduler.Lifecycle.{Pool, construct}
use tw_server.Timer.{TimerManager}
use tw_server.IoManager.Sound.{IsSound}
use tw_server.IoManager.Setup.{Reactor, new_io_manager, destroy_io_manager, destroy-new_io_manager}
use tw_server.IoManager.Wakeup.{Waker, wait_time, wait_time_bounds}

abbrev idle_core : Scheduler
idle_core = record {
  fibers = λ p. record main_fiber { state = hold };
  tasks = [];
  active = 0;
  idle = 1;
  is_stopping = false;
  autostop = false;
}

abbrev made : ℕ → ℕ × ℕ
made i = (i + 1, i + 100)

abbrev pool : Pool
pool = record {
  core = idle_core;
  name = codes "io";
  thread_count = 2;
  threads = [];
  thread_ids = 40 ∷ [];
  main_thread = 40;
  schedule_fiber = some init_state;
}

made_pool : construct 40 false (codes "io") 3 true idle_core ≡ ok pool
unfolding construct
made_pool = refl

destroy-new_io_manager_example :
    (r : Reactor) × (new_io_manager
        (record {
          epoll_create = some 5;
          pipe = some (6, 7);
          set_non_block = true;
          add_pipe = true;
        })
        40
        false
        (codes "io")
        3
        true
        (λ i. some (made i))
        idle_core
      ≡ ok r)
    × IsSound r.io
    × (length r.io.contexts ≡ 32)
    × (destroy_io_manager false (λ q. ok q) (λ h. true) r
        ≡ ok (map (λ w. w.handle) r.pool.threads, 5 ∷ 6 ∷ 7 ∷ [], 32))
destroy-new_io_manager_example =
    destroy-new_io_manager 5 (6, 7) 40 false (codes "io") 3 true idle_core pool (λ i. some (made i))
      made (λ q. ok q) (λ h. true) (omega arith) made_pool (λ i. refl) (λ i. ground arith)
      (λ i. refl) (λ q. (q, refl))

abbrev task : Task
task = record { fiber = none; cb = some 3 }

abbrev waker : Waker
waker = record { core = idle_core; pipe = 0 }

abbrev no_timers : TimerManager
no_timers = record {
  heap = λ p. record { recurring = false; ms = 0; next = 0; cb = none };
  timers = [];
  previous_time = 0;
  flag = false;
}

wait_time_bounds_example : (n : ℕ) × (wait_time 2500 ≡ some n) × (n ≤ 3000) × (n ≤ 2500)
wait_time_bounds_example = wait_time_bounds 2500 (inl (omega arith))
