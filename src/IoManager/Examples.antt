-- ===== src/IoManager/Examples.antt =====
-- Runs with one descriptor (tw/iomanager.cc).
use tw_server.Base.{
  List, length, ◌<◌, arith, ◌≡◌, Bool, set, refl, true, false, [], ◌∷◌, some, none, ok, fail, Fault,
}
use tw_server.Fiber.{main_fiber}
use tw_server.Scheduler.{Scheduler, schedule}
use tw_server.IoManager.{
  IoManager, FdContext, Kernel, read_event, write_event, no_context, join, add_event, cancel_event,
  del_event, new_context, no_events, fd_context_resize,
}
use tw_server.IoManager.Laws.{add_op, waiting, add_event_lem}
use tw_server.IoManager.Sound.{IsSound}
use tw_server.IoManager.Reachable.{start, Reach, here, next, adds, Reach-IsSound, cancel_event_safe}
use tw_server.IoManager.RoundTrip.{waking, cancel_event-add_event}
use tw_server.Timer.{TimerManager}
use tw_server.IoManager.Idle.{Report, idle_pass, idle_pass-IsSound}
use tw_server.IoManager.Deleting.{del_event_fails}

abbrev scheduler : Scheduler
scheduler = record {
  fibers = λ p. main_fiber;
  tasks = [];
  active = 1;
  idle = 0;
  is_stopping = false;
  autostop = false;
}

abbrev accepts : Kernel
accepts = record { ctl = λ op fd m. true; pipe = true; current = some 0 }

-- A callback that waits to write.
abbrev writer : FdContext
writer = record {
  read = no_context;
  write = record { home = some 0; fiber = none; cb = some 9 };
  events = record { reads = false; writes = true };
}

abbrev manager : IoManager
manager = record { scheduler = scheduler; contexts = writer ∷ []; pending = 1; calls = [] }

del_event_fails_example : del_event accepts 0 write_event manager ≡ fail Fault.null_deref
del_event_fails_example =
    del_event_fails accepts 0 write_event writer manager refl refl refl tt refl

abbrev started : IoManager
started = start scheduler

-- The state in which a callback waits to read descriptor 3.
abbrev reading : IoManager
reading = record {
  scheduler = scheduler;
  contexts = set started.contexts 3 (waiting new_context read_event (some 9) 7);
  pending = 1;
  calls = record { op = add_op no_events; fd = 3; mask = join no_events read_event } ∷ [];
}

reading_reached : Reach scheduler reading
unfolding main_fiber new_context fd_context_resize
reading_reached = next here (
    adds accepts 3 read_event (some 9) 7 started reading true refl refl (
      add_event_lem accepts 3 read_event (some 9) 7 new_context started refl refl refl refl refl
        refl))

Reach-IsSound_example : IsSound reading
Reach-IsSound_example = Reach-IsSound reading_reached

cancel_event_safe_example :
    (r : IoManager × Bool) × (cancel_event accepts 3 read_event reading ≡ ok r)
    × Reach scheduler (r.0)
cancel_event_safe_example =
    cancel_event_safe scheduler accepts 3 read_event reading reading_reached refl refl

cancel_event-add_event_example :
    (io1 io2 : IoManager) × (add_event accepts 3 read_event (some 9) 7 started ≡ ok (io1, true))
    × (cancel_event accepts 3 read_event io1 ≡ ok (io2, true))
    × (io2.contexts ≡ started.contexts)
    × (io2.pending ≡ started.pending)
    × (io2.scheduler ≡ (schedule (waking (some 9) 7) scheduler).0)
unfolding main_fiber new_context fd_context_resize
cancel_event-add_event_example =
    cancel_event-add_event accepts accepts 3 read_event (some 9) 7 new_context started
      (Reach-IsSound here) refl refl refl refl refl refl refl refl

-- The descriptor 3 is reported, twice.
abbrev reports : List Report
reports = record { fd = 3; is_broken = false } ∷ record { fd = 3; is_broken = false } ∷ []

abbrev no_timers : TimerManager
no_timers = record {
  heap = λ p. record { recurring = false; ms = 0; next = 0; cb = none };
  timers = [];
  previous_time = 0;
  flag = false;
}

idle_pass-IsSound_example :
    (m' : TimerManager) × (io' : IoManager) × (idle_pass accepts 100 0 reports no_timers reading
      ≡ ok (m', io'))
    × IsSound io'
unfolding fd_context_resize
idle_pass-IsSound_example =
    let in_table : 3 < length reading.contexts = omega arith in
    idle_pass-IsSound accepts 100 0 reports no_timers reading refl (Reach-IsSound reading_reached)
      ((in_table, refl), ((in_table, refl), tt))
