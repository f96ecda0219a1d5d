-- ===== src/Hook/Examples.antt =====
-- Runs of hooked calls on the table that the IO manager starts with (tw/hook.cc).
use tw_server.Base.{
  ℕ, ◌≡◌, refl, ap, true, false, [], ◌∷◌, none, some, ok, fail, Fault, if◌then◌else◌, ◌==◌,
}
use tw_server.Fiber.{main_fiber}
use tw_server.Scheduler.{Scheduler, schedule}
use tw_server.Timer.{TimerManager}
use tw_server.FdManager.{FdCtx, Fds, Sys, minus_one}
use tw_server.FdManager.Invariant.{entry}
use tw_server.IoManager.{IoManager, Kernel, read_event, write_event, new_context, fd_context_resize}
use tw_server.IoManager.Sound.{IsSound}
use tw_server.IoManager.Reachable.{start, here, Reach-IsSound}
use tw_server.IoManager.RoundTrip.{waking}
use tw_server.Hook.{
  eintr, eagain, etimedout, einprogress, Answer, returned, failed, World, Turn, Call, on_timeout,
  turns,
}
use tw_server.Hook.Blocking.{is_retry_answer, turns_never_retry, turns-interrupted}
use tw_server.Hook.Waiting.{later, running, turns_timeout}
use tw_server.Hook.Sockets.{close}
use tw_server.Hook.Descriptors.{close_lem}
use tw_server.Hook.Flags.{Answers, file_flags}
use tw_server.Hook.Connect.{no_error, check_error, connect_with_timeout}
use tw_server.Hook.Refused.{connect_refused}

abbrev scheduler : Scheduler
scheduler = record {
  fibers = λ p. main_fiber;
  tasks = [];
  active = 1;
  idle = 0;
  is_stopping = false;
  autostop = false;
}

abbrev io : IoManager
io = start scheduler

io-IsSound : IsSound io
io-IsSound = Reach-IsSound here

abbrev no_timers : TimerManager
no_timers = record {
  heap = λ p. record { recurring = false; ms = 0; next = 0; cb = none };
  timers = [];
  previous_time = 0;
  flag = false;
}

abbrev world : World
world = record { io = io; timers = no_timers; is_cancelled = false }

abbrev accepts : Kernel
accepts = record { ctl = λ op fd m. true; pipe = true; current = some 0 }

abbrev refuses : Kernel
refuses = record { ctl = λ op fd m. false; pipe = true; current = some 0 }

-- A read of descriptor 3 by fiber 7, with a timeout of 50 ms.
abbrev reading : Call
reading = record { fd = 3; event = read_event; timeout = 50; fiber = 7; on_time = 1 }

-- Meanwhile the timer's callback runs, and the scheduler takes the task that it made.
abbrev taken : Scheduler → Scheduler
taken s = record s { tasks = [] }

abbrev fires : World → World
fires u = elim (on_timeout accepts reading u) [ ok v ↦ later no_timers taken v | fail f ↦ u ]

abbrev turn : Answer → Turn
turn a = record {
  answer = a;
  now = 100;
  timer = 5;
  kernel = accepts;
  refusal = einprogress;
  meanwhile = fires;
}

turns_never_retry_example : is_retry_answer (returned 12) ≡ false
turns_never_retry_example =
    turns_never_retry reading (turn (failed eintr) ∷ turn (returned 12) ∷ []) world world
      (returned 12) (refl, (refl, tt))
      (turns-interrupted reading (turn (failed eintr) ∷ []) (turn (returned 12)) [] world (refl, tt)
        refl)

turns_timeout_example :
    (v : World) × (turns reading (turn (failed eagain) ∷ []) world
      ≡ ok (some (failed etimedout, v)))
    × (v.io.contexts ≡ world.io.contexts)
    × (v.io.pending ≡ world.io.pending)
    × (v.io.scheduler ≡ running 7 (taken (schedule (waking none 7) world.io.scheduler).0))
unfolding main_fiber new_context fd_context_resize
turns_timeout_example =
    turns_timeout accepts reading (turn (failed eagain)) [] new_context world no_timers taken
      io-IsSound refl refl refl refl refl refl refl refl refl refl refl
      (λ u v e. ap (λ o. elim o [ ok z ↦ later no_timers taken z | fail f ↦ u ]) e)

-- A socket that the server has made not to block.
abbrev sys : Sys
sys = record { fstat_ok = λ fd. true; is_sock = λ fd. true }

abbrev sock : FdCtx
sock = record {
  is_init = true;
  is_socket = true;
  sys_non_block = true;
  usr_non_block = false;
  is_closed = false;
  fd = 3;
  recv_timeout = minus_one;
  send_timeout = minus_one;
}

abbrev kernel_flags : Answers
kernel_flags c = some (file_flags (record { non_block = true; others = 2 }))

abbrev table : Fds
table = none ∷ none ∷ none ∷ some sock ∷ []

close_lem_example :
    (io' : IoManager) × (l' : Fds) × (close accepts sys true 3 (some io) table ≡ ok (some io', l'))
    × IsSound io'
    × ((j : ℕ) → entry l' j ≡ (if 3 == j then none else entry table j))
close_lem_example = close_lem accepts sys 3 sock io table refl io-IsSound refl

-- A connection of descriptor 3 that is in progress, without a timeout.
abbrev connecting : Call
connecting = record { fd = 3; event = write_event; timeout = minus_one; fiber = 7; on_time = 1 }

abbrev refused : Turn
refused = record {
  answer = failed einprogress;
  now = 100;
  timer = 5;
  kernel = refuses;
  refusal = einprogress;
  meanwhile = λ u. u;
}

connect_refused_example :
    (v : World) × (connect_with_timeout true (some sock) connecting refused no_error world
      ≡ (if minus_one == minus_one then fail Fault.null_deref else ok (check_error no_error, v)))
    × (v.io ≡ world.io)
unfolding new_context fd_context_resize
connect_refused_example =
    connect_refused sock connecting refused no_error new_context world refl refl refl refl
      (record { sorted = tt; armed = λ p. refl }) refl refl refl refl
