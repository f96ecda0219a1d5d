-- ===== src/Socket/Examples.antt =====
-- A socket that connects, is closed and connects again, and one that listens and is stopped
-- (tw/socket.cc).
use tw_server.Fiber.{main_fiber}
use tw_server.Scheduler.{Scheduler, schedule}
use tw_server.IoManager.{IoManager, Kernel, add_event, read_event, new_context, fd_context_resize}
use tw_server.IoManager.Reachable.{start, start-IsSound}
use tw_server.IoManager.RoundTrip.{waking}
use tw_server.Socket.Cancelling.{cancel_and_close, cancel_and_close-add_event}
use tw_server.Base.{ℕ, ◌≡◌, ok, refl, true, false, [], ◌∷◌, ◌++◌, none, some}
use tw_server.FdManager.{FdCtx}
use tw_server.Socket.{
  Done, inet, unix, ipv4_address, Socket, Answers, opened, closed, new_socket, close, connect,
}
use tw_server.Socket.Lifetime.{Balanced, Life, born, next, connects, closes, Life-close}

abbrev gives : ℕ → Answers
gives fd = record {
  socket = some fd;
  accept = none;
  bind = true;
  connect = true;
  listen = true;
  getsockname = some 1;
  getpeername = some 2;
}

abbrev online : ℕ → Socket
online fd = record {
  sock = some fd;
  family = inet;
  is_connected = true;
  local_address = some (record { kind = ipv4_address; contents = 1 });
  remote_address = some (record { kind = ipv4_address; contents = 2 });
}

two_lives : Life inet (opened 5 ∷ closed 5 ∷ opened 6 ∷ []) (online 6)
unfolding new_socket connect close
two_lives =
    next
      (next
        (next born (
          connects (gives 5) true
            (record { socket = online 5; effects = opened 5 ∷ []; result = true }) refl))
        closes)
      (connects (gives 6) true
        (record { socket = online 6; effects = opened 6 ∷ []; result = true }) refl)

Life-close_example :
    Balanced none ((opened 5 ∷ closed 5 ∷ opened 6 ∷ []) ++ (close (online 6)).effects) none
Life-close_example = Life-close two_lives

abbrev local : Socket
local = record {
  sock = some 5;
  family = unix;
  is_connected = false;
  local_address = none;
  remote_address = none;
}

abbrev known : FdCtx
known = record {
  is_init = true;
  is_socket = true;
  sys_non_block = true;
  usr_non_block = false;
  is_closed = false;
  fd = 5;
  recv_timeout = 7;
  send_timeout = 8;
}

abbrev idle_scheduler : Scheduler
idle_scheduler = record {
  fibers = λ p. main_fiber;
  tasks = [];
  active = 1;
  idle = 0;
  is_stopping = false;
  autostop = false;
}

abbrev accepts : Kernel
accepts = record { ctl = λ op fd m. true; pipe = true; current = some 0 }

abbrev listening : Socket
listening = record {
  sock = some 5;
  family = inet;
  is_connected = false;
  local_address = none;
  remote_address = none;
}

cancel_and_close-add_event_example :
    (io1 io2 : IoManager) × (d : Done) × (add_event accepts 5 read_event none 7
        (start idle_scheduler)
      ≡ ok (io1, true))
    × (cancel_and_close accepts listening io1 ≡ ok (io2, d))
    × (io2.contexts ≡ (start idle_scheduler).contexts)
    × (io2.pending ≡ (start idle_scheduler).pending)
    × (io2.scheduler ≡ (schedule (waking none 7) idle_scheduler).0)
    × (d.socket.sock ≡ none)
    × (d.effects ≡ closed 5 ∷ [])
unfolding main_fiber new_context fd_context_resize
cancel_and_close-add_event_example =
    cancel_and_close-add_event accepts accepts listening 5 7 new_context (start idle_scheduler) refl
      (start-IsSound idle_scheduler) refl refl refl refl refl refl refl refl
