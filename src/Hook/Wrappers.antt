-- ===== src/Hook/Wrappers.antt =====
-- tw/hook.cc: the functions that do_io wraps, and sleep and usleep.
use tw_server.Base.{some, ℕ, ◌*◌, ◌/◌, ◌%◌, ◌^◌, Bool, false, List, Option, Outcome}
use tw_server.FdManager.{FdCtx, TimeoutType, rcvtimeo, sndtimeo}
use tw_server.Timer.{TimerManager, add_timer}
use tw_server.IoManager.{Event, read_event, write_event}
use tw_server.Hook.{World, Turn, Call, Finished, do_io}

pub data IoFunction : Type 0 where
  accept_f : IoFunction
  read_f : IoFunction
  readv_f : IoFunction
  recv_f : IoFunction
  recvfrom_f : IoFunction
  recvmsg_f : IoFunction
  write_f : IoFunction
  writev_f : IoFunction
  send_f : IoFunction
  sendto_f : IoFunction
  sendmsg_f : IoFunction

-- The event and the timeout that each of them gives to do_io.
unfoldable pub io_event : IoFunction → Event
io_event accept_f = read_event
io_event read_f = read_event
io_event readv_f = read_event
io_event recv_f = read_event
io_event recvfrom_f = read_event
io_event recvmsg_f = read_event
io_event write_f = write_event
io_event writev_f = write_event
io_event send_f = write_event
io_event sendto_f = write_event
io_event sendmsg_f = write_event

unfoldable pub io_timeout : IoFunction → TimeoutType
io_timeout accept_f = rcvtimeo
io_timeout read_f = rcvtimeo
io_timeout readv_f = rcvtimeo
io_timeout recv_f = rcvtimeo
io_timeout recvfrom_f = rcvtimeo
io_timeout recvmsg_f = rcvtimeo
io_timeout write_f = sndtimeo
io_timeout writev_f = sndtimeo
io_timeout send_f = sndtimeo
io_timeout sendto_f = sndtimeo
io_timeout sendmsg_f = sndtimeo

-- A call of one of them, which has its arguments in the answers.
unfoldable pub io_call :
    IoFunction → Bool → Option FdCtx → Call → List Turn → World → Outcome Finished
unfolding do_io io_event io_timeout
io_call f hooked ctx c l w = do_io hooked ctx (io_timeout f) (record c { event = io_event f }) l w

-- `sleep(seconds)` in 32 bits and `usleep(usec)`, with hooks: a timer that schedules the fiber,
-- whose callback has the number `wake`; then the fiber is suspended.
unfoldable pub sleep : ℕ → ℕ → ℕ → ℕ → TimerManager → TimerManager
unfolding add_timer
sleep now p wake seconds m = (add_timer now p (seconds * 1000 % 2 ^ 32) (some wake) false m).0

unfoldable pub usleep : ℕ → ℕ → ℕ → ℕ → TimerManager → TimerManager
unfolding add_timer
usleep now p wake usec m = (add_timer now p (usec / 1000) (some wake) false m).0
