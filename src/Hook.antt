-- ===== src/Hook.antt =====
-- tw/hook.h and tw/hook.cc: the system calls that wait in the scheduler instead of in the kernel.
-- What the wrapped calls answer, what epoll_ctl answers and what the rest of the process does while
-- a fiber is suspended are given turn by turn.
pub mod Sockets
pub mod Wrappers
pub mod Connect
pub mod Refused
pub mod Descriptors
pub mod Waiting
pub mod Blocking
pub mod Flags
mod Examples
use tw_server.Base.{
  ℕ, Bool, true, false, not, ◌||◌, List, [], ◌∷◌, Option, none, some, if◌then◌else◌, ◌==◌, Outcome,
  ok, fail, Fault, ◌>>=◌,
}
use tw_server.FdManager.{FdCtx, Fds, Sys, TimeoutType, get_timeout, minus_one}
use tw_server.Fiber.{Fiber, set_state, exec}
use tw_server.Scheduler.{Scheduler, update}
use tw_server.Timer.{TimerManager, add_timer, cancel}
use tw_server.IoManager.{IoManager, Event, Kernel, add_event, cancel_event}

pub data Errno : Type 0 where
  eintr : Errno
  eagain : Errno
  ebadf : Errno
  etimedout : Errno
  einprogress : Errno
  other_errno : ℕ → Errno

-- What a call gives: a value that is not -1, or -1 and errno.
pub data Answer : Type 0 where
  returned : ℕ → Answer
  failed : Errno → Answer

-- The process around a call: `is_cancelled` is whether `tinfo->cancelled` is ETIMEDOUT and not 0.
pub record World : Type 0 where
  pub io : IoManager
  pub timers : TimerManager
  pub is_cancelled : Bool

-- One pass of `retry`: the answer of the wrapped function, the clock, the new timer's address, the
-- answers of epoll_ctl with the errno of a refusal, and what happens while the fiber is suspended.
pub record Turn : Type 0 where
  pub answer : Answer
  pub now : ℕ
  pub timer : ℕ
  pub kernel : Kernel
  pub refusal : Errno
  pub meanwhile : World → World

-- What does not change in a call: the descriptor, the event, the timeout, the fiber that calls, and
-- the number of the callback that the condition timer runs.
pub record Call : Type 0 where
  pub fd : ℕ
  pub event : Event
  pub timeout : ℕ
  pub fiber : ℕ
  pub on_time : ℕ

-- The condition timer's callback, while the caller still holds `tinfo`.
unfoldable pub on_timeout : Kernel → Call → World → Outcome World
unfolding cancel_event
on_timeout k c w =
    if w.is_cancelled
    then ok w
    else cancel_event k c.fd c.event w.io >>= λ r. ok (record w { io = r.0; is_cancelled = true })

unfoldable pub start_timer : Call → Turn → World → World
unfolding add_timer
start_timer c t w =
    if c.timeout == minus_one
    then w
    else record w { timers = (add_timer t.now t.timer c.timeout (some c.on_time) false w.timers).0 }

-- `if(timer) timer->cancel()`
unfoldable pub stop_timer : Call → Turn → World → Outcome World
unfolding cancel
stop_timer c t w =
    if c.timeout == minus_one
    then ok w
    else cancel t.timer w.timers >>= λ r. ok (record w { timers = r.0 })

-- `GetThis()->setState(EXEC)`
abbrev pub set_exec : ℕ → World → World
set_exec p w =
    let s : Scheduler = w.io.scheduler in
    record w {
      io = record w.io {
        scheduler = record s { fibers = update s.fibers p (set_state exec (s.fibers p)) };
      };
    }

-- What became of a call: its answer, or nothing while it still waits after the last turn.
abbrev pub Finished : Type 0
Finished = Option (Answer × World)

-- The suspended fiber is resumed: the timer is cancelled, and a timeout is an error.
unfoldable pub resume : Call → Turn → (World → Outcome Finished) → World → Outcome Finished
unfolding stop_timer
resume c t again w = stop_timer c t (set_exec c.fiber w) >>= λ w'.
    if w'.is_cancelled then ok (some (failed etimedout, w')) else again w'

-- The wrapped function would block: the fiber waits for the event.
unfoldable pub wait : Call → Turn → (World → Outcome Finished) → World → Outcome Finished
unfolding start_timer stop_timer add_event resume
wait c t again w =
    let w1 : World = start_timer c t w in
    add_event t.kernel c.fd c.event none c.fiber w1.io >>= λ r.
    if not r.1
    then (stop_timer c t (record w1 { io = r.0 }) >>= λ w2. ok (some (failed t.refusal, w2)))
    else resume c t again (t.meanwhile (record w1 { io = r.0 }))

-- After the wrapped function: a call that a signal interrupts is made again at once.
unfoldable pub take_turn :
    Call → Turn → (World → Outcome Finished) → Answer → World → Outcome Finished
unfolding wait
take_turn c t again (failed eintr) w = again w
take_turn c t again (failed eagain) w = wait c t again w
take_turn c t again a w = ok (some (a, w))

-- The loop of `do_io`.
unfoldable pub turns : Call → List Turn → World → Outcome Finished
unfolding take_turn
turns c [] w = ok none
turns c (t ∷ l) w = take_turn c t (turns c l) t.answer w

-- The wrapped function alone.
abbrev pub direct : List Turn → World → Outcome Finished
direct [] w = ok none
direct (t ∷ l) w = ok (some (t.answer, w))

-- `do_io(fd, fun, name, event, timeout_so, args)` with what FdMgr knows of the descriptor; `made`
-- is the call with the timeout put in.
unfoldable pub do_io :
    Bool → Option FdCtx → TimeoutType → Call → List Turn → World → Outcome Finished
unfolding turns get_timeout
do_io hooked ctx ty c l w = if not hooked then direct l w else elim ctx [
  | none ↦ direct l w
  | some x ↦
      if x.is_closed
      then ok (some (failed ebadf, w))
      else if not x.is_socket || x.usr_non_block
      then direct l w
      else turns (record c { timeout = get_timeout x ty }) l (record w { is_cancelled = false })
]
