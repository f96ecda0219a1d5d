-- ===== src/Hook/Connect.antt =====
-- tw/hook.cc: connect_with_timeout.
use tw_server.Base.{
  Bool, false, not, Option, none, some, Outcome, ok, fail, Fault, ◌>>=◌, ◌==◌, if◌then◌else◌,
}
use tw_server.FdManager.{FdCtx, minus_one}
use tw_server.IoManager.{write_event, add_event}
use tw_server.Hook.{
  Errno, ebadf, etimedout, einprogress, Answer, returned, failed, World, Turn, Call, start_timer,
  stop_timer,
}

-- What getsockopt gives for SO_ERROR: -1 with errno, no error, or the error of the connection.
pub data SoError : Type 0 where
  unreadable : Errno → SoError
  no_error : SoError
  so_error : Errno → SoError

unfoldable pub check_error : SoError → Answer
check_error (unreadable e) = failed e
check_error no_error = returned 0
check_error (so_error e) = failed e

abbrev pub Connected : Type 0
Connected = Answer × World

-- `timer->cancel()` where no test says that there is a timer.
unfoldable pub cancel_timer : Call → Turn → World → Outcome World
unfolding stop_timer
cancel_timer c t w = if c.timeout == minus_one then fail Fault.null_deref else stop_timer c t w

-- The connection is in progress: the fiber waits until the descriptor can be written.
unfoldable pub await_connection : Call → Turn → SoError → World → Outcome Connected
unfolding start_timer stop_timer cancel_timer check_error add_event
await_connection c t e w =
    let w1 : World = start_timer c t w in
    add_event t.kernel c.fd write_event none c.fiber w1.io >>= λ r.
    if not r.1
    then (cancel_timer c t (record w1 { io = r.0 }) >>= λ w2. ok (check_error e, w2))
    else stop_timer c t (t.meanwhile (record w1 { io = r.0 })) >>= λ w2.
        if w2.is_cancelled then ok (failed etimedout, w2) else ok (check_error e, w2)

unfoldable pub after_connect : Call → Turn → SoError → Answer → World → Outcome Connected
unfolding await_connection
after_connect c t e (failed einprogress) w = await_connection c t e w
after_connect c t e a w = ok (a, w)

-- `connect_with_timeout(sockfd, addr, addrlen, timeout_ms)` with what FdMgr knows of the
-- descriptor.
unfoldable pub connect_with_timeout :
    Bool → Option FdCtx → Call → Turn → SoError → World → Outcome Connected
unfolding after_connect
connect_with_timeout hooked ctx c t e w = if not hooked then ok (t.answer, w) else elim ctx [
  | none ↦ ok (failed ebadf, w)
  | some x ↦
      if x.is_closed
      then ok (failed ebadf, w)
      else if not x.is_socket
      then ok (t.answer, w)
      else if x.usr_non_block
      then ok (t.answer, w)
      else after_connect c t e t.answer (record w { is_cancelled = false })
]

-- `connect(sockfd, addr, addrlen)`.
unfoldable pub connect : Bool → Option FdCtx → Call → Turn → SoError → World → Outcome Connected
unfolding connect_with_timeout
connect hooked ctx c t e w = connect_with_timeout hooked ctx (record c { timeout = 2000 }) t e w
