-- ===== src/Hook/Sockets.antt =====
-- tw/hook.cc: the calls that make, configure and close descriptors, and fcntl. What the wrapped
-- functions answer is a parameter; what they are asked is part of the result.
use tw_server.Base.{
  ℕ, ◌+◌, ◌*◌, ◌/◌, Bool, true, false, not, Option, none, some, if◌then◌else◌, Outcome, ok, ◌>>=◌,
}
use tw_server.FdManager.{Fd, FdCtx, Fds, Sys, TimeoutType, set_timeout, get, del}
use tw_server.IoManager.{IoManager, Kernel, cancel_all}

-- A descriptor that is not -1 is entered in the table.
unfoldable pub enter : Sys → Fd → Fds → Outcome (Fds × Fd)
unfolding get
enter k none l = ok (l, none)
enter k (some fd) l = get k (some fd) true l >>= λ r. ok (r.0, some fd)

-- `socket(domain, type, protocol)` where the wrapped function gives `fd`.
unfoldable pub socket : Sys → Bool → Fd → Fds → Outcome (Fds × Fd)
unfolding enter
socket k hooked fd l = if not hooked then ok (l, fd) else enter k fd l

-- `accept` after `do_io` gave `fd`, with or without hooks.
unfoldable pub accepted : Sys → Fd → Fds → Outcome (Fds × Fd)
unfolding enter
accepted k fd l = enter k fd l

-- A `timeval`.
pub record Timeval : Type 0 where
  pub tv_sec : ℕ
  pub tv_usec : ℕ

-- What `setsockopt` reads of its arguments: a timeout at the level SOL_SOCKET, or anything else.
pub data SockOption : Type 0 where
  timeout_option : TimeoutType → Timeval → SockOption
  other_option : SockOption

-- What `setsockopt` keeps of a timeout.
abbrev pub keep_timeout : FdCtx → TimeoutType → Timeval → FdCtx
keep_timeout x ty v = set_timeout x ty (v.tv_sec * 1000 + v.tv_usec / 1000)

-- `setsockopt` on what the table holds for the descriptor; the wrapped function is called last in
-- every case, with the same arguments.
unfoldable pub setsockopt : Bool → SockOption → Option FdCtx → Option FdCtx
unfolding set_timeout
setsockopt true o ctx = ctx
setsockopt false other_option ctx = ctx
setsockopt false (timeout_option ty v) none = none
setsockopt false (timeout_option ty v) (some x) = some (keep_timeout x ty v)

-- `close(fd)`: the manager of the thread, where it has one, and the table; the wrapped function is
-- called last in every case.
unfoldable pub close :
    Kernel → Sys → Bool → ℕ → Option IoManager → Fds → Outcome (Option IoManager × Fds)
unfolding cancel_all get del
close k sys hooked fd iom l =
    if not hooked
    then ok (iom, l)
    else get sys (some fd) false l >>= λ r. elim (r.1) [
      | none ↦ ok (iom, r.0)
      | some x ↦ elim iom [
        | none ↦ del (some fd) (r.0) >>= λ l'. ok (none, l')
        | some io ↦ cancel_all k fd io >>= λ c. del (some fd) (r.0) >>= λ l'. ok (some (c.0), l')
      ]
    ]
