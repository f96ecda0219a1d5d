-- ===== src/Socket/Timeouts.antt =====
-- The timeouts of a socket (tw/socket.cc), which setsockopt of the hooks keeps for the descriptor.
use tw_server.Base.{
  ℕ, ◌+◌, ◌-◌, ◌*◌, ◌/◌, ◌%◌, ◌^◌, ◌<◌, ◌≡◌, refl, ◌∙◌, Bool, true, false, Option, none, some,
  if◌then◌else◌, ltb, arith,
}
use tw_server.FdManager.{
  FdCtx, TimeoutType, rcvtimeo, sndtimeo, get_timeout, set_timeout, minus_one,
}
use tw_server.Hook.Sockets.{Timeval, timeout_option, setsockopt, keep_timeout}

-- An `int` of a 64-bit value, as 64 bits again.
abbrev pub to_int : ℕ → ℕ
to_int x = if ltb (x % 2 ^ 32) (2 ^ 31) then x % 2 ^ 32 else x % 2 ^ 32 + 2 ^ 64 - 2 ^ 32

-- The `timeval` of setSendTimeout and setRecvTimeout, for a time that is not negative.
unfoldable pub timeval_of : ℕ → Timeval
timeval_of v = record { tv_sec = to_int (v / 1000); tv_usec = to_int (v % 1000 * 1000) }

-- `setSendTimeout` and `setRecvTimeout` on what FdMgr knows of the descriptor.
unfoldable pub set_socket_timeout : Bool → TimeoutType → ℕ → Option FdCtx → Option FdCtx
unfolding setsockopt timeval_of
set_socket_timeout hooked ty v ctx = setsockopt hooked (timeout_option ty (timeval_of v)) ctx

-- `getSendTimeout` and `getRecvTimeout`.
unfoldable pub get_socket_timeout : TimeoutType → Option FdCtx → ℕ
unfolding get_timeout
get_socket_timeout ty none = minus_one
get_socket_timeout ty (some x) = get_timeout x ty

timeval_of_lem :
    (v : ℕ) → v < 2 ^ 31 * 1000 → (timeval_of v).tv_sec * 1000 + (timeval_of v).tv_usec / 1000 ≡ v
unfolding timeval_of
timeval_of_lem v h =
    let a : v / 1000 % 2 ^ 32 ≡ v / 1000 = omega arith in
    let b : v % 1000 * 1000 % 2 ^ 32 ≡ v % 1000 * 1000 = omega arith in
    let c : ltb (v / 1000) (2 ^ 31) ≡ true = ground arith in
    let d : ltb (v % 1000 * 1000) (2 ^ 31) ≡ true = ground arith in rw (a, b, c, d) (omega arith)

kept_timeout_lem :
    (x : FdCtx) (ty : TimeoutType) (t : Timeval)
    → get_timeout (keep_timeout x ty t) ty ≡ t.tv_sec * 1000 + t.tv_usec / 1000
unfolding get_timeout set_timeout
kept_timeout_lem x rcvtimeo t = refl
kept_timeout_lem x sndtimeo t = refl

-- A time in milliseconds that fits is read back after it is set with the hooks off; with the hooks
-- on the time that was there before is read.
get_socket_timeout-set_socket_timeout :
    (hooked : Bool) (ty : TimeoutType) (v : ℕ) (x : FdCtx)
    → v < 2 ^ 31 * 1000
    → get_socket_timeout ty (set_socket_timeout hooked ty v (some x))
      ≡ (if hooked then get_socket_timeout ty (some x) else v)
unfolding get_socket_timeout set_socket_timeout setsockopt
get_socket_timeout-set_socket_timeout true ty v x h = refl
get_socket_timeout-set_socket_timeout false ty v x h =
    kept_timeout_lem x ty (timeval_of v) ∙ timeval_of_lem v h
