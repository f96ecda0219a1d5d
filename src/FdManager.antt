-- ===== src/FdManager.antt =====
-- tw/fd_manager.h and tw/fd_manager.cc: what the server knows of each file descriptor.
-- The kernel's answers to fstat and fcntl are the parameter `Sys`; an `int` is a sign and a size.
pub mod Invariant
mod Examples
use tw_server.Base.{
  ℕ, ◌+◌, ◌-◌, ◌*◌, ◌/◌, ◌^◌, ◌≡◌, ◌<◌, Bool, true, false, not, ◌||◌, List, Option, none, some,
  length, replicate, set, get_elem?, ltb, leb, ◌==◌, if◌then◌else◌, ◌++◌, take, Outcome, ok, fail,
  Fault,
}

-- `none` is -1.
abbrev pub Fd : Type 0
Fd = Option ℕ

-- For each descriptor: whether fstat succeeds, and whether it is a socket.
pub record Sys : Type 0 where
  pub fstat_ok : ℕ → Bool
  pub is_sock : ℕ → Bool

pub record FdCtx : Type 0 where
  pub is_init : Bool
  pub is_socket : Bool
  pub sys_non_block : Bool
  pub usr_non_block : Bool
  pub is_closed : Bool
  pub fd : ℕ
  pub recv_timeout : ℕ
  pub send_timeout : ℕ

-- (uint64_t)-1
abbrev pub minus_one : ℕ
minus_one = 2 ^ 64 - 1

unfoldable pub init : Sys → FdCtx → FdCtx × Bool
init k c =
    let socket = if k.fstat_ok c.fd then k.is_sock c.fd else false in
    let c' : FdCtx = record {
      is_init = k.fstat_ok c.fd;
      is_socket = socket;
      sys_non_block = socket;
      usr_non_block = false;
      is_closed = false;
      fd = c.fd;
      recv_timeout = minus_one;
      send_timeout = minus_one;
    } in
    if c.is_init then (c, true) else (c', k.fstat_ok c.fd)

-- The constructor.
unfoldable pub new_ctx : Sys → ℕ → FdCtx
unfolding init
new_ctx k fd =
    (init k (record {
      is_init = false;
      is_socket = false;
      sys_non_block = false;
      usr_non_block = false;
      is_closed = false;
      fd = fd;
      recv_timeout = minus_one;
      send_timeout = minus_one;
    })).0

-- SO_RCVTIMEO and SO_SNDTIMEO.
pub data TimeoutType : Type 0 where
  rcvtimeo : TimeoutType
  sndtimeo : TimeoutType

unfoldable pub get_timeout : FdCtx → TimeoutType → ℕ
get_timeout c rcvtimeo = c.recv_timeout
get_timeout c sndtimeo = c.send_timeout

unfoldable pub set_timeout : FdCtx → TimeoutType → ℕ → FdCtx
set_timeout c rcvtimeo to = record c { recv_timeout = to }
set_timeout c sndtimeo to = record c { send_timeout = to }

-- The table m_fds; `none` is a null pointer.
abbrev pub Fds : Type 0
Fds = List (Option FdCtx)

unfoldable pub init_fds : Fds
init_fds = replicate 64 none

-- vector::resize.
abbrev pub resize : ℕ → Fds → Fds
resize n l = take n l ++ replicate (n - length l) none

-- The second half of `get`: grow by a half where the table is too short, then store.
unfoldable pub create : Sys → ℕ → Fds → Outcome (Fds × Option FdCtx)
create k fd l =
    let l' = if leb (length l) fd then resize (fd * 3 / 2) l else l in
    if ltb fd (length l')
    then ok (set l' fd (some (new_ctx k fd)), some (new_ctx k fd))
    else fail Fault.past_end

abbrev pub is_some : Option FdCtx → Bool
is_some none = false
is_some (some c) = true

abbrev pub known : Option (Option FdCtx) → Option FdCtx
known none = none
known (some c) = c

unfoldable pub get : Sys → Fd → Bool → Fds → Outcome (Fds × Option FdCtx)
get k none auto_create l = ok (l, none)
get k (some fd) auto_create l =
    if leb (length l) fd
    then (if auto_create then create k fd l else ok (l, none))
    else if is_some (known (get_elem? l fd)) || not auto_create
    then ok (l, known (get_elem? l fd))
    else create k fd l

-- `del(-1)` writes in front of the table.
unfoldable pub del : Fd → Fds → Outcome Fds
del none l = fail Fault.past_end
del (some fd) l = if leb (length l) fd then ok l else ok (set l fd none)
