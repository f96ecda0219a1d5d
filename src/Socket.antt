-- ===== src/Socket.antt =====
-- tw/socket.h and tw/socket.cc: a socket with its descriptor, its state and its two addresses. What
-- the system calls answer is given to each operation; the descriptors that an operation opens and
-- closes are part of its result.
pub mod Lifetime
pub mod UnixFamily
pub mod Timeouts
pub mod Cancelling
mod Examples
use tw_server.Base.{
  ℕ, ◌+◌, ◌*◌, ◌/◌, ◌%◌, Bool, true, false, not, ◌&&◌, ◌||◌, List, [], ◌∷◌, ◌++◌, Option, none,
  some, if◌then◌else◌, Outcome, ok, fail, Fault, ◌>>=◌,
}
use tw_server.FdManager.{FdCtx}

-- The address families; the number is that of any other.
pub data Family : Type 0 where
  inet : Family
  inet6 : Family
  unix : Family
  other_family : ℕ → Family

-- The class of an address object, and the contents that the kernel filled in.
pub data AddressKind : Type 0 where
  ipv4_address : AddressKind
  ipv6_address : AddressKind
  unix_address : AddressKind
  unknown_address : AddressKind

pub record Name : Type 0 where
  pub kind : AddressKind
  pub contents : ℕ

-- `none` is a descriptor of -1, or a null pointer.
pub record Socket : Type 0 where
  pub sock : Option ℕ
  pub family : Family
  pub is_connected : Bool
  pub local_address : Option Name
  pub remote_address : Option Name

-- The answers of the system calls: `none` and `false` are -1.
pub record Answers : Type 0 where
  pub socket : Option ℕ
  pub accept : Option ℕ
  pub bind : Bool
  pub connect : Bool
  pub listen : Bool
  pub getsockname : Option ℕ
  pub getpeername : Option ℕ

-- What happens to descriptors.
pub data Effect : Type 0 where
  opened : ℕ → Effect
  closed : ℕ → Effect

pub record Done : Type 0 where
  pub socket : Socket
  pub effects : List Effect
  pub result : Bool

unfoldable pub new_socket : Family → Socket
new_socket f = record {
  sock = none;
  family = f;
  is_connected = false;
  local_address = none;
  remote_address = none;
}

abbrev pub is_valid : Socket → Bool
is_valid s = elim s.sock [ none ↦ false | some fd ↦ true ]

-- The switch of getLocalAddress and getremoteAddress: the case of AF_UNIX runs into the default.
unfoldable pub new_name : Family → AddressKind
new_name inet = ipv4_address
new_name inet6 = ipv6_address
new_name unix = unknown_address
new_name (other_family n) = unknown_address

-- `dynamic_pointer_cast<UnixAddress>` and the call through it, for the unix family.
unfoldable pub set_length : Family → AddressKind → Outcome (Unit {0})
set_length unix unix_address = ok tt
set_length unix k = fail Fault.null_deref
set_length f k = ok tt

-- The address that is kept, or that the kernel's answer gives; none is kept where it fails.
unfoldable pub fetch_name : Family → Option ℕ → Option Name → Outcome (Option Name)
unfolding new_name set_length
fetch_name f a (some n) = ok (some n)
fetch_name f none none = ok none
fetch_name f (some c) none =
    set_length f (new_name f) >>= λ _. ok (some (record { kind = new_name f; contents = c }))

-- `getLocalAddress()` and `getremoteAddress()`, as far as they change the socket.
unfoldable pub get_local_address : Answers → Socket → Outcome Socket
unfolding fetch_name
get_local_address k s =
    fetch_name s.family k.getsockname s.local_address >>= λ n. ok (record s { local_address = n })

unfoldable pub get_remote_address : Answers → Socket → Outcome Socket
unfolding fetch_name
get_remote_address k s =
    fetch_name s.family k.getpeername s.remote_address >>= λ n. ok (record s { remote_address = n })

-- `newSock()`
abbrev pub opened_by : Option ℕ → List Effect
opened_by none = []
opened_by (some fd) = opened fd ∷ []

unfoldable pub new_sock : Answers → Socket → Done
new_sock k s = record {
  socket = record s { sock = k.socket };
  effects = opened_by k.socket;
  result = is_valid (record s { sock = k.socket });
}

-- `if(!isValid()){ newSock(); if(!isValid()) ... }`
unfoldable pub ensure_valid : Answers → Socket → Done
unfolding new_sock
ensure_valid k s =
    if is_valid s then record { socket = s; effects = []; result = true } else new_sock k s

-- `close()`: false where something was closed.
unfoldable pub close : Socket → Done
close s =
    if not s.is_connected && not (is_valid s)
    then record { socket = s; effects = []; result = true }
    else record {
      socket = record s { is_connected = false; sock = none };
      effects = elim s.sock [ none ↦ [] | some fd ↦ closed fd ∷ [] ];
      result = false;
    }

-- `bind(addr)`: `same_family` is whether the address has the family of the socket.
unfoldable pub bind : Answers → Bool → Socket → Outcome Done
unfolding ensure_valid get_local_address
bind k same_family s =
    let d = ensure_valid k s in
    if not d.result
    then ok (record d { result = false })
    else if not same_family
    then ok (record d { result = false })
    else if not k.bind
    then ok (record d { result = false })
    else get_local_address k d.socket >>= λ s'. ok (record d { socket = s'; result = true })

-- What `connect` does once the kernel has answered.
unfoldable pub connected : Answers → Done → Outcome Done
unfolding close get_local_address get_remote_address
connected k d =
    if not k.connect
    then (let c = close d.socket in
        ok (record { socket = c.socket; effects = d.effects ++ c.effects; result = false }))
    else get_local_address k (record d.socket { is_connected = true }) >>= λ s'.
        get_remote_address k s' >>= λ s''. ok (record d { socket = s''; result = true })

-- `connect(addr, timeout_ms)`, whose system call is one of two that differ in the timeout.
unfoldable pub connect : Answers → Bool → Socket → Outcome Done
unfolding ensure_valid connected
connect k same_family s =
    let d = ensure_valid k s in
    if not d.result
    then ok (record d { result = false })
    else if not same_family
    then ok (record d { result = false })
    else connected k d

-- `listen(backlog)`
unfoldable pub listen : Answers → Socket → Bool
listen k s = is_valid s && k.listen

abbrev pub is_open_socket : Option FdCtx → Bool
is_open_socket none = false
is_open_socket (some c) = c.is_socket && not c.is_closed

-- `init(sock)` on what FdMgr knows of the descriptor.
unfoldable pub init : Answers → Option FdCtx → ℕ → Socket → Outcome (Socket × Bool)
unfolding get_local_address get_remote_address
init k ctx fd s =
    if is_open_socket ctx
    then (get_local_address k (record s { sock = some fd; is_connected = true }) >>= λ s'.
        get_remote_address k s' >>= λ s''. ok (s'', true))
    else ok (s, false)

-- `accept()`: the new socket or null, and the descriptor that was opened.
unfoldable pub accept : Answers → Option FdCtx → Socket → Outcome (Option Socket × List Effect)
unfolding init new_socket
accept k ctx s = elim k.accept [
  | none ↦ ok (none, [])
  | some fd ↦ init k ctx fd (new_socket s.family) >>= λ r.
      ok ((if r.1 then some (r.0) else none), opened fd ∷ [])
]

-- `send`, `sendTo`, `recv` and `recvFrom` with both kinds of buffer: the answer of the system call,
-- or -1 without a call.
unfoldable pub transfer : Socket → Option ℕ → Option ℕ
transfer s answer = if s.is_connected then answer else none
