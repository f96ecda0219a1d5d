-- ===== src/Socket/UnixFamily.antt =====
-- Binding and connecting in the unix family (tw/socket.cc).
use tw_server.Base.{◌≡◌, refl, true, ℕ, none, some, fail, Fault}
use tw_server.Socket.{
  unix, Socket, Answers, new_name, set_length, fetch_name, get_local_address, ensure_valid, bind,
  connected, connect,
}

-- Where a socket of the unix family has a descriptor and no name yet, and the kernel accepts the
-- call and gives the name, `bind` and `connect` follow a null pointer.
unix_null :
    (k : Answers) (fd c : ℕ) (s : Socket)
    → s.family ≡ unix
    → s.sock ≡ some fd
    → s.local_address ≡ none
    → k.bind ≡ true
    → k.connect ≡ true
    → k.getsockname ≡ some c
    → (bind k true s ≡ fail Fault.null_deref) × (connect k true s ≡ fail Fault.null_deref)
unfolding bind connect connected ensure_valid get_local_address fetch_name set_length new_name
unix_null k fd c s f o l b n a = (rw (f, o, l, b, a) refl, rw (f, o, l, n, a) refl)
