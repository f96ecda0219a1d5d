-- ===== src/SocketStream.antt =====
-- tw/socket_stream.cc and the loop of tw/stream.cc that sends a ByteArray: a stream over a socket.
-- What sendmsg and recvmsg answer is given call by call.
pub mod Sending
pub mod Reading
mod Examples
use tw_server.Base.{
  ℕ, zero, suc, ◌+◌, ◌%◌, ◌^◌, Bool, true, false, not, List, [], ◌∷◌, ◌++◌, Option, none, some,
  take, ◌==◌, if◌then◌else◌, sub64, Outcome, ok, ◌>>=◌,
}
use tw_server.Socket.{Socket, transfer}
use tw_server.ByteArray.{ByteArray, set_position}
use tw_server.ByteArray.Buffers.{get_read_buffers}
use tw_server.ByteArray.Buffers.Gather.{gather}
use tw_server.ByteArray.Buffers.Laws.{nodes}

-- m_socket may be null.
abbrev pub is_connected : Option Socket → Bool
is_connected none = false
is_connected (some s) = s.is_connected

abbrev pub ask : Option Socket → Option ℕ → Option ℕ
ask none answer = none
ask (some s) answer = transfer s answer

-- `setPosition(getPosition() + rt)` where rt is positive; with the result and the bytes moved.
unfoldable pub advance_by : Option ℕ → List ℕ → ByteArray → Outcome (ByteArray × Option ℕ × List ℕ)
advance_by none bytes s = ok (s, none, [])
advance_by (some zero) bytes s = ok (s, some 0, [])
advance_by (some (suc n)) bytes s =
    set_position (s.position + suc n) s >>= λ s'. ok (s', some (suc n), take (suc n) bytes)

-- `write(ba, length)`: the bytes that the buffers point to, as many as the answer says.
unfoldable pub write_array :
    Option Socket → Option ℕ → ℕ → ByteArray → Outcome (ByteArray × Option ℕ × List ℕ)
unfolding get_read_buffers transfer advance_by
write_array sock answer length s =
    if not (is_connected sock)
    then ok (s, none, [])
    else get_read_buffers length s >>= λ r. advance_by (ask sock answer) (gather (nodes s) (r.0)) s

-- `read(ba, length)`: the list of buffers is empty, so nothing is stored.
unfoldable pub read_array :
    Option Socket → Option ℕ → ByteArray → Outcome (ByteArray × Option ℕ × List ℕ)
unfolding transfer advance_by
read_array sock answer s =
    if not (is_connected sock) then ok (s, none, []) else advance_by (ask sock answer) [] s

-- How the loop ends: with the length, with the result 0, or not while there are answers.
pub data Written : Type 0 where
  whole : ByteArray → List ℕ → Written
  zero_result : ByteArray → List ℕ → Written
  waiting : Written

-- After one `write` or `read`, whose result is kept in a size_t: only 0 ends the loop.
abbrev pub after_write :
    (ℕ → ByteArray → List ℕ → Outcome Written)
    → ℕ
    → List ℕ
    → ByteArray × Option ℕ × List ℕ
    → Outcome Written
after_write again left out (s, none, bytes) = again ((left + 1) % 2 ^ 64) s out
after_write again left out (s, some zero, bytes) = ok (zero_result s out)
after_write again left out (s, some (suc n), bytes) = again (sub64 left (suc n)) s (out ++ bytes)

-- `writeFixSize(ba, length)`: `out` is what has been sent.
unfoldable pub write_fix_size_array :
    Option Socket → List (Option ℕ) → ℕ → ByteArray → List ℕ → Outcome Written
unfolding write_array
write_fix_size_array sock [] left s out = ok (if left == 0 then whole s out else waiting)
write_fix_size_array sock (a ∷ script) left s out =
    let more =
      write_array sock a left s >>= after_write (write_fix_size_array sock script) left out in
    if left == 0 then ok (whole s out) else more

-- `readFixSize(ba, length)`, which stores nothing.
unfoldable pub read_fix_size_array :
    Option Socket → List (Option ℕ) → ℕ → ByteArray → Outcome Written
unfolding read_array
read_fix_size_array sock [] left s = ok (if left == 0 then whole s [] else waiting)
read_fix_size_array sock (a ∷ script) left s =
    let more =
      read_array sock a s
      >>= after_write (λ n s' out. read_fix_size_array sock script n s') left [] in
    if left == 0 then ok (whole s []) else more
