-- ===== src/Http/Session.antt =====
-- HttpSession::recvRequest (tw/http/http_session.cc). The parsing machine with its callbacks, and
-- the transport, are parameters; a fault is a memmove with a size below 0.
pub mod Laws
use tw_server.Base.{
  ℕ, ◌-◌, ◌^◌, Bool, ◌||◌, ◌&&◌, ◌%◌, List, [], ◌∷◌, ◌++◌, length, take, drop, ltb, leb, ◌==◌,
  if◌then◌else◌, Fault,
}
use tw_server.Stream.{
  Transfer, failed, nothing, moved, Fixed, whole, zero_result, blocked, read_fix_size,
}

-- http_parser and HttpRequestParser: one call of the machine on the bytes in the buffer gives its
-- new state and the number that it returns.
pub record Machine : Type 1 where
  pub State : Type 0
  pub start : State
  pub run : State → List ℕ → State × ℕ
  pub has_error : State → Bool
  pub is_finished : State → Bool
  pub content_length : State → ℕ

abbrev pub buffer_size : ℕ
buffer_size = 4096

-- The object that `recvRequest` returns: the parsed head and, if there is one, the body, as the
-- bytes that were left in the buffer and the pieces that were read into it. `closed` is null.
pub data Received {ℓ} (S : Type ℓ) : Type ℓ where
  closed : Received S
  head_only : S → Received S
  with_body : S → List ℕ → List (ℕ × List ℕ) → Received S
  waiting : Received S
  fault : Fault → Received S

-- What is copied from the buffer into the body.
abbrev pub from_buffer : ℕ → List ℕ → List ℕ
from_buffer size buffered = if leb (length buffered) size then buffered else take size buffered

-- Whether the `int` of a length is above 0.
abbrev pub is_positive_int : ℕ → Bool
is_positive_int n = ltb 0 (n % 2 ^ 32) && ltb (n % 2 ^ 32) (2 ^ 31)

-- The test of what readFixSize returns for a rest of `left` bytes.
abbrev pub finish_body {ℓ} : {S : Type ℓ} → S → List ℕ → ℕ → Fixed → Received S
finish_body p front left (whole pieces) =
    if is_positive_int left then with_body p front pieces else closed
finish_body p front left (zero_result pieces) = closed
finish_body p front left blocked = waiting

module _ (m : Machine) where
  open m use {State, start, run, has_error, is_finished, content_length}

  -- The part behind the loop; a length above the int64_t range is negative.
  unfoldable pub recv_body : State → List ℕ → List Transfer → Received State
  recv_body p buffered script =
      let size = content_length p in
      let front = from_buffer size buffered in
      if size == 0 || leb (2 ^ 63) size
      then head_only p
      else if ltb (length buffered) size
      then finish_body p front (size - length buffered)
          (read_fix_size script (length front) (size - length buffered) [])
      else with_body p front []

  -- The loop, over what `read` returns; `buffered` are the `offset` bytes left in the buffer.
  unfoldable pub recv_head : State → List ℕ → List Transfer → Received State
  recv_head p buffered [] = waiting
  recv_head p buffered (failed ∷ script) = closed
  recv_head p buffered (nothing ∷ script) = closed
  recv_head p buffered (moved bytes ∷ script) =
      let all_bytes = buffered ++ bytes in
      let (p', nparser) = run p all_bytes in
      let left = drop nparser all_bytes in
      let more = recv_head p' left script in
      if ltb (length all_bytes) nparser
      then fault Fault.past_end
      else if has_error p'
      then closed
      else if length left == buffer_size
      then closed
      else if is_finished p'
      then recv_body p' left script
      else more

  unfoldable pub recv_request : List Transfer → Received State
  recv_request script = recv_head start [] script
