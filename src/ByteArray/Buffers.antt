-- ===== src/ByteArray/Buffers.antt =====
-- The iovec lists of tw/bytearray.cc and the read at a position. A pointer into a node is the place
-- of the node in the list from m_root and an offset.
pub mod Gather
pub mod Laws
use tw_server.Base.{
  ℕ, zero, suc, ◌+◌, ◌-◌, ◌/◌, ◌%◌, Bool, true, false, List, [], ◌∷◌, ◌++◌, length, ltb, leb, ◌==◌,
  sub64, if◌then◌else◌, Outcome, ok, fail, Fault, ◌>>=◌, ◌>>◌, guard,
}
use tw_server.ByteArray.Bytes.{Block, slice}
use tw_server.ByteArray.{ByteArray, Allocator, read_size, add_capacity, is_null}

-- struct iovec.
pub record Iovec : Type 0 where
  pub node : ℕ
  pub offset : ℕ
  pub len : ℕ

abbrev pub head_size : List Block → ℕ
head_size [] = 0
head_size (b ∷ rest) = length b

-- The loop of getReadBuffers and of getWriteBuffers: `i` is the place of `cur`, the head of the
-- list.
unfoldable pub iov_loop : ℕ → List Block → ℕ → ℕ → ℕ → Outcome (List Iovec)
iov_loop i [] npos ncap len = if len == 0 then ok [] else fail Fault.null_deref
iov_loop i (b ∷ rest) npos ncap len =
    let more = (do
      iovs ← iov_loop (i + 1) rest 0 (head_size rest) (len - ncap)
      ok (record { node = i; offset = npos; len = ncap } ∷ iovs)) in
    if len == 0
    then ok []
    else if leb len ncap
    then ok (record { node = i; offset = npos; len = len } ∷ [])
    else more

-- From the object's position on, with m_cur not null.
unfoldable pub from_position : ℕ → ByteArray → Outcome (List Iovec)
unfolding iov_loop
from_position len s = do
  guard (ltb 0 s.base_size) Fault.divide_by_zero
  guard (leb 1 (length s.rest)) Fault.null_deref
  iov_loop (length s.before) s.rest (s.position % s.base_size)
      (head_size s.rest - s.position % s.base_size) len

abbrev pub clipped : ℕ → ByteArray → ℕ
clipped len s = if ltb (read_size s) len then read_size s else len

-- `getReadBuffers(buffers, len)`.
unfoldable pub get_read_buffers : ℕ → ByteArray → Outcome (List Iovec × ℕ)
unfolding from_position read_size
get_read_buffers len s =
    let n = clipped len s in
    if n == 0 then ok ([], 0) else (do iovs ← from_position n s; ok (iovs, n))

-- `getWriteBuffers(buffers, len)`.
unfoldable pub get_write_buffers : Allocator → ℕ → ByteArray → Outcome (List Iovec × ℕ × ByteArray)
unfolding from_position
get_write_buffers a len s =
    if len == 0
    then ok ([], 0, s)
    else (do s' ← add_capacity a len s; iovs ← from_position len s'; ok (iovs, len, s'))

-- The walk from m_root to the node of a position.
unfoldable pub walk : ℕ → List Block → Outcome (List Block)
walk zero nodes = ok nodes
walk (suc count) [] = fail Fault.null_deref
walk (suc count) (b ∷ nodes) = walk count nodes

-- `getReadBuffers(buffers, len, position)`: the room in the first node is that of m_cur.
unfoldable pub get_read_buffers_at : ℕ → ℕ → ByteArray → Outcome (List Iovec × ℕ)
unfolding iov_loop walk read_size
get_read_buffers_at len position s =
    let n = clipped len s in
    let npos = position % s.base_size in
    if n == 0 then ok ([], 0) else (do
      guard (ltb 0 s.base_size) Fault.divide_by_zero
      cur ← walk (position / s.base_size) (s.before ++ s.rest)
      guard (leb 1 (length s.rest)) Fault.null_deref
      iovs ← iov_loop (position / s.base_size) cur npos (head_size s.rest - npos) n
      ok (iovs, n))

-- `cur = cur->next`.
unfoldable pub next_node : List Block → Outcome (List Block)
next_node [] = fail Fault.null_deref
next_node (b ∷ nodes) = ok nodes

-- The loop of `read(buf, size, position)`: every copy is from m_cur, whose node is `b` with `next`
-- behind it, and `cur` is not read. Each round but the first copies a byte or more, so a round more
-- than there are bytes is enough fuel.
unfoldable pub read_at_loop : ℕ → Block → List Block → ℕ → ℕ → List Block → ℕ → Outcome (List ℕ)
unfolding next_node
read_at_loop zero b next npos ncap cur n = ok []
read_at_loop (suc fuel) b next npos ncap cur n =
    let more = (do
      bytes ← read_at_loop fuel b next 0 (length b) next (n - ncap)
      ok (slice npos ncap b ++ bytes)) in
    if n == 0
    then ok []
    else if leb n ncap
    then (if length b == npos + n
        then (next_node cur >>= λ cur'. ok (slice npos n b))
        else ok (slice npos n b))
    else more

-- `read(buf, size, position)`.
unfoldable pub read_at : ℕ → ℕ → ByteArray → Outcome (List ℕ)
unfolding read_at_loop walk
read_at n position s =
    let npos = position % s.base_size in
    if ltb (sub64 s.size position) n then fail Fault.out_of_range else (do
      guard (ltb 0 s.base_size) Fault.divide_by_zero
      guard (leb 1 (length s.rest)) Fault.null_deref
      cur ← walk (position / s.base_size) (s.before ++ s.rest)
      from_m_cur s.rest npos cur)
  where
    from_m_cur : List Block → ℕ → List Block → Outcome (List ℕ)
    from_m_cur [] npos cur = fail Fault.null_deref
    from_m_cur (b ∷ next) npos cur = read_at_loop (suc n) b next npos (length b - npos) cur n

-- `toString()`.
unfoldable pub to_string : ByteArray → Outcome (List ℕ)
unfolding read_size
to_string s = if read_size s == 0 then ok [] else read_at (read_size s) s.position s
