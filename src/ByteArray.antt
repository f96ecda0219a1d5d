-- ===== src/ByteArray.antt =====
-- tw/bytearray.h and tw/bytearray.cc: a serialisation buffer of equal blocks in a linked list.
-- The list from m_root is `before ++ rest`, and m_cur is the head of `rest`; an empty `rest` is a
-- null m_cur. A node is the list of its bytes.
pub mod Bytes
pub mod Invariant
pub mod Write
pub mod Capacity
pub mod Room
pub mod WriteLaws
pub mod Read
pub mod ReadLaws
pub mod Seek
pub mod Ahead
pub mod Numbers
pub mod Fixed
pub mod Varint
pub mod Zigzag
pub mod Buffers
pub mod Spec
pub mod Files
mod Examples
use tw_server.Base.{
  ℕ, zero, suc, ◌+◌, ◌-◌, ◌*◌, ◌/◌, ◌%◌, ◌≤◌, ◌<◌, ◌≡◌, refl, Bool, List, [], ◌∷◌, ◌++◌, ltb, leb,
  ◌==◌, if◌then◌else◌, sub64, max, length, take, drop, Outcome, ok, fail, Fault, ◌>>=◌, ◌>>◌, guard,
}
use Bytes.{Block, overwrite, slice}

pub record ByteArray : Type 0 where
  pub base_size : ℕ
  pub position : ℕ
  pub capacity : ℕ
  pub size : ℕ
  pub before : List Block
  pub rest : List Block

-- `new char[n]`: the bytes that memory holds before they are written, by the node's place in the
-- list.
pub record Allocator : Type 0 where
  pub bytes : ℕ → ℕ → List ℕ
  pub bytes_length : (k n : ℕ) → length (bytes k n) ≡ n

pub read_size : ByteArray → ℕ
read_size s = sub64 s.size s.position

pub remain_capacity : ByteArray → ℕ
remain_capacity s = sub64 s.capacity s.position

pub init : Allocator → ℕ → ByteArray
init a n = record {
  base_size = n;
  position = 0;
  capacity = n;
  size = 0;
  before = [];
  rest = a.bytes 0 n ∷ [];
}

pub new_nodes : Allocator → ℕ → ℕ → ℕ → List Block
new_nodes a n k zero = []
new_nodes a n k (suc count) = a.bytes k n ∷ new_nodes a n (k + 1) count

pub extend : ByteArray → List Block → List Block → ByteArray
extend s [] added = record s { before = s.before ++ added; rest = [] }
extend s (b ∷ bs) added = record s { rest = b ∷ bs ++ added }

-- New nodes go behind the last one; m_cur moves only where no capacity was left.
pub attach : ByteArray → ℕ → List Block → ByteArray
unfolding extend
attach s old_cap added =
    if old_cap == 0
    then record s { before = s.before ++ s.rest; rest = added }
    else extend s s.rest added

pub grow : Allocator → ℕ → ℕ → ByteArray → ByteArray
unfolding attach new_nodes
grow a old_cap size s =
    let count = size / s.base_size + (if ltb old_cap (size % s.base_size) then 1 else 0) in
    let added = new_nodes a s.base_size (length s.before + length s.rest) count in
    attach (record s { capacity = s.capacity + s.base_size * count }) old_cap added

pub add_capacity : Allocator → ℕ → ByteArray → Outcome ByteArray
unfolding grow remain_capacity
add_capacity a more_size s =
    let old_cap = remain_capacity s in
    if more_size == 0
    then ok s
    else if leb more_size old_cap
    then ok s
    else if s.base_size == 0
    then fail Fault.divide_by_zero
    else ok (grow a old_cap (more_size - old_cap) s)

-- What every round of the copying loop of `write` does to m_position and m_size.
pub advance : ℕ → ByteArray → ByteArray
advance n s = record s { position = s.position + n; size = max s.size (s.position + n) }

pub write_last : ByteArray → Block → List Block → ℕ → List ℕ → ByteArray
unfolding advance
write_last s b rest npos buf =
    let b' = overwrite npos buf b in
    let s' = advance (length buf) s in
    if length b == npos + length buf
    then record s' { before = s.before ++ b' ∷ []; rest = rest }
    else record s' { rest = b' ∷ rest }

pub write_loop : ByteArray → List Block → ℕ → List ℕ → Outcome ByteArray
unfolding write_last advance
write_loop s [] npos buf = fail Fault.null_deref
write_loop s (b ∷ rest) npos buf =
    let ncap = length b - npos in
    let more =
      write_loop
        (record (advance ncap s) { before = s.before ++ overwrite npos (take ncap buf) b ∷ [] })
        rest 0 (drop ncap buf) in
    if leb (length buf) ncap then ok (write_last s b rest npos buf) else more

pub write : Allocator → List ℕ → ByteArray → Outcome ByteArray
write a buf s = if length buf == 0 then ok s else (do
  s' ← add_capacity a (length buf) s
  guard (ltb 0 s'.base_size) Fault.divide_by_zero
  write_loop s' s'.rest (s'.position % s'.base_size) buf)

-- The bytes read, and the object after it.
pub read_loop : ByteArray → List Block → ℕ → ℕ → Outcome (List ℕ × ByteArray)
read_loop s [] npos n = fail Fault.null_deref
read_loop s (b ∷ rest) npos n =
    let ncap = length b - npos in
    let more = (do
      (bytes, s') ←
          read_loop
            (record s { position = s.position + ncap; before = s.before ++ b ∷ []; rest = rest })
            rest 0 (n - ncap)
      ok (drop npos b ++ bytes, s')) in
    let s' = record s { position = s.position + n } in
    if leb n ncap
    then ok (
      slice npos n b,
      if length b == npos + n then record s' { before = s.before ++ b ∷ []; rest = rest } else s',
    )
    else more

abbrev pub is_null : List Block → Bool
is_null [] = Bool.true
is_null (b ∷ bs) = Bool.false

-- `m_cur->size` is read before the loop, also where nothing is to be copied.
pub read : ℕ → ByteArray → Outcome (List ℕ × ByteArray)
read n s =
    if ltb (read_size s) n
    then fail Fault.out_of_range
    else if s.base_size == 0
    then fail Fault.divide_by_zero
    else if is_null s.rest
    then fail Fault.null_deref
    else if n == 0
    then ok ([], s)
    else read_loop s s.rest (s.position % s.base_size) n

-- The walk of `setPosition` from m_root, with the nodes passed so far.
pub seek : List Block → List Block → ℕ → Outcome (List Block × List Block)
seek passed [] v = fail Fault.null_deref
seek passed (b ∷ bs) v =
    let more = seek (passed ++ b ∷ []) bs (v - length b) in
    if ltb (length b) v
    then more
    else if v == length b
    then ok (passed ++ b ∷ [], bs)
    else ok (passed, b ∷ bs)

pub set_position : ℕ → ByteArray → Outcome ByteArray
set_position v s = if ltb s.capacity v then fail Fault.out_of_range else (do
  (passed, bs) ← seek [] (s.before ++ s.rest) v
  ok (record s { position = v; size = max s.size v; before = passed; rest = bs }))

-- The nodes behind the root are deleted.
pub clear : ByteArray → ByteArray
clear s = record s {
  position = 0;
  size = 0;
  capacity = s.base_size;
  before = [];
  rest = take 1 (s.before ++ s.rest);
}
