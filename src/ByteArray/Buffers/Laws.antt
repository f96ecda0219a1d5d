-- ===== src/ByteArray/Buffers/Laws.antt =====
-- What the iovec lists and the read at a position hold (tw/bytearray.cc).
use native.Mathlib.Nat.{div-add-mod}
use tw_server.Base.{
  ℕ, zero, suc, ◌+◌, ◌-◌, ◌*◌, ◌/◌, ◌%◌, ◌≤◌, ◌<◌, ◌≡◌, refl, ap, sym, subst, ◌∙◌, true, false,
  List, [], ◌∷◌, ◌++◌, length, take, leb, ltb, ◌==◌, sub64, Bool-cases, inl, inr, ok, ◌>>=◌, All,
  arith, length-append, lt→ltb,
}
use tw_server.ByteArray.Bytes.{Block, slice, flat, drop-append_right, slice-append_left}
use tw_server.ByteArray.{ByteArray, Allocator, read, read_size}
use tw_server.ByteArray.Invariant.{IsValid, memory, Sized, length-flat}
use tw_server.ByteArray.Room.{content, position_offset, HasRoom, HasRoom-enough}
use tw_server.ByteArray.Capacity.{add_capacity-Grown, length-memory}
use tw_server.ByteArray.ReadLaws.{read-ReadAt, slice-take}
use tw_server.ByteArray.WriteLaws.{take-append_left}
use tw_server.ByteArray.Buffers.{
  Iovec, from_position, get_read_buffers, get_write_buffers, head_size, clipped, walk, read_at,
  read_at_loop, to_string, next_node,
}
use tw_server.ByteArray.Buffers.Gather.{Gathered, InNode, gather, total_len, iov_loop_lem}

abbrev pub nodes : ByteArray → List Block
nodes s = s.before ++ s.rest

from_position_lem :
    (n : ℕ) (s : ByteArray)
    → IsValid s
    → 0 < n
    → s.position + n ≤ s.capacity
    → (iovs : List Iovec) × (from_position n s ≡ ok iovs)
      × Gathered (nodes s) (slice s.position n (memory s)) n iovs
unfolding from_position
from_position_lem n s v pos fits =
    let (at, inside) = position_offset s s.rest v refl (omega arith) in
    let off = s.position % s.base_size in
    let room : off + n ≤ length (flat s.rest) = omega (arith, at, v.capacity_lem) in
    let (iovs, run, g) =
      iov_loop_lem (nodes s) s.before s.rest (length s.before) off n refl refl
        (in_head s.rest v.sized_rest off n pos room inside) pos room in
    (
      iovs,
      rw (lt→ltb 0 s.base_size v.base_pos, has_node s.rest off n pos room) run,
      subst (λ t. Gathered (nodes s) (take n t) n iovs)
          (sym (drop-append_right s.position off (flat s.before) (flat s.rest) at)) g,
    )
  where
    in_head :
        (rest : List Block)
        → Sized s.base_size rest
        → (off n : ℕ) → 0 < n
        → off + n ≤ length (flat rest)
        → off < s.base_size
        → off ≤ head_size rest
    in_head [] z off n p room lt = omega arith
    in_head (b ∷ rest) z off n p room lt = omega (arith, z.0)

    has_node :
        (rest : List Block) (off n : ℕ)
        → 0 < n
        → off + n ≤ length (flat rest)
        → leb 1 (length rest) ≡ true
    has_node [] off n p room = absurd (omega arith)
    has_node (b ∷ rest) off n p room = ground arith

clipped_all :
    (len : ℕ) (s : ByteArray) → IsValid s → len ≤ s.size - s.position → clipped len s ≡ len
unfolding read_size
clipped_all len s v h = ground (arith, v.position-le)

-- The buffers of `getReadBuffers` for no more bytes than are left hold what `read` of as many
-- gives, each within its node, and the object stays as it is.
pub get_read_buffers_lem :
    (n : ℕ) (s : ByteArray)
    → IsValid s
    → 0 < n
    → s.position + n ≤ s.size
    → (iovs : List Iovec) × (s' : ByteArray) × (get_read_buffers n s ≡ ok (iovs, n))
      × (read n s ≡ ok (gather (nodes s) iovs, s'))
      × (total_len iovs ≡ n)
      × All (InNode (nodes s)) iovs
unfolding get_read_buffers
get_read_buffers_lem n s v pos fits =
    let (iovs, run, g) = from_position_lem n s v pos (omega (arith, v.size-le)) in
    let (s', got, r) = read-ReadAt n s v pos fits in
    let some_bytes : (n == 0) ≡ false = ground arith in
    (
      iovs,
      s',
      rw (clipped_all n s v (omega arith), some_bytes) (ap (λ o. o >>= λ iovs. ok (iovs, n)) run),
      got
          ∙ ap (λ t. ok (t, s'))
              (slice-take s.position n s.size (memory s) fits ∙ sym g.gather_lem),
      g.total_lem,
      g.inside,
    )

-- With room for `len` bytes, `getWriteBuffers` gives buffers for exactly `len` bytes behind the
-- position, each within its node, and neither the position nor the content changes.
get_write_buffers_lem :
    (a : Allocator) (len : ℕ) (s : ByteArray)
    → IsValid s
    → 0 < len
    → HasRoom s len
    → (iovs : List Iovec) × (s' : ByteArray) × (get_write_buffers a len s ≡ ok (iovs, len, s'))
      × IsValid s'
      × (s'.position ≡ s.position)
      × (content s' ≡ content s)
      × (gather (nodes s') iovs ≡ slice s'.position len (memory s'))
      × (total_len iovs ≡ len)
      × All (InNode (nodes s')) iovs
unfolding get_write_buffers
get_write_buffers_lem a len s v pos room =
    let (s', added, g) = add_capacity-Grown a len s v in
    let enough = HasRoom-enough s len v room in
    let (iovs, run, h) =
      from_position_lem len s' g.valid pos
        (omega (arith, enough, g.capacity_lem, g.position_same)) in
    let some_bytes : (len == 0) ≡ false = ground arith in
    (
      iovs,
      s',
      rw (some_bytes, added) (ap (λ o. o >>= λ iovs. ok (iovs, len, s')) run),
      g.valid,
      g.position_same,
      ap (λ t. take t (memory s')) g.size_same
          ∙ ap (take s.size) g.memory_lem
          ∙ take-append_left s.size (memory s) g.extra
              (omega (arith, length-memory s v, v.size-le)),
      h.gather_lem,
      h.total_lem,
      h.inside,
    )

walk_lem :
    (count : ℕ) (l : List Block)
    → count ≤ length l
    → (cur : List Block) × (walk count l ≡ ok cur) × (length cur ≡ length l - count)
unfolding walk
walk_lem zero l h = (l, refl, omega arith)
walk_lem (suc count) [] h = absurd (omega arith)
walk_lem (suc count) (b ∷ l) h =
    let (cur, e, len) = walk_lem count l (omega arith) in (cur, e, omega (arith, len))

div-lt : (p k n : ℕ) → 0 < n → p < k * n → p / n < k
div-lt p k n pos h = elim (Bool-cases (ltb (p / n) k)) [
  | inl e ↦ ground arith
  | inr e ↦ let le : k ≤ p / n = ground arith in absurd (grind (arith, div-add-mod p n, le))
]

enough_nodes :
    (p : ℕ) (s : ByteArray)
    → IsValid s
    → p < s.capacity
    → p / s.base_size < length (s.before ++ s.rest)
enough_nodes p s v lt = div-lt p (length (s.before ++ s.rest)) s.base_size v.base_pos (
    grind (
      arith,
      v.capacity_lem,
      length-append s.before s.rest,
      length-flat s.base_size s.before v.sized_before,
      length-flat s.base_size s.rest v.sized_rest,
    ))

-- One copy of `read(buf, size, position)`.
one_copy :
    (b : Block) (next : List Block) (off n fuel : ℕ) (cur : List Block)
    → 0 < n
    → off + n ≤ length b
    → 0 < length cur
    → read_at_loop (suc fuel) b next off (length b - off) cur n ≡ ok (slice off n b)
unfolding read_at_loop next_node
one_copy b next off n fuel [] pos fits some_cur = absurd (omega arith)
one_copy b next off n fuel (c ∷ cur) pos fits some_cur =
    let some_bytes : (n == 0) ≡ false = ground arith in
    let last : leb n (length b - off) ≡ true = ground arith in
    elim (Bool-cases (length b == off + n)) [
      | inl e ↦ rw (some_bytes, last, e) refl
      | inr e ↦ rw (some_bytes, last, e) refl
    ]

-- `read` of bytes at a position that has them takes the block of m_cur in place of the block of the
-- position, where the run fits in one block.
pub read_at_wrong_block :
    (n position : ℕ) (b : Block) (next : List Block) (s : ByteArray)
    → IsValid s
    → s.rest ≡ b ∷ next
    → 0 < n
    → position + n ≤ s.size
    → position % s.base_size + n ≤ s.base_size
    → read_at n position s ≡ ok (slice (position % s.base_size) n b)
unfolding read_at
read_at_wrong_block n position b next s v e pos fits one =
    let z = subst (Sized s.base_size) e v.sized_rest in
    let enough : position / s.base_size < length (s.before ++ s.rest) =
      enough_nodes position s v (omega (arith, v.size-le)) in
    let (cur, w, len) = walk_lem (position / s.base_size) (s.before ++ s.rest) (omega arith) in
    let in_range : ltb (sub64 s.size position) n ≡ false = ground arith in
    let has_node : leb 1 (suc (length next)) ≡ true = ground arith in
    rw (in_range, lt→ltb 0 s.base_size v.base_pos, w, e, has_node)
      (one_copy b next (position % s.base_size) n n cur pos (omega (arith, z.0)) (omega arith))

-- `toString` gives the bytes that are left where they lie in the block of m_cur.
pub to_string_lem :
    (b : Block) (next : List Block) (s : ByteArray)
    → IsValid s
    → s.rest ≡ b ∷ next
    → s.position < s.size
    → s.position % s.base_size + (s.size - s.position) ≤ s.base_size
    → to_string s ≡ ok (slice s.position (s.size - s.position) (content s))
unfolding to_string read_size
to_string_lem b next s v e lt one =
    let n = s.size - s.position in
    let (at, inside) = position_offset s s.rest v refl (omega (arith, v.size-le)) in
    let z = subst (Sized s.base_size) e v.sized_rest in
    let some_bytes : (sub64 s.size s.position == 0) ≡ false = ground arith in
    let left : sub64 s.size s.position ≡ n = ground arith in
    let off = s.position % s.base_size in
    rw (some_bytes, left)
      (read_at_wrong_block n s.position b next s v e (omega arith) (omega arith) one
        ∙ ap ok (
            sym (slice-append_left off n b (flat next) (omega (arith, z.0)))
            ∙ ap (λ t. slice off n (flat t)) (sym e)
            ∙ ap (take n) (sym (drop-append_right s.position off (flat s.before) (flat s.rest) at))
            ∙ sym (slice-take s.position n s.size (memory s) (omega arith))))
