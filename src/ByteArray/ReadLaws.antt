-- ===== src/ByteArray/ReadLaws.antt =====
-- `ByteArray::read(void*, size_t)` as a whole (tw/bytearray.cc).
use tw_server.Base.{
  ℕ, zero, suc, ◌+◌, ◌%◌, ◌≤◌, ◌<◌, ◌≡◌, refl, ap, sym, subst, ◌∙◌, List, [], ◌∷◌, length, take,
  arith, ltb, ◌==◌, true, false, ok, fail, Fault, length-append,
}
use tw_server.ByteArray.Bytes.{Block, flat, slice, drop-append_right}
use tw_server.ByteArray.{ByteArray, read, read_size, is_null}
use tw_server.ByteArray.Read.{Passed, read_loop_lem}
use tw_server.ByteArray.Invariant.{memory, Located, IsValid}
use tw_server.ByteArray.Room.{content, position_offset}
use tw_server.ByteArray.Capacity.{length-memory}

-- What `read` promises: the bytes at the position, and the position behind them.
pub record ReadAt (n : ℕ) (s s' : ByteArray) : Type 0 where
  pub valid : IsValid s'
  pub position_lem : s'.position ≡ s.position + n
  pub size_same : s'.size ≡ s.size
  pub content_same : content s' ≡ content s

Passed-ReadAt :
    (n : ℕ) (s s' : ByteArray) → IsValid s → s.position + n ≤ s.size → Passed s n s' → ReadAt n s s'
Passed-ReadAt n s s' v fits p = record {
  valid = record {
    base_pos = omega (arith, p.base_size_same, v.base_pos);
    has_root = omega (arith, p.capacity_same, v.has_root);
    sized_before = rw p.base_size_same p.sized_before;
    sized_rest = rw p.base_size_same p.sized_rest;
    capacity_lem = omega (
      arith,
      p.capacity_same,
      length-memory s v,
      ap length p.memory_same,
      length-append (flat s'.before) (flat s'.rest),
    );
    located = p.located;
    position-le = omega (arith, p.position_lem, p.size_same);
    size-le = omega (arith, p.capacity_same, p.size_same, v.size-le);
  };
  position_lem = p.position_lem;
  size_same = p.size_same;
  content_same = ap (λ t. take t (memory s')) p.size_same ∙ ap (take s.size) p.memory_same;
}

pub slice-take : (i n k : ℕ) (xs : List ℕ) → i + n ≤ k → slice i n (take k xs) ≡ slice i n xs
slice-take zero zero k xs h = refl
slice-take zero (suc n) zero xs h = absurd (omega arith)
slice-take zero (suc n) (suc k) [] h = refl
slice-take zero (suc n) (suc k) (x ∷ xs) h = ap (λ t. x ∷ t) (slice-take zero n k xs (omega arith))
slice-take (suc i) n zero xs h = absurd (omega arith)
slice-take (suc i) n (suc k) [] h = refl
slice-take (suc i) n (suc k) (x ∷ xs) h = slice-take i n k xs (omega arith)

reads_on :
    (s : ByteArray) (n : ℕ) → IsValid s → s.position + n ≤ s.size → ltb (read_size s) n ≡ false
unfolding read_size
reads_on s n v fits = ground (arith, v.position-le)

has_base : (s : ByteArray) → IsValid s → (s.base_size == 0) ≡ false
has_base s v = ground (arith, v.base_pos)

nonzero : (n : ℕ) → 0 < n → (n == 0) ≡ false
nonzero n h = ground arith

not_null :
    (s : ByteArray) (rest : List Block) (off n : ℕ)
    → 0 < n
    → off + n ≤ length (flat rest)
    → is_null rest ≡ false
not_null s [] off n pos room = absurd (omega arith)
not_null s (b ∷ bs) off n pos room = refl

null_at_end :
    (s : ByteArray) (rest : List Block)
    → IsValid s
    → s.rest ≡ rest
    → s.position ≡ s.capacity
    → is_null rest ≡ true
null_at_end s [] v e full = refl
null_at_end s (b ∷ bs) v e full =
    let l = subst (Located (length (flat s.before)) s.position) e v.located in
    absurd
      (omega (arith, l.1, v.capacity_lem, ap (λ t. length (flat t)) e, length-append b (flat bs)))

-- On a valid object `read` of no more bytes than are left gives the bytes at the position.
pub read-ReadAt :
    (n : ℕ) (s : ByteArray)
    → IsValid s
    → 0 < n
    → s.position + n ≤ s.size
    → (s' : ByteArray) × (read n s ≡ ok (slice s.position n (content s), s')) × ReadAt n s s'
unfolding read
read-ReadAt n s v pos fits =
    let lt : s.position < s.capacity = omega (arith, v.size-le) in
    let (at, inside) = position_offset s s.rest v refl lt in
    let off = s.position % s.base_size in
    let room : off + n ≤ length (flat s.rest) = omega (arith, at, v.capacity_lem, v.size-le) in
    let (s', run, p) =
      read_loop_lem s s.rest off n refl v.sized_before v.sized_rest at inside pos room in
    let bytes : slice off n (flat s.rest) ≡ slice s.position n (content s) =
      ap (take n) (sym (drop-append_right s.position off (flat s.before) (flat s.rest) at))
      ∙ sym (slice-take s.position n s.size (memory s) fits) in
    (
      s',
      rw (reads_on s n v fits, has_base s v, not_null s s.rest off n pos room, nonzero n pos)
          (run ∙ ap (λ t. ok (t, s')) bytes),
      Passed-ReadAt n s s' v fits p,
    )

-- More than is left is refused, whatever the object's state.
read_too_much :
    (n : ℕ) (s : ByteArray)
    → IsValid s
    → s.size < s.position + n
    → read n s ≡ fail Fault.out_of_range
unfolding read read_size
read_too_much n s v more = ground (arith, v.position-le)

-- A read of no bytes at the end of the last node reads the size of a null m_cur.
read_nothing_at_end :
    (s : ByteArray) → IsValid s → s.position ≡ s.capacity → read 0 s ≡ fail Fault.null_deref
unfolding read
read_nothing_at_end s v e =
    rw (reads_on s 0 v (omega (arith, v.position-le)), has_base s v, null_at_end s s.rest v refl e)
