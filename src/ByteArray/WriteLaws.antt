-- ===== src/ByteArray/WriteLaws.antt =====
-- `ByteArray::write` as a whole (tw/bytearray.cc): when it succeeds, and what it then leaves.
use native.Mathlib.Nat.{mod-lt}
use tw_server.Base.{
  drop_all, ℕ, zero, suc, ◌+◌, ◌%◌, ◌≤◌, ◌≡◌, refl, ap, sym, ◌∙◌, List, [], ◌∷◌, ◌++◌, length, take,
  drop, max, arith, inl, ok, fail, Fault, length-append, length-take, lt→ltb, suc-==-zero,
}
use tw_server.ByteArray.Bytes.{
  flat, overwrite, overwrite-append_right, overwrite-nil, slice-append_left, length-overwrite,
}
use tw_server.ByteArray.{ByteArray, Allocator, write}
use tw_server.ByteArray.Invariant.{memory, IsValid}
use tw_server.ByteArray.Write.{Wrote, write_loop_lem, write_loop_overrun}
use tw_server.ByteArray.Room.{
  content, splice, HasRoom, HasRoom-enough, HasRoom-short, position_offset, position-le-offset,
}
use tw_server.ByteArray.Capacity.{Grown, add_capacity-Grown, length-memory}

take_of_overwrite :
    (k n i j : ℕ) (vs m : List ℕ)
    → i ≤ n
    → n ≤ length m
    → j ≡ i + length vs
    → j ≤ length m
    → k ≡ max n j
    → take k (overwrite i vs m) ≡ take i (take n m) ++ (vs ++ drop j (take n m))
unfolding overwrite
take_of_overwrite k n zero zero [] m a b c d e = rw overwrite-nil (ap (λ t. take t m) (omega arith))
take_of_overwrite k n zero (suc j) [] m a b c d e = absurd (omega arith)
take_of_overwrite k n zero zero (v ∷ vs) m a b c d e = absurd (omega arith)
take_of_overwrite k n zero (suc j) (v ∷ vs) [] a b c d e = absurd (omega arith)
take_of_overwrite zero n zero (suc j) (v ∷ vs) (x ∷ xs) a b c d e = absurd (omega arith)
take_of_overwrite (suc k) zero zero (suc j) (v ∷ vs) (x ∷ xs) a b c d e =
    ap (λ t. v ∷ t)
      (take_of_overwrite k zero zero j vs xs (omega arith) (omega arith) (omega arith) (omega arith)
          (omega arith)
        ∙ ap (λ t. vs ++ t) (drop_all j [] (omega arith)))
take_of_overwrite (suc k) (suc n) zero (suc j) (v ∷ vs) (x ∷ xs) a b c d e =
    ap (λ t. v ∷ t)
      (take_of_overwrite k n zero j vs xs (omega arith) (omega arith) (omega arith) (omega arith)
        (omega arith))
take_of_overwrite k zero (suc i) j vs m a b c d e = absurd (omega arith)
take_of_overwrite k (suc n) (suc i) j vs [] a b c d e = absurd (omega arith)
take_of_overwrite k (suc n) (suc i) zero vs (x ∷ xs) a b c d e = absurd (omega arith)
take_of_overwrite zero (suc n) (suc i) (suc j) vs (x ∷ xs) a b c d e = absurd (omega arith)
take_of_overwrite (suc k) (suc n) (suc i) (suc j) vs (x ∷ xs) a b c d e =
    ap (λ t. x ∷ t)
      (take_of_overwrite k n i j vs xs (omega arith) (omega arith) (omega arith) (omega arith)
        (omega arith))

pub take-append_left : (n : ℕ) (xs ys : List ℕ) → n ≤ length xs → take n (xs ++ ys) ≡ take n xs
take-append_left n xs ys h = slice-append_left 0 n xs ys (omega arith)

-- What `write` promises: the bytes stand at the position, the position is behind them, and no other
-- byte of the content has changed.
pub record WroteAt (buf : List ℕ) (s s' : ByteArray) : Type 0 where
  pub valid : IsValid s'
  pub position_lem : s'.position ≡ s.position + length buf
  pub size_lem : s'.size ≡ max s.size (s.position + length buf)
  pub base_size_same : s'.base_size ≡ s.base_size
  pub content_lem : content s' ≡ splice s.position buf (content s)

module _ (buf : List ℕ) (s s1 s' : ByteArray) (v : IsValid s) (count : ℕ) (g : Grown s count s1)
    (w : Wrote s1 s1.rest (s1.position % s1.base_size) buf s')
    (at : s1.position ≡ length (flat s1.before) + s1.position % s1.base_size)
    (fits : s.position + length buf ≤ s1.capacity) where
  memory_written : memory s' ≡ overwrite s.position buf (memory s ++ g.extra)
  memory_written =
      w.bytes
      ∙ sym (
          overwrite-append_right s1.position (flat s1.before) (s1.position % s1.base_size) buf
            (flat s1.rest) at)
      ∙ ap (λ t. overwrite t buf (memory s1)) g.position_same
      ∙ ap (overwrite s.position buf) g.memory_lem

  total : length (memory s ++ g.extra) ≡ s1.capacity
  total = ap length (sym g.memory_lem) ∙ length-memory s1 g.valid

  lengths : s1.capacity ≡ length (flat s'.before) + length (flat s'.rest)
  lengths = omega (
    arith,
    total,
    ap length memory_written,
    length-overwrite s.position buf (memory s ++ g.extra),
    length-append (flat s'.before) (flat s'.rest),
  )

  written-WroteAt : WroteAt buf s s'
  written-WroteAt = record {
    valid = record {
      base_pos = omega (arith, w.base_size_same, g.base_size_same, v.base_pos);
      has_root = omega (arith, w.capacity_same, g.valid.has_root);
      sized_before = rw w.base_size_same w.sized_before;
      sized_rest = rw w.base_size_same w.sized_rest;
      capacity_lem = omega (arith, w.capacity_same, lengths);
      located = w.located;
      position-le = omega (arith, w.position_lem, w.size_lem);
      size-le = omega (
        arith, w.size_lem, w.capacity_same, g.size_same, g.position_same, v.size-le, g.capacity_lem,
      );
    };
    position_lem = omega (arith, w.position_lem, g.position_same);
    size_lem = omega (arith, w.size_lem, g.size_same, g.position_same);
    base_size_same = w.base_size_same ∙ g.base_size_same;
    content_lem =
        ap (take s'.size) memory_written
        ∙ take_of_overwrite s'.size s.size s.position (s.position + length buf) buf
            (memory s ++ g.extra) v.position-le (omega (arith, total, g.capacity_lem, v.size-le))
            refl (omega (arith, total, fits))
            (omega (arith, w.size_lem, g.size_same, g.position_same))
        ∙ ap (splice s.position buf) (
            take-append_left s.size (memory s) g.extra
              (omega (arith, length-memory s v, v.size-le)));
  }

splice_nil : (i j : ℕ) (xs : List ℕ) → j ≡ i → i ≤ length xs → xs ≡ take i xs ++ drop j xs
splice_nil zero j xs e h = ap (λ t. drop t xs) (sym e)
splice_nil (suc i) j [] e h = elim h [ ]
splice_nil (suc i) zero (x ∷ xs) e h = absurd (omega arith)
splice_nil (suc i) (suc j) (x ∷ xs) e h =
    ap (λ t. x ∷ t) (splice_nil i j xs (omega arith) (omega arith))

wrote_nothing : (s : ByteArray) → IsValid s → WroteAt [] s s
wrote_nothing s v = record {
  valid = v;
  position_lem = omega arith;
  size_lem = omega (arith, v.position-le);
  base_size_same = refl;
  content_lem =
      splice_nil s.position (s.position + 0) (content s) (omega arith)
        (omega (arith, length-take s.size (memory s), length-memory s v, v.position-le, v.size-le));
}

-- On a valid object whose nodes are enough after `addCapacity`, `write` succeeds and does what it
-- promises.
pub write-WroteAt :
    (a : Allocator) (buf : List ℕ) (s : ByteArray)
    → IsValid s
    → HasRoom s (length buf)
    → (s' : ByteArray) × (write a buf s ≡ ok s') × WroteAt buf s s'
unfolding write
write-WroteAt a [] s v room = (s, refl, wrote_nothing s v)
write-WroteAt a (c ∷ cs) s v room =
    let (s1, added, g) = add_capacity-Grown a (length (c ∷ cs)) s v in
    let enough = HasRoom-enough s (length (c ∷ cs)) v room in
    let fits : s.position + length (c ∷ cs) ≤ s1.capacity = omega (arith, enough, g.capacity_lem) in
    let (at, inside) =
      position_offset s1 s1.rest g.valid refl (omega (arith, fits, g.position_same)) in
    let (s', run, w) =
      write_loop_lem s1 s1.rest (s1.position % s1.base_size) (c ∷ cs) g.valid.sized_before
        g.valid.sized_rest at inside (omega arith)
        (omega (arith, fits, at, g.valid.capacity_lem, g.position_same)) in
    (
      s',
      rw (suc-==-zero (length cs), added, lt→ltb 0 s1.base_size g.valid.base_pos) run,
      written-WroteAt (c ∷ cs) s s1 s' v _ g w at fits,
    )

-- Where the nodes are too few, `write` reads through a null m_cur.
pub write_no_room :
    (a : Allocator) (buf : List ℕ) (s : ByteArray)
    → IsValid s
    → ¬ HasRoom s (length buf)
    → write a buf s ≡ fail Fault.null_deref
unfolding write
write_no_room a [] s v room = absurd (room (inl (omega arith)))
write_no_room a (c ∷ cs) s v room =
    let (s1, added, g) = add_capacity-Grown a (length (c ∷ cs)) s v in
    let short = HasRoom-short s (length (c ∷ cs)) v room in
    rw (suc-==-zero (length cs), added, lt→ltb 0 s1.base_size g.valid.base_pos)
      (write_loop_overrun s1 s1.rest (s1.position % s1.base_size) (c ∷ cs)
        (omega (
          arith,
          short,
          g.capacity_lem,
          g.valid.capacity_lem,
          g.position_same,
          position-le-offset s1 s1.rest g.valid refl,
        ))
        g.valid.sized_rest (mod-lt s1.position g.valid.base_pos))
