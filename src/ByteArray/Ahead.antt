-- ===== src/ByteArray/Ahead.antt =====
-- A ByteArray as a stream of bytes: what `write` puts at the position is what `read` finds there
-- after `setPosition` (tw/bytearray.cc).
use tw_server.Base.{
  take_all, ℕ, zero, suc, ◌+◌, ◌≤◌, ◌<◌, ◌≡◌, refl, ap, ◌∙◌, List, [], ◌∷◌, ◌++◌, length, take,
  drop, arith, ok, length-append, length-take,
}
use tw_server.ByteArray.Bytes.{slice, slice-append_left, drop-append_right}
use tw_server.ByteArray.{ByteArray, Allocator, write, read, set_position}
use tw_server.ByteArray.Invariant.{memory, IsValid}
use tw_server.ByteArray.Capacity.{length-memory}
use tw_server.ByteArray.Room.{content, splice, HasRoom}
use tw_server.ByteArray.WriteLaws.{write-WroteAt}
use tw_server.ByteArray.ReadLaws.{read-ReadAt}
use tw_server.ByteArray.Seek.{set_position-At}

-- The bytes from the position on begin with `bs`.
pub record Ahead (bs : List ℕ) (s : ByteArray) : Type 0 where
  pub valid : IsValid s
  pub fits : s.position + length bs ≤ s.size
  pub bytes : slice s.position (length bs) (content s) ≡ bs

pub length-content : (s : ByteArray) → IsValid s → length (content s) ≡ s.size
length-content s v = omega (arith, length-take s.size (memory s), length-memory s v, v.size-le)

slice-splice : (i : ℕ) (vs xs : List ℕ) → i ≤ length xs → slice i (length vs) (splice i vs xs) ≡ vs
slice-splice i vs xs h =
    let front : length (take i xs) ≡ i = omega (arith, length-take i xs) in
    let tail = drop (i + length vs) xs in
    ap (take (length vs)) (drop-append_right i 0 (take i xs) (vs ++ tail) (omega (arith, front)))
    ∙ slice-append_left 0 (length vs) vs tail (omega arith)
    ∙ all vs
  where
    all : (ys : List ℕ) → take (length ys) ys ≡ ys
    all ys = take_all (length ys) ys (omega arith)

-- What was written stands ahead once the position is set back.
pub written-Ahead :
    (a : Allocator) (bs : List ℕ) (s : ByteArray)
    → IsValid s
    → HasRoom s (length bs)
    → (s1 s2 : ByteArray) × (write a bs s ≡ ok s1)
      × (set_position s.position s1 ≡ ok s2)
      × Ahead bs s2
written-Ahead a bs s v room =
    let (s1, run, w) = write-WroteAt a bs s v room in
    let (s2, set, p) =
      set_position-At s.position s1 w.valid
        (omega (arith, w.valid.position-le, w.valid.size-le, w.position_lem)) in
    let size : s2.size ≡ s1.size = omega (arith, p.size_lem, w.size_lem, v.position-le) in
    let same : content s2 ≡ content s1 =
      ap (λ t. take t (memory s2)) size ∙ ap (take s1.size) p.memory_same in
    (
      s1,
      s2,
      run,
      set,
      record {
        valid = p.valid;
        fits = omega (arith, size, p.position_lem, w.size_lem);
        bytes =
            ap (λ t. slice t (length bs) (content s2)) p.position_lem
            ∙ ap (slice s.position (length bs)) (same ∙ w.content_lem)
            ∙ slice-splice s.position bs (content s)
                (omega (arith, length-content s v, v.position-le));
      },
    )

slice_parts :
    (i j m : ℕ) (cs bs xs : List ℕ)
    → slice i m xs ≡ cs ++ bs
    → m ≡ length cs + length bs
    → j ≡ i + length cs
    → i + m ≤ length xs
    → (slice i (length cs) xs ≡ cs) × (slice j (length bs) xs ≡ bs)
slice_parts zero zero m [] bs xs e f g h = (refl, ap (λ t. take t xs) (omega arith) ∙ e)
slice_parts zero (suc j) m [] bs xs e f g h = absurd (omega arith)
slice_parts zero j m (c ∷ cs) bs [] e f g h = absurd (omega arith)
slice_parts zero zero m (c ∷ cs) bs (x ∷ xs) e f g h = absurd (omega arith)
slice_parts zero (suc j) zero (c ∷ cs) bs (x ∷ xs) e f g h = absurd (omega arith)
slice_parts zero (suc j) (suc m) (c ∷ cs) bs (x ∷ xs) e f g h =
    let tails : take m xs ≡ cs ++ bs = cc in
    let (p, q) = slice_parts zero j m cs bs xs tails (omega arith) (omega arith) (omega arith) in
    (cc, q)
slice_parts (suc i) j m cs bs [] e f g h = absurd (omega arith)
slice_parts (suc i) zero m cs bs (x ∷ xs) e f g h = absurd (omega arith)
slice_parts (suc i) (suc j) m cs bs (x ∷ xs) e f g h =
    slice_parts i j m cs bs xs e f (omega arith) (omega arith)

-- A read of as many bytes gives those, and the rest stands ahead after it.
pub read-Ahead :
    (cs bs : List ℕ) (s : ByteArray)
    → Ahead (cs ++ bs) s
    → 0 < length cs
    → (s' : ByteArray) × (read (length cs) s ≡ ok (cs, s')) × Ahead bs s'
read-Ahead cs bs s h pos =
    let len = length-append cs bs in
    let (s', run, r) = read-ReadAt (length cs) s h.valid pos (omega (arith, len, h.fits)) in
    let (front, back) =
      slice_parts s.position s'.position (length (cs ++ bs)) cs bs (content s) h.bytes len
        r.position_lem (omega (arith, h.fits, length-content s h.valid)) in
    (
      s',
      run ∙ ap (λ t. ok (t, s')) front,
      record {
        valid = r.valid;
        fits = omega (arith, len, h.fits, r.position_lem, r.size_same);
        bytes = ap (slice s'.position (length bs)) r.content_same ∙ back;
      },
    )
