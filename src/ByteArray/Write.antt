-- ===== src/ByteArray/Write.antt =====
-- `ByteArray::write` (tw/bytearray.cc): its copying loop over the nodes.
use tw_server.Base.{
  drop_all, take_all, ℕ, ◌+◌, ◌-◌, ◌≤◌, ◌<◌, ◌≡◌, refl, ◌∙◌, List, [], ◌∷◌, ◌++◌, length, take,
  drop, max, All-append, arith, inl, inr, leb, ◌==◌, Bool-cases, ok, fail, Fault, false, ◌≢◌,
  length-append, length-drop, append_assoc,
}
use tw_server.ByteArray.Bytes.{
  Block, flat, flat_snoc, length-flat_snoc, overwrite, length-overwrite, overwrite-nil,
  overwrite-append,
}
use tw_server.ByteArray.{ByteArray, write_loop, write_last, advance}
use tw_server.ByteArray.Invariant.{memory, Sized, Located, Located-at_start}

-- What the loop leaves behind, from the nodes `rest` that are still ahead.
pub record Wrote (s : ByteArray) (rest : List Block) (npos : ℕ) (buf : List ℕ) (s' : ByteArray)
    : Type 0 where
  pub bytes : memory s' ≡ flat s.before ++ overwrite npos buf (flat rest)
  pub position_lem : s'.position ≡ s.position + length buf
  pub size_lem : s'.size ≡ max s.size (s.position + length buf)
  pub capacity_same : s'.capacity ≡ s.capacity
  pub base_size_same : s'.base_size ≡ s.base_size
  pub sized_before : Sized s.base_size s'.before
  pub sized_rest : Sized s.base_size s'.rest
  pub located : Located (length (flat s'.before)) s'.position s'.rest

module _ (s : ByteArray) (b : Block) (rest : List Block) (npos : ℕ) (buf : List ℕ)
    (before_sized : Sized s.base_size s.before) (b_sized : length b ≡ s.base_size)
    (rest_sized : Sized s.base_size rest) (at_npos : s.position ≡ length (flat s.before) + npos)
    (inside : npos < s.base_size) where
  overwritten :
      length buf ≤ length b - npos
      → overwrite npos buf (flat (b ∷ rest)) ≡ overwrite npos buf b ++ flat rest
  overwritten fits = rw (
    overwrite-append npos (length b - npos) buf b (flat rest) (omega arith),
    take_all (length b - npos) buf fits,
    drop_all (length b - npos) buf fits,
    overwrite-nil 0 (flat rest),
  )

  at_end :
      length buf ≤ length b - npos
      → 0 < length buf
      → (length b ≡ npos + length buf)
      → Wrote s (b ∷ rest) npos buf (record (advance (length buf) s) {
        before = s.before ++ overwrite npos buf b ∷ [];
        rest = rest;
      })
  unfolding advance
  at_end fits pos e = record {
    bytes =
        rw (overwritten fits, flat_snoc)
          (append_assoc (flat s.before) (overwrite npos buf b) (flat rest));
    position_lem = refl;
    size_lem = refl;
    capacity_same = refl;
    base_size_same = refl;
    sized_before =
        All-append _ s.before _ before_sized ((length-overwrite npos buf b ∙ b_sized), tt);
    sized_rest = rest_sized;
    located =
        let len : length (flat (s.before ++ overwrite npos buf b ∷ [])) ≡ s.position + length buf =
          omega (
            arith,
            length-flat_snoc s.before (overwrite npos buf b),
            length-overwrite npos buf b,
          ) in
        rw len (Located-at_start s.base_size _ rest (omega arith) rest_sized);
  }

  in_node :
      length buf ≤ length b - npos
      → 0 < length buf
      → (length b ≢ npos + length buf)
      → Wrote s
          (b ∷ rest)
          npos
          buf
          (record (advance (length buf) s) { rest = overwrite npos buf b ∷ rest })
  unfolding advance
  in_node fits pos ne = record {
    bytes = rw (overwritten fits);
    position_lem = refl;
    size_lem = refl;
    capacity_same = refl;
    base_size_same = refl;
    sized_before = before_sized;
    sized_rest = ((length-overwrite npos buf b ∙ b_sized), rest_sized);
    located = (omega arith, omega (arith, length-overwrite npos buf b));
  }

  write_last-Wrote :
      length buf ≤ length b - npos
      → 0 < length buf
      → Wrote s (b ∷ rest) npos buf (write_last s b rest npos buf)
  unfolding write_last
  write_last-Wrote fits pos = elim (Bool-cases (length b == npos + length buf)) [
    | inl e ↦ rw e (at_end fits pos (ground arith))
    | inr e ↦ rw e (in_node fits pos (ground arith))
  ]

-- The state after the rounds that fill the node `b` up.
abbrev filled : ByteArray → Block → ℕ → List ℕ → ByteArray
unfolding advance
filled s b npos buf =
    let ncap = length b - npos in
    record (advance ncap s) { before = s.before ++ overwrite npos (take ncap buf) b ∷ [] }

fill-Wrote :
    (s : ByteArray) (b : Block) (rest : List Block) (npos : ℕ) (buf : List ℕ) (s' : ByteArray)
    → npos ≤ length b
    → length b - npos < length buf
    → Wrote (filled s b npos buf) rest 0 (drop (length b - npos) buf) s'
    → Wrote s (b ∷ rest) npos buf s'
unfolding advance
fill-Wrote s b rest npos buf s' h lt w = record {
  bytes =
      w.bytes
      ∙ rw (flat_snoc, overwrite-append npos (length b - npos) buf b (flat rest) (omega arith))
          (append_assoc (flat s.before) (overwrite npos (take (length b - npos) buf) b)
            (overwrite 0 (drop (length b - npos) buf) (flat rest)));
  position_lem = omega (arith, length-drop (length b - npos) buf, w.position_lem);
  size_lem = omega (arith, length-drop (length b - npos) buf, w.size_lem);
  capacity_same = w.capacity_same;
  base_size_same = w.base_size_same;
  sized_before = w.sized_before;
  sized_rest = w.sized_rest;
  located = w.located;
}

-- The copying loop ends, faults nowhere and writes the whole run where the nodes ahead have room.
pub write_loop_lem :
    (s : ByteArray) (rest : List Block) (npos : ℕ) (buf : List ℕ)
    → Sized s.base_size s.before
    → Sized s.base_size rest
    → s.position ≡ length (flat s.before) + npos
    → npos < s.base_size
    → 0 < length buf
    → npos + length buf ≤ length (flat rest)
    → (s' : ByteArray) × (write_loop s rest npos buf ≡ ok s') × Wrote s rest npos buf s'
unfolding write_loop
write_loop_lem s [] npos buf hb hr at inside pos fits = absurd (omega arith)
write_loop_lem s (b ∷ rest) npos buf hb hr at inside pos fits =
    elim (Bool-cases (leb (length buf) (length b - npos))) [
      | inl e ↦ (
        write_last s b rest npos buf,
        rw e,
        write_last-Wrote s b rest npos buf hb hr.0 hr.1 at inside (ground arith) pos,
      )
      | inr e ↦
          let lt : length b - npos < length buf = ground arith in
          let (s', run, w) =
            write_loop_lem (filled s b npos buf) rest 0 (drop (length b - npos) buf)
              (All-append _ s.before _ hb ((length-overwrite npos _ b ∙ hr.0), tt)) hr.1
              (omega (
                arith,
                length-flat_snoc s.before (overwrite npos (take (length b - npos) buf) b),
                length-overwrite npos (take (length b - npos) buf) b,
              ))
              (omega arith) (omega (arith, length-drop (length b - npos) buf))
              (omega (arith, length-drop (length b - npos) buf, length-append b (flat rest))) in
          (s', rw e run, fill-Wrote s b rest npos buf s' (omega arith) lt w)
    ]

-- With too little room ahead the loop runs off the list.
pub write_loop_overrun :
    (s : ByteArray) (rest : List Block) (npos : ℕ) (buf : List ℕ)
    → length (flat rest) < npos + length buf
    → Sized s.base_size rest
    → npos < s.base_size
    → write_loop s rest npos buf ≡ fail Fault.null_deref
unfolding write_loop advance
write_loop_overrun s [] npos buf short h inside = refl
write_loop_overrun s (b ∷ rest) npos buf short h inside =
    let lt : length b - npos < length buf = omega (arith, length-append b (flat rest)) in
    let e : leb (length buf) (length b - npos) ≡ false = ground arith in
    rw e (
      write_loop_overrun (filled s b npos buf) rest 0 (drop (length b - npos) buf)
        (omega (arith, length-append b (flat rest), length-drop (length b - npos) buf)) h.1
        (omega arith))
