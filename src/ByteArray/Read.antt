-- ===== src/ByteArray/Read.antt =====
-- `ByteArray::read(void*, size_t)` (tw/bytearray.cc): its copying loop and the whole function.
use tw_server.Base.{
  ℕ, ◌+◌, ◌-◌, ◌≤◌, ◌<◌, ◌≡◌, refl, ap, sym, subst, ◌∙◌, List, [], ◌∷◌, ◌++◌, length, All-append,
  arith, inl, inr, leb, ◌==◌, Bool-cases, ok, length-append, append_assoc, if◌then◌else◌,
}
use tw_server.ByteArray.Bytes.{
  Block, flat, flat_snoc, length-flat_snoc, slice, slice-append, slice-append_left,
}
use tw_server.ByteArray.{ByteArray, read_loop}
use tw_server.ByteArray.Invariant.{memory, Sized, Located, Located-at_start}

-- `s'` is `s` with the position moved on by `n`.
pub record Passed (s : ByteArray) (n : ℕ) (s' : ByteArray) : Type 0 where
  pub memory_same : memory s' ≡ memory s
  pub position_lem : s'.position ≡ s.position + n
  pub size_same : s'.size ≡ s.size
  pub capacity_same : s'.capacity ≡ s.capacity
  pub base_size_same : s'.base_size ≡ s.base_size
  pub sized_before : Sized s.base_size s'.before
  pub sized_rest : Sized s.base_size s'.rest
  pub located : Located (length (flat s'.before)) s'.position s'.rest

abbrev next_node : ByteArray → ℕ → Block → List Block → ByteArray
next_node s n b rest = record s {
  position = s.position + n;
  before = s.before ++ b ∷ [];
  rest = rest;
}

module _ (s : ByteArray) (b : Block) (rest : List Block) (npos : ℕ) (here : s.rest ≡ b ∷ rest)
    (before_sized : Sized s.base_size s.before) (b_sized : length b ≡ s.base_size)
    (rest_sized : Sized s.base_size rest) (at_npos : s.position ≡ length (flat s.before) + npos)
    (inside : npos < s.base_size) where
  memory_next : (n : ℕ) → memory (next_node s n b rest) ≡ memory s
  memory_next n =
      ap (λ t. t ++ flat rest) (flat_snoc s.before b)
      ∙ append_assoc (flat s.before) b (flat rest)
      ∙ ap (λ t. flat s.before ++ flat t) (sym here)

  to_next : (n : ℕ) → length b ≡ npos + n → Passed s n (next_node s n b rest)
  to_next n e = record {
    memory_same = memory_next n;
    position_lem = refl;
    size_same = refl;
    capacity_same = refl;
    base_size_same = refl;
    sized_before = All-append _ s.before _ before_sized (b_sized, tt);
    sized_rest = rest_sized;
    located =
        let len : length (flat (s.before ++ b ∷ [])) ≡ s.position + n =
          omega (arith, length-flat_snoc s.before b) in
        rw len (Located-at_start s.base_size _ rest (omega arith) rest_sized);
  }

  in_node : (n : ℕ) → npos + n < length b → Passed s n (record s { position = s.position + n })
  in_node n lt = record {
    memory_same = refl;
    position_lem = refl;
    size_same = refl;
    capacity_same = refl;
    base_size_same = refl;
    sized_before = before_sized;
    sized_rest = subst (Sized s.base_size) (sym here) (b_sized, rest_sized);
    located =
        subst (Located (length (flat s.before)) (s.position + n)) (sym here)
          (omega arith, omega arith);
  }

  after_next :
      (n : ℕ) (s' : ByteArray)
      → length b - npos ≤ n
      → Passed (next_node s (length b - npos) b rest) (n - (length b - npos)) s'
      → Passed s n s'
  after_next n s' le p = record {
    memory_same = p.memory_same ∙ memory_next (length b - npos);
    position_lem = omega (arith, p.position_lem);
    size_same = p.size_same;
    capacity_same = p.capacity_same;
    base_size_same = p.base_size_same;
    sized_before = p.sized_before;
    sized_rest = p.sized_rest;
    located = p.located;
  }

  last_node :
      (n : ℕ)
      → n ≤ length b - npos
      → Passed s n (
          if length b == npos + n
          then next_node s n b rest
          else record s { position = s.position + n })
  last_node n le = elim (Bool-cases (length b == npos + n)) [
    | inl e ↦ rw e (to_next n (ground arith))
    | inr e ↦ rw e (in_node n (ground arith))
  ]

-- The loop ends, faults nowhere and copies the run at the position.
pub read_loop_lem :
    (s : ByteArray) (rest : List Block) (npos n : ℕ)
    → s.rest ≡ rest
    → Sized s.base_size s.before
    → Sized s.base_size rest
    → s.position ≡ length (flat s.before) + npos
    → npos < s.base_size
    → 0 < n
    → npos + n ≤ length (flat rest)
    → (s' : ByteArray) × (read_loop s rest npos n ≡ ok (slice npos n (flat rest), s'))
      × Passed s n s'
unfolding read_loop
read_loop_lem s [] npos n here hb hr at inside pos fits = absurd (omega arith)
read_loop_lem s (b ∷ rest) npos n here hb hr at inside pos fits =
    elim (Bool-cases (leb n (length b - npos))) [
      | inl e ↦
          let le : n ≤ length b - npos = ground arith in
          (
            if length b == npos + n
                then next_node s n b rest
                else record s { position = s.position + n },
            rw (e, slice-append_left npos n b (flat rest) (omega arith)),
            last_node s b rest npos here hb hr.0 hr.1 at inside n le,
          )
      | inr e ↦
          let lt : length b - npos < n = ground arith in
          let k = n - (length b - npos) in
          let split : n ≡ (length b - npos) + k = omega arith in
          let (s', run, p) =
            read_loop_lem (next_node s (length b - npos) b rest) rest 0 k refl
              (All-append _ s.before _ hb (hr.0, tt)) hr.1
              (omega (arith, length-flat_snoc s.before b)) (omega arith) (omega arith)
              (omega (arith, length-append b (flat rest))) in
          (
            s',
            rw (e, run)
                (ap (λ t. ok (t, s'))
                  (sym (
                    ap (λ t. slice npos t (b ++ flat rest)) split
                    ∙ slice-append npos (length b - npos) k b (flat rest) (omega arith)))),
            after_next s b rest npos here hb hr.0 hr.1 at inside n s' (omega arith) p,
          )
    ]
