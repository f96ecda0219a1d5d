-- ===== src/ByteArray/Files/Saving.antt =====
-- When `writeToFile` writes what is left of the object (tw/bytearray.cc).
use native.Mathlib.Nat.{mod-lt, div-add-mod}
use tw_server.Base.{
  ℕ, zero, suc, ◌+◌, ◌-◌, ◌%◌, ◌^◌, ◌≤◌, ◌<◌, ◌≡◌, ◌⊎◌, inl, inr, refl, ap, sym, subst, ◌∙◌, true,
  false, List, [], ◌∷◌, ◌++◌, length, take, drop, ltb, leb, ◌==◌, if◌then◌else◌, some, Outcome, ok,
  fail, null_deref, out_of_range, ◌>>=◌, arith, length-append, length-drop, append-nil, take_all,
  suc-==-zero, Bool-cases,
}
use tw_server.ByteArray.Bytes.{Block, flat, slice, drop-append_right, slice-append}
use tw_server.ByteArray.WriteLaws.{take-append_left}
use tw_server.ByteArray.{ByteArray, read_size}
use tw_server.ByteArray.Invariant.{IsValid, Sized, memory}
use tw_server.ByteArray.Room.{content, position_offset}
use tw_server.ByteArray.Files.{save_loop, write_to_file}

take_none : (n : ℕ) → take {A = ℕ} n [] ≡ []
take_none zero = refl
take_none (suc n) = refl

drop-take : (i n : ℕ) (xs : List ℕ) → drop i (take n xs) ≡ take (n - i) (drop i xs)
drop-take zero n xs = ap (λ t. take t xs) (omega arith)
drop-take (suc i) zero xs = ap (λ t. take t (drop (suc i) xs)) {x = 0} {y = 0 - suc i} (omega arith)
drop-take (suc i) (suc n) [] = sym (take_none (suc n - suc i))
drop-take (suc i) (suc n) (x ∷ xs) = drop-take i n xs ∙ ap (λ t. take t (drop i xs)) (omega arith)

pub Nat-cases : (n : ℕ) → (n ≡ 0) ⊎ (0 < n)
Nat-cases zero = inl refl
Nat-cases (suc n) = inr (omega arith)

-- A negative count, or the end of the list.
abbrev pub IsLost {ℓ} : {A : Type ℓ} → Outcome A → Type ℓ
IsLost m = (m ≡ fail out_of_range) ⊎ (m ≡ fail null_deref)

bind-IsLost {ℓ} :
    {A : Type ℓ} (m : Outcome (List ℕ)) (f : List ℕ → Outcome A) → IsLost m → IsLost (m >>= f)
bind-IsLost m f (inl p) = inl (ap (λ r. r >>= f) p)
bind-IsLost m f (inr p) = inr (ap (λ r. r >>= f) p)

save_nothing : (base : ℕ) (rest : List Block) (pos : ℕ) → save_loop base rest pos 0 ≡ ok []
unfolding save_loop
save_nothing base [] pos = refl
save_nothing base (b ∷ rest) pos = refl

-- The offset of the next piece, behind the last byte of a node.
next_aligned : (base pos d : ℕ) → 0 < base → pos % base ≡ d → (pos + (base - d)) % base ≡ 0
next_aligned base pos d h e = grind (arith, div-add-mod pos base, mod-lt pos h)

offset_lem :
    (base pos d left : ℕ)
    → 0 < base
    → pos % base ≡ d
    → d ≤ left
    → left < base
    → (pos + (left - d)) % base ≡ left
offset_lem base pos d left pos_base e le lt =
    grind (arith, div-add-mod pos base, mod-lt pos pos_base)

module _ (base : ℕ) (pos_base : 0 < base) (int_base : base ≤ 2 ^ 31) where
  within_int : (pos d : ℕ) → pos % base ≡ d → (pos % base % 2 ^ 32 ≡ d) × (leb (2 ^ 31) d ≡ false)
  within_int pos d e = let lt = mod-lt pos pos_base in (omega arith, ground arith)

  pieces :
      (b : Block) (r : List ℕ) (d left : ℕ)
      → length b ≡ base
      → d ≤ base
      → base ≤ left
      → slice d left (b ++ r) ≡ slice d (base - d) b ++ take (left - (base - d)) r
  pieces b r d left len le ge =
      ap (λ t. slice d t (b ++ r)) (omega arith)
      ∙ slice-append d (base - d) (left - (base - d)) b r (omega arith)
      ∙ ap (λ t. t ++ take (left - (base - d)) r)
          (sym (take_all (base - d) (drop d b) (omega (arith, length-drop d b))))

  save_loop_lem :
      (rest : List Block) (pos left d : ℕ)
      → Sized base rest
      → pos % base ≡ d
      → (d ≡ 0) ⊎ (base ≤ left)
      → d + left ≤ length (flat rest)
      → save_loop base rest pos left ≡ ok (slice d left (flat rest))
  unfolding save_loop
  save_loop_lem rest pos zero d z e c le = save_nothing base rest pos
  save_loop_lem [] pos (suc l) d z e c le = absurd (omega arith)
  save_loop_lem (b ∷ rest) pos (suc l) d z e c le = elim (Bool-cases (leb base (suc l))) [
    | inl long ↦
        let (int_lem, positive) = within_int pos d e in
        let ge : base ≤ suc l = ground (arith, long) in
        let chunk : (if ltb base (suc l) then base else suc l) ≡ base = ground (arith, long) in
        let d_lt : d < base = omega (arith, mod-lt pos pos_base) in
        let fits : ltb base d ≡ false = ground arith in
        rw (int_lem, chunk, suc-==-zero l, fits, positive)
          (rw
            (save_loop_lem rest (pos + (base - d)) (suc l - (base - d)) 0 z.1
              (next_aligned base pos d pos_base e) (inl refl)
              (omega (arith, z.0, length-append b (flat rest))))
            (ap ok (sym (pieces b (flat rest) d (suc l) z.0 (omega arith) ge))))
    | inr short ↦
        let (int_lem, positive) = within_int pos d e in
        let lt : suc l < base = ground (arith, short) in
        let chunk : (if ltb base (suc l) then base else suc l) ≡ suc l = ground (arith, short) in
        let start : d ≡ 0 = at_start c lt in
        let whole : suc l - 0 ≡ suc l = omega arith in
        let done : suc l - suc l ≡ 0 = omega arith in
        let fits : ltb (suc l) 0 ≡ false = ground arith in
        rw (int_lem, positive, start, chunk, suc-==-zero l, fits)
          (rw (whole, done, save_nothing base rest (pos + suc l), append-nil)
            (ap ok (sym (take-append_left (suc l) b (flat rest) (omega (arith, z.0))))))
  ]
    where
      at_start : (d ≡ 0) ⊎ (base ≤ suc l) → suc l < base → d ≡ 0
      at_start (inl h) lt = h
      at_start (inr h) lt = absurd (omega arith)

  next_offset :
      (pos d left : ℕ) → pos % base ≡ d → d ≤ left → left < base → (pos + (left - d)) % base ≡ left
  next_offset pos d left e le lt = offset_lem base pos d left pos_base e le lt

  -- With less than a node left, from within a node, the loop never comes to its end.
  save_loop_fails :
      (rest : List Block) (pos left d : ℕ)
      → pos % base ≡ d
      → 0 < d
      → 0 < left
      → left < base
      → IsLost (save_loop base rest pos left)
  unfolding save_loop
  save_loop_fails rest pos zero d e pos_d pos_left lt = absurd (omega arith)
  save_loop_fails [] pos (suc l) d e pos_d pos_left lt = inr (rw (suc-==-zero l) refl)
  save_loop_fails (b ∷ rest) pos (suc l) d e pos_d pos_left lt = elim (Bool-cases (ltb (suc l) d)) [
    | inl behind ↦
        let (int_lem, positive) = within_int pos d e in
        let chunk : (if ltb base (suc l) then base else suc l) ≡ suc l = ground arith in
        inl (rw (int_lem, chunk, suc-==-zero l, behind) refl)
    | inr within ↦
        let (int_lem, positive) = within_int pos d e in
        let chunk : (if ltb base (suc l) then base else suc l) ≡ suc l = ground arith in
        let le : d ≤ suc l = ground (arith, within) in
        let left' : suc l - (suc l - d) ≡ d = omega arith in
        rw (int_lem, chunk, suc-==-zero l, within, positive, left')
          (bind-IsLost (save_loop base rest (pos + (suc l - d)) d)
            (λ bytes. ok (slice d (suc l - d) b ++ bytes))
            (save_loop_fails rest (pos + (suc l - d)) d (suc l) (next_offset pos d (suc l) e le lt)
              (omega arith) pos_d (omega (arith, mod-lt pos pos_base))))
  ]

-- What is left of a valid object, in its nodes.
rest_content :
    (s : ByteArray) (d : ℕ)
    → IsValid s
    → s.position ≡ length (flat s.before) + d
    → drop s.position (content s) ≡ slice d (s.size - s.position) (flat s.rest)
rest_content s d v e =
    drop-take s.position s.size (memory s)
    ∙ ap (take (s.size - s.position))
        (drop-append_right s.position d (flat s.before) (flat s.rest) e)

abbrev pub offset : ByteArray → ℕ
offset s = s.position % s.base_size

module _ (s : ByteArray) (v : IsValid s) where
  read_size_lem : read_size s ≡ s.size - s.position
  unfolding read_size
  read_size_lem = ground (arith, v.position-le)

  -- A stream that opens, an object that is not at its end, and sizes that an int64_t holds.
  running :
      0 < s.size - s.position
      → s.size - s.position < 2 ^ 63
      → write_to_file true s ≡ (
          save_loop s.base_size s.rest s.position (s.size - s.position) >>= λ bytes.
          ok (some bytes))
  unfolding write_to_file
  running more small =
      let a : (s.size - s.position == 0) ≡ false = ground arith in
      let b : leb (2 ^ 63) (s.size - s.position) ≡ false = ground arith in
      let c : (s.base_size == 0) ≡ false = ground (arith, v.base_pos) in
      rw read_size_lem (rw (a, b, c) refl)

  -- On a valid object of less than 2^63 bytes, in nodes of at most 2^31, whose position is at the
  -- start of a node, or which has at least a node's size left, writeToFile gives an opened file
  -- what is left and nothing else.
  pub write_to_file_lem :
      s.size < 2 ^ 63
      → s.base_size ≤ 2 ^ 31
      → (offset s ≡ 0) ⊎ (s.base_size ≤ s.size - s.position)
      → write_to_file true s ≡ ok (some (drop s.position (content s)))
  write_to_file_lem small int_base start = elim (Nat-cases (s.size - s.position)) [
    | inl none_left ↦ nothing none_left
    | inr more ↦
        let (at, inside) = position_offset s s.rest v refl (omega (arith, v.size-le)) in
        running more (omega arith)
        ∙ ap (λ r. r >>= λ bytes. ok (some bytes))
            (save_loop_lem s.base_size v.base_pos int_base s.rest s.position (s.size - s.position)
              (offset s) v.sized_rest refl start (omega (arith, at, v.capacity_lem, v.size-le)))
        ∙ ap (λ t. ok (some t)) (sym (rest_content s (offset s) v at))
  ]
    where
      nothing :
          s.size - s.position ≡ 0 → write_to_file true s ≡ ok (some (drop s.position (content s)))
      nothing z =
          let e : drop s.position (content s) ≡ [] =
            drop-take s.position s.size (memory s)
            ∙ ap (λ n. take n (drop s.position (memory s))) z in
          unfold write_to_file in rw (e, read_size_lem, z) refl

  -- On a valid object of less than 2^63 bytes, in nodes of at most 2^31, that is within a node and
  -- has less than a node's size left, but something, writeToFile asks for a negative count of bytes
  -- or runs off the list.
  pub write_to_file_fails :
      s.size < 2 ^ 63
      → s.base_size ≤ 2 ^ 31
      → 0 < offset s
      → s.position < s.size
      → s.size - s.position < s.base_size
      → IsLost (write_to_file true s)
  write_to_file_fails small int_base within more short =
      subst IsLost (sym (running (omega arith) (omega arith))) (
        bind-IsLost (save_loop s.base_size s.rest s.position (s.size - s.position))
          (λ bytes. ok (some bytes))
          (save_loop_fails s.base_size v.base_pos int_base s.rest s.position (s.size - s.position)
            (offset s) refl within (omega arith) short))
