-- ===== src/ByteArray/Files/Loading.antt =====
-- `readFromFile` puts a file into the object, and a file that `writeToFile` made comes back whole
-- (tw/bytearray.cc).
use native.Mathlib.Nat.{div-add-mod, mod-eq_of_lt, suc-mul}
use tw_server.Base.{
  drop_all, drop-drop, take-append_drop, ℕ, zero, suc, ◌+◌, ◌-◌, ◌*◌, ◌/◌, ◌%◌, ◌^◌, ◌≤◌, ◌<◌, ◌≡◌,
  ◌⊎◌, inl, inr, refl, ap, sym, ◌∙◌, true, List, [], ◌∷◌, ◌++◌, length, take, drop, ltb, some, ok,
  arith, length-append, length-take, length-drop, take_all, Bool-cases, append-nil, append_assoc,
}
use tw_server.ByteArray.Bytes.{drop-append_right}
use tw_server.ByteArray.{ByteArray, Allocator, clear}
use tw_server.ByteArray.Invariant.{IsValid, length-flat}
use tw_server.ByteArray.Room.{content, splice, HasRoom}
use tw_server.ByteArray.WriteLaws.{WroteAt, write-WroteAt, take-append_left}
use tw_server.ByteArray.Ahead.{length-content}
use tw_server.ByteArray.Seek.{clear_lem}
use tw_server.ByteArray.Files.{load_loop, read_from_file, write_to_file}
use tw_server.ByteArray.Files.Saving.{Nat-cases, offset, write_to_file_lem}

node_below : (q k n : ℕ) → q * n < k * n → q * n + n ≤ k * n
node_below q zero n h = absurd (omega arith)
node_below zero (suc k) n h = omega (arith, suc-mul k n)
node_below (suc q) (suc k) n h =
    omega
      (arith, suc-mul q n, suc-mul k n, node_below q k n (omega (arith, suc-mul q n, suc-mul k n)))

module _ (s : ByteArray) (v : IsValid s) where
  capacity_nodes : s.capacity ≡ (length s.before + length s.rest) * s.base_size
  capacity_nodes = grind (
    arith,
    v.capacity_lem,
    length-flat s.base_size s.before v.sized_before,
    length-flat s.base_size s.rest v.sized_rest,
  )

  room_of_nodes :
      (k q : ℕ)
      → s.capacity ≡ k * s.base_size
      → s.position ≡ q * s.base_size
      → 0 < s.capacity - s.position
      → s.base_size ≤ s.capacity - s.position
  room_of_nodes k q e f h = omega (arith, node_below q k s.base_size (omega arith))

  -- From the start of a node there is always room for a node's bytes.
  aligned_room : (n : ℕ) → offset s ≡ 0 → n ≤ s.base_size → HasRoom s n
  aligned_room n at le = elim (Nat-cases (s.capacity - s.position)) [
    | inl full ↦ elim (Bool-cases (ltb n s.base_size)) [
      | inl small ↦ elim (Nat-cases n) [
        | inl nothing ↦ inl (omega arith)
        | inr some_bytes ↦
            let e : n - (s.capacity - s.position) ≡ n = omega arith in
            inr (inr (rw e (omega (arith, mod-eq_of_lt (lt_of small), full))))
      ]
      | inr whole ↦
          let e : n - (s.capacity - s.position) ≡ s.base_size = ground (arith, whole) in
          inr (inl (rw e (grind arith)))
    ]
    | inr left ↦ inl (
        omega (
          arith,
          room_of_nodes (length s.before + length s.rest) (s.position / s.base_size) capacity_nodes
              (grind (arith, div-add-mod s.position s.base_size)) left,
        ))
  ]
    where
      lt_of : ltb n s.base_size ≡ true → n < s.base_size
      lt_of h = ground arith

splice_cons :
    (p : ℕ) (vs : List ℕ) (x : ℕ) (xs : List ℕ) → splice (suc p) vs (x ∷ xs) ≡ x ∷ splice p vs xs
splice_cons p vs x xs =
    ap (λ t. x ∷ (take p xs ++ (vs ++ drop t (x ∷ xs)))) {x = suc p + length vs}
      {y = suc (p + length vs)} (omega arith)

-- Two writes one behind the other are one write.
splice_twice :
    (p : ℕ) (a b xs : List ℕ)
    → p ≤ length xs
    → splice (p + length a) b (splice p a xs) ≡ splice p (a ++ b) xs
splice_twice zero a b xs h =
    let D = drop (0 + length a) xs in
    let front : take (0 + length a) (a ++ D) ≡ a =
      take-append_left (0 + length a) a D (omega arith) ∙ take_all (0 + length a) a (omega arith) in
    let back : drop (0 + length a + length b) (a ++ D) ≡ drop (0 + length (a ++ b)) xs =
      drop-append_right (0 + length a + length b) (length b) a D (omega arith)
      ∙ drop-drop (length b) (0 + length a) xs
      ∙ ap (λ n. drop n xs) (omega (arith, length-append a b)) in
    rw (front, back) (sym (append_assoc a b (drop (0 + length (a ++ b)) xs)))
splice_twice (suc p) a b [] h = absurd (omega arith)
splice_twice (suc p) a b (x ∷ xs) h =
    let e : suc p + length a ≡ suc (p + length a) = omega arith in
    ap (λ n. splice n b (splice (suc p) a (x ∷ xs))) e
    ∙ ap (splice (suc (p + length a)) b) (splice_cons p a x xs)
    ∙ splice_cons (p + length a) b x (splice p a xs)
    ∙ ap (λ t. x ∷ t) (splice_twice p a b xs (omega arith))
    ∙ sym (splice_cons p (a ++ b) x xs)

-- What a load leaves: the file at the position, and the position behind it.
pub record Loaded (file : List ℕ) (s s' : ByteArray) : Type 0 where
  pub valid : IsValid s'
  pub position_lem : s'.position ≡ s.position + length file
  pub content_lem : content s' ≡ splice s.position file (content s)

still_aligned : (p n : ℕ) → 0 < n → p % n ≡ 0 → (p + n) % n ≡ 0
still_aligned p n pos h = grind arith

clear_offset : (t : ByteArray) → IsValid t → offset (clear t) ≡ 0
unfolding clear
clear_offset t w = mod-eq_of_lt w.base_pos

splice-clear : (t : ByteArray) (file : List ℕ) → splice (clear t).position file [] ≡ file
unfolding clear
splice-clear t file =
    ap (λ r. file ++ r) (drop_all (0 + length file) [] (omega arith)) ∙ append-nil file

module _ (a : Allocator) where
  last_chunk :
      (file : List ℕ) (s s' : ByteArray)
      → length file ≤ s.base_size
      → WroteAt (take s.base_size file) s s'
      → Loaded file s s'
  last_chunk file s s' le w =
      let whole = take_all s.base_size file le in
      record {
        valid = w.valid;
        position_lem = w.position_lem ∙ ap (λ t. s.position + length t) whole;
        content_lem = w.content_lem ∙ ap (λ t. splice s.position t (content s)) whole;
      }

  next_chunk :
      (file : List ℕ) (s t u : ByteArray)
      → IsValid s
      → s.base_size ≤ length file
      → WroteAt (take s.base_size file) s t
      → Loaded (drop s.base_size file) t u
      → Loaded file s u
  next_chunk file s t u v le w l =
      let n = s.base_size in
      let first = take n file in
      let len : length first ≡ n = omega (arith, length-take n file) in
      record {
        valid = l.valid;
        position_lem = omega (arith, l.position_lem, w.position_lem, len, length-drop n file);
        content_lem =
            l.content_lem
            ∙ ap (λ p. splice p (drop n file) (content t)) w.position_lem
            ∙ ap (splice (s.position + length first) (drop n file)) w.content_lem
            ∙ splice_twice s.position first (drop n file) (content s)
                (omega (arith, length-content s v, v.position-le))
            ∙ ap (λ f. splice s.position f (content s)) (take-append_drop n file);
      }

  load_loop_lem :
      (rounds : ℕ) (file : List ℕ) (s : ByteArray)
      → IsValid s
      → offset s ≡ 0
      → length file < rounds
      → (s' : ByteArray) × (load_loop a rounds file s ≡ ok (some s')) × Loaded file s s'
  unfolding load_loop
  load_loop_lem zero file s v at h = absurd (omega arith)
  load_loop_lem (suc rounds) file s v at h =
      let (t, run, w) =
        write-WroteAt a (take s.base_size file) s v
          (aligned_room s v _ at (omega (arith, length-take s.base_size file))) in
      elim (Bool-cases (ltb (length file) s.base_size)) [
        | inl last ↦ (t, rw (run, last) refl, last_chunk file s t (ground (arith, last)) w)
        | inr more ↦
            let le : s.base_size ≤ length file = ground (arith, more) in
            let base = w.base_size_same in
            let moved : t.position ≡ s.position + s.base_size =
              omega (arith, w.position_lem, length-take s.base_size file) in
            let aligned : offset t ≡ 0 =
              rw (base, moved) (still_aligned s.position s.base_size v.base_pos at) in
            let (u, rest, l) =
              load_loop_lem rounds (drop s.base_size file) t w.valid aligned
                (omega (arith, length-drop s.base_size file, v.base_pos)) in
            (u, rw (run, more) rest, next_chunk file s t u v le w l)
      ]

  -- On a valid object at the start of a node readFromFile of a file that opens ends, and puts the
  -- file at the position, which is then behind it, and leaves the other bytes.
  read_from_file_lem :
      (file : List ℕ) (s : ByteArray)
      → IsValid s
      → offset s ≡ 0
      → (s' : ByteArray) × (read_from_file a true file s ≡ ok (some (true, s'))) × Loaded file s s'
  unfolding read_from_file
  read_from_file_lem file s v at =
      let (s', run, l) = load_loop_lem (suc (length file)) file s v at (omega arith) in
      (s', rw run refl, l)

  -- What writeToFile puts into a file from a valid object of less than 2^63 bytes, in nodes of at
  -- most 2^31, whose position is at the start of a node or which has at least a node's size left,
  -- readFromFile brings into a cleared object of any base size, which then holds exactly what was
  -- left of the first.
  pub read_from_file-write_to_file :
      (s t : ByteArray)
      → IsValid s
      → IsValid t
      → s.size < 2 ^ 63
      → s.base_size ≤ 2 ^ 31
      → (offset s ≡ 0) ⊎ (s.base_size ≤ s.size - s.position)
      → (file : List ℕ) × (t' : ByteArray) × (write_to_file true s ≡ ok (some file))
        × (read_from_file a true file (clear t) ≡ ok (some (true, t')))
        × IsValid t'
        × (content t' ≡ drop s.position (content s))
  read_from_file-write_to_file s t v w small int_base start =
      let file = drop s.position (content s) in
      let (valid, none_left, len) = clear_lem t w in
      let (t', run, l) = read_from_file_lem file (clear t) valid (clear_offset t w) in
      (
        file,
        t',
        write_to_file_lem s v small int_base start,
        run,
        l.valid,
        l.content_lem ∙ ap (splice (clear t).position file) none_left ∙ splice-clear t file,
      )
