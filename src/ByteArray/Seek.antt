-- ===== src/ByteArray/Seek.antt =====
-- `setPosition`, `clear` and the constructor (tw/bytearray.cc).
use tw_server.Base.{
  ℕ, ◌+◌, ◌-◌, ◌≤◌, ◌<◌, ◌≡◌, refl, ap, sym, subst, ◌∙◌, List, [], ◌∷◌, ◌++◌, length, take, max,
  All-append, arith, inl, inr, ltb, ◌==◌, Bool-cases, true, false, ok, fail, Fault, length-append,
  append_assoc, append-nil,
}
use tw_server.ByteArray.Bytes.{Block, flat, flat-append, length-flat_snoc}
use tw_server.ByteArray.{ByteArray, Allocator, init, seek, set_position, clear}
use tw_server.ByteArray.Invariant.{memory, Sized, Located, Located-at_start, IsValid}
use tw_server.ByteArray.Room.{content}
use tw_server.ByteArray.Capacity.{length-memory}

pub init-IsValid : (a : Allocator) (n : ℕ) → 0 < n → IsValid (init a n)
unfolding init
init-IsValid a n pos = record {
  base_pos = pos;
  has_root = pos;
  sized_before = tt;
  sized_rest = (a.bytes_length 0 n, tt);
  capacity_lem = omega (arith, a.bytes_length 0 n, ap length (append-nil (a.bytes 0 n)));
  located = (omega arith, omega (arith, a.bytes_length 0 n));
  position-le = omega arith;
  size-le = omega arith;
}

-- The nodes passed and those ahead are the same list, parted at the position.
pub record Parted (n : ℕ) (nodes : List Block) (v : ℕ) (p r : List Block) : Type 0 where
  pub same : p ++ r ≡ nodes
  pub sized_p : Sized n p
  pub sized_r : Sized n r
  pub located : Located (length (flat p)) v r

seek-Parted :
    (n : ℕ) (passed bs : List Block) (v : ℕ)
    → 0 < n
    → Sized n passed
    → Sized n bs
    → v ≤ length (flat bs)
    → 0 < length (flat bs)
    → (p r : List Block) × (seek passed bs v ≡ ok (p, r))
      × Parted n (passed ++ bs) (length (flat passed) + v) p r
unfolding seek
seek-Parted n passed [] v pos hp hb le some_bytes = elim some_bytes [ ]
seek-Parted n passed (b ∷ bs) v pos hp hb le some_bytes = elim (Bool-cases (ltb (length b) v)) [
  | inl e ↦
      let lt : length b < v = ground arith in
      let (p, r, run, w) =
        seek-Parted n (passed ++ b ∷ []) bs (v - length b) pos (All-append _ passed _ hp (hb.0, tt))
          hb.1 (omega (arith, length-append b (flat bs)))
          (omega (arith, length-append b (flat bs))) in
      (
        p,
        r,
        rw e run,
        record {
          same = w.same ∙ append_assoc passed (b ∷ []) bs;
          sized_p = w.sized_p;
          sized_r = w.sized_r;
          located =
              subst (λ t. Located (length (flat p)) t r) (omega (arith, length-flat_snoc passed b))
                w.located;
        },
      )
  | inr e ↦ elim (Bool-cases (v == length b)) [
    | inl f ↦
        let len : length (flat (passed ++ b ∷ [])) ≡ length (flat passed) + v =
          ground (arith, length-flat_snoc passed b) in
        (
          passed ++ b ∷ [],
          bs,
          rw (e, f),
          record {
            same = append_assoc passed (b ∷ []) bs;
            sized_p = All-append _ passed _ hp (hb.0, tt);
            sized_r = hb.1;
            located = rw len (Located-at_start n _ bs pos hb.1);
          },
        )
    | inr f ↦ (
      passed,
      b ∷ bs,
      rw (e, f),
      record { same = refl; sized_p = hp; sized_r = hb; located = (omega arith, ground arith) },
    )
  ]
]

-- What `setPosition` promises: the position is set, the size covers it, no byte changes.
pub record At (v : ℕ) (s s' : ByteArray) : Type 0 where
  pub valid : IsValid s'
  pub position_lem : s'.position ≡ v
  pub size_lem : s'.size ≡ max s.size v
  pub base_size_same : s'.base_size ≡ s.base_size
  pub memory_same : memory s' ≡ memory s

pub set_position_too_far :
    (v : ℕ) (s : ByteArray) → ltb s.capacity v ≡ true → set_position v s ≡ fail Fault.out_of_range
unfolding set_position
set_position_too_far v s e = rw e refl

-- On a valid object a position within the capacity is set as promised.
pub set_position-At :
    (v : ℕ) (s : ByteArray)
    → IsValid s
    → v ≤ s.capacity
    → (s' : ByteArray) × (set_position v s ≡ ok s') × At v s s'
unfolding set_position
set_position-At v s h le =
    let bytes : length (flat (s.before ++ s.rest)) ≡ s.capacity =
      ap length (flat-append s.before s.rest) ∙ length-memory s h in
    let (p, r, run, w) =
      seek-Parted s.base_size [] (s.before ++ s.rest) v h.base_pos tt
        (All-append _ s.before s.rest h.sized_before h.sized_rest) (omega (arith, bytes))
        (omega (arith, bytes, h.has_root)) in
    let same : flat p ++ flat r ≡ memory s =
      sym (flat-append p r) ∙ ap flat w.same ∙ flat-append s.before s.rest in
    let within : ltb s.capacity v ≡ false = ground arith in
    (
      record s { position = v; size = max s.size v; before = p; rest = r },
      rw (within, run),
      record {
        valid = record {
          base_pos = h.base_pos;
          has_root = h.has_root;
          sized_before = w.sized_p;
          sized_rest = w.sized_r;
          capacity_lem =
              omega (arith, length-memory s h, ap length same, length-append (flat p) (flat r));
          located = subst (λ t. Located (length (flat p)) t r) (omega arith) w.located;
          position-le = omega arith;
          size-le = omega (arith, h.size-le);
        };
        position_lem = refl;
        size_lem = refl;
        base_size_same = refl;
        memory_same = same;
      },
    )

first_node :
    (n : ℕ) (nodes : List Block)
    → Sized n nodes
    → 0 < length (flat nodes)
    → (b : Block) × (take 1 nodes ≡ b ∷ []) × (length b ≡ n)
first_node n [] h pos = elim pos [ ]
first_node n (b ∷ bs) h pos = (b, refl, h.0)

-- `clear` leaves the root node alone, with the position and the size at its start.
pub clear_lem :
    (s : ByteArray)
    → IsValid s
    → IsValid (clear s) × (content (clear s) ≡ []) × (length (memory (clear s)) ≡ s.base_size)
unfolding clear
clear_lem s v =
    let nodes = s.before ++ s.rest in
    let bytes : length (flat nodes) ≡ s.capacity =
      ap length (flat-append s.before s.rest) ∙ length-memory s v in
    let (b, e, len) =
      first_node s.base_size nodes (All-append _ s.before s.rest v.sized_before v.sized_rest)
        (omega (arith, bytes, v.has_root)) in
    let one : length (flat (take 1 nodes)) ≡ s.base_size =
      ap (λ t. length (flat t)) e ∙ ap length (append-nil b) ∙ len in
    (
      record {
        base_pos = v.base_pos;
        has_root = v.base_pos;
        sized_before = tt;
        sized_rest = subst (Sized s.base_size) (sym e) (len, tt);
        capacity_lem = omega (arith, one);
        located = subst (Located 0 0) (sym e) (omega arith, omega (arith, len, v.base_pos));
        position-le = omega arith;
        size-le = omega arith;
      },
      refl,
      one,
    )
