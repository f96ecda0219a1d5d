-- ===== src/ByteArray/Capacity.antt =====
-- `ByteArray::addCapacity` and the room that it leaves for `write` (tw/bytearray.cc).
use tw_server.Base.{
  ℕ, zero, suc, ◌+◌, ◌-◌, ◌*◌, ◌/◌, ◌%◌, ◌≤◌, ◌≡◌, refl, ap, sym, subst, ◌∙◌, List, [], ◌∷◌, ◌++◌,
  length, All-append, arith, inl, inr, ltb, leb, if◌then◌else◌, Bool-cases, ok, length-append,
  append_assoc, append-nil,
}
use tw_server.ByteArray.Bytes.{Block, flat, flat-append}
use tw_server.ByteArray.{
  ByteArray, Allocator, new_nodes, extend, attach, grow, add_capacity, remain_capacity,
}
use tw_server.ByteArray.Invariant.{memory, Sized, Located, Located-at_start, IsValid, length-flat}

-- The number of nodes that `addCapacity` adds where `n` bytes are wanted.
abbrev pub added_count : ByteArray → ℕ → ℕ
added_count s n =
    let old_cap = s.capacity - s.position in
    let size = n - old_cap in
    size / s.base_size + (if ltb old_cap (size % s.base_size) then 1 else 0)

-- `s'` is `s` with `count` nodes more.
pub record Grown (s : ByteArray) (count : ℕ) (s' : ByteArray) : Type 0 where
  pub valid : IsValid s'
  pub position_same : s'.position ≡ s.position
  pub size_same : s'.size ≡ s.size
  pub base_size_same : s'.base_size ≡ s.base_size
  pub capacity_lem : s'.capacity ≡ s.capacity + s.base_size * count
  pub extra : List ℕ
  pub memory_lem : memory s' ≡ memory s ++ extra

module _ (a : Allocator) (n : ℕ) where
  new_nodes-Sized : (k count : ℕ) → Sized n (new_nodes a n k count)
  unfolding new_nodes
  new_nodes-Sized k zero = tt
  new_nodes-Sized k (suc count) = (a.bytes_length k n, new_nodes-Sized (k + 1) count)

  length-new_nodes : (k count : ℕ) → length (new_nodes a n k count) ≡ count
  unfolding new_nodes
  length-new_nodes k zero = refl
  length-new_nodes k (suc count) = ap suc (length-new_nodes (k + 1) count)

pub IsValid-position-le : (s : ByteArray) → IsValid s → s.position ≤ s.capacity
IsValid-position-le s v = omega (arith, v.position-le, v.size-le)

pub length-memory : (s : ByteArray) → IsValid s → length (memory s) ≡ s.capacity
length-memory s v = length-append (flat s.before) (flat s.rest) ∙ sym v.capacity_lem

module _ (s : ByteArray) (v : IsValid s) (added : List Block) (count : ℕ)
    (sized : Sized s.base_size added) (counted : length added ≡ count) where
  abbrev wider : ByteArray
  wider = record s { capacity = s.capacity + s.base_size * count }

  added_length : length (flat added) ≡ s.base_size * count
  added_length = grind (arith, length-flat s.base_size added sized)

  -- m_cur is null: the first new node becomes the current one.
  attach_full : s.capacity ≡ s.position → s.rest ≡ [] → Grown s count (attach wider 0 added)
  unfolding attach
  attach_full full at_end = record {
    valid = record {
      base_pos = v.base_pos;
      has_root = omega (arith, v.has_root);
      sized_before = All-append _ s.before s.rest v.sized_before v.sized_rest;
      sized_rest = sized;
      capacity_lem = omega (arith, len, added_length);
      located =
          let e : length (flat (s.before ++ s.rest)) ≡ s.position = omega (arith, len) in
          rw e (Located-at_start s.base_size s.position added v.base_pos sized);
      position-le = v.position-le;
      size-le = omega (arith, v.size-le);
    };
    position_same = refl;
    size_same = refl;
    base_size_same = refl;
    capacity_lem = refl;
    extra = flat added;
    memory_lem = rw (flat-append s.before s.rest);
  }
    where
      len : length (flat (s.before ++ s.rest)) ≡ s.capacity
      len = ap length (flat-append s.before s.rest) ∙ length-memory s v

  attach_behind :
      (b : Block) (bs : List Block)
      → s.rest ≡ b ∷ bs
      → Grown s count (record wider { rest = b ∷ bs ++ added })
  attach_behind b bs e = record {
    valid = record {
      base_pos = v.base_pos;
      has_root = omega (arith, v.has_root);
      sized_before = v.sized_before;
      sized_rest = All-append _ (b ∷ bs) added (subst (Sized s.base_size) e v.sized_rest) sized;
      capacity_lem = omega (
        arith,
        v.capacity_lem,
        ap (λ t. length (flat t)) e,
        ap length (flat-append (b ∷ bs) added),
        length-append (flat (b ∷ bs)) (flat added),
        added_length,
      );
      located = subst (Located (length (flat s.before)) s.position) e v.located;
      position-le = v.position-le;
      size-le = omega (arith, v.size-le);
    };
    position_same = refl;
    size_same = refl;
    base_size_same = refl;
    capacity_lem = refl;
    extra = flat added;
    memory_lem =
        rw (flat-append (b ∷ bs) added, e)
          (sym (append_assoc (flat s.before) (flat (b ∷ bs)) (flat added)));
  }

  attach_more :
      (k : ℕ) (b : Block) (bs : List Block)
      → s.rest ≡ b ∷ bs
      → attach wider (suc k) added ≡ record wider { rest = b ∷ bs ++ added }
  unfolding attach extend
  attach_more k b bs e = ground (arith, ap (λ r. extend wider r added) e)

  attach-Grown :
      (rest : List Block) (old_cap : ℕ)
      → s.rest ≡ rest
      → old_cap ≡ s.capacity - s.position
      → Grown s count (attach wider old_cap added)
  unfolding attach extend
  attach-Grown [] zero e c = attach_full (omega (arith, IsValid-position-le s v)) e
  attach-Grown (b ∷ bs) zero e c = absurd (crowded b bs e c)
    where
      crowded : (b : Block) (bs : List Block) → s.rest ≡ b ∷ bs → 0 ≡ s.capacity - s.position → ⊥
      crowded b bs e c =
          let l = subst (Located (length (flat s.before)) s.position) e v.located in
          omega (arith, l.1, v.capacity_lem, ap (λ t. length (flat t)) e, length-append b (flat bs))
  attach-Grown [] (suc k) e c =
      let l = subst (Located (length (flat s.before)) s.position) e v.located in
      absurd (omega (arith, l, v.capacity_lem, ap (λ t. length (flat t)) e))
  attach-Grown (b ∷ bs) (suc k) e c =
      subst (Grown s count) (sym (attach_more k b bs e)) (attach_behind b bs e)

grow-Grown :
    (a : Allocator) (n : ℕ) (s : ByteArray)
    → IsValid s
    → Grown s (added_count s n) (grow a (s.capacity - s.position) (n - (s.capacity - s.position)) s)
unfolding grow
grow-Grown a n s v =
    attach-Grown s v _ _ (new_nodes-Sized a s.base_size _ _) (length-new_nodes a s.base_size _ _)
      s.rest (s.capacity - s.position) refl refl

Grown-none : (s : ByteArray) → IsValid s → Grown s 0 s
Grown-none s v = record {
  valid = v;
  position_same = refl;
  size_same = refl;
  base_size_same = refl;
  capacity_lem = omega arith;
  extra = [];
  memory_lem = sym (append-nil (memory s));
}

abbrev pub wanted_count : ByteArray → ℕ → ℕ
wanted_count s n = if leb n (s.capacity - s.position) then 0 else added_count s n

remain_capacity_lem : (s : ByteArray) → IsValid s → remain_capacity s ≡ s.capacity - s.position
unfolding remain_capacity
remain_capacity_lem s v = ground (arith, IsValid-position-le s v)

-- `addCapacity` never faults on a valid object: it adds the nodes that it counts, in the list
-- behind the others, and changes no byte.
pub add_capacity-Grown :
    (a : Allocator) (n : ℕ) (s : ByteArray)
    → IsValid s
    → (s' : ByteArray) × (add_capacity a n s ≡ ok s') × Grown s (wanted_count s n) s'
unfolding add_capacity
add_capacity-Grown a n s v = elim (Bool-cases (leb n (s.capacity - s.position))) [
  | inl e ↦ (s, ground (arith, remain_capacity_lem s v), rw e (Grown-none s v))
  | inr e ↦ (
    grow a (s.capacity - s.position) (n - (s.capacity - s.position)) s,
    ground (arith, remain_capacity_lem s v, v.base_pos),
    rw e (grow-Grown a n s v),
  )
]
