-- ===== src/ByteArray/Room.antt =====
-- When the nodes that `addCapacity` adds are enough for a `write` (tw/bytearray.cc).
use native.Mathlib.Nat.{div-add-mod, mod-lt}
use tw_server.Base.{
  ℕ, ◌+◌, ◌-◌, ◌*◌, ◌/◌, ◌%◌, ◌≤◌, ◌<◌, ◌≡◌, ◌≢◌, ◌⊎◌, ap, subst, List, [], ◌∷◌, ◌++◌, length, take,
  drop, arith, inl, inr, ltb, leb, length-append, if◌then◌else◌, Bool-cases,
}
use tw_server.ByteArray.Bytes.{Block, flat}
use tw_server.ByteArray.{ByteArray}
use tw_server.ByteArray.Invariant.{memory, Sized, Located, IsValid, position_mod}
use tw_server.ByteArray.Capacity.{wanted_count, added_count, IsValid-position-le}

-- The bytes up to m_size, which is what the object holds for its users.
abbrev pub content : ByteArray → List ℕ
content s = take s.size (memory s)

-- `vs` in place of what stands from `i` on.
abbrev pub splice : ℕ → List ℕ → List ℕ → List ℕ
splice i vs xs = take i xs ++ (vs ++ drop (i + length vs) xs)

-- Whether the nodes that `addCapacity` counts are enough for `n` bytes at the position.
abbrev pub HasRoom : ByteArray → ℕ → Type 0
HasRoom s n =
    let old_cap = s.capacity - s.position in
    (n ≤ old_cap) ⊎ ((n - old_cap) % s.base_size ≡ 0) ⊎ (old_cap < (n - old_cap) % s.base_size)

count_enough :
    (n r c : ℕ)
    → 0 < n
    → (r % n ≡ 0) ⊎ (c < r % n)
    → r ≤ n * (r / n + (if ltb c (r % n) then 1 else 0))
count_enough n r c h (inl e) = grind (arith, div-add-mod r n)
count_enough n r c h (inr e) = grind (arith, div-add-mod r n, mod-lt r h)

count_short :
    (n r c : ℕ)
    → 0 < n
    → r % n ≢ 0
    → ¬ (c < r % n)
    → n * (r / n + (if ltb c (r % n) then 1 else 0)) < r
count_short n r c h e f = grind (arith, div-add-mod r n)

pub HasRoom-enough :
    (s : ByteArray) (n : ℕ)
    → IsValid s
    → HasRoom s n
    → s.position + n ≤ s.capacity + s.base_size * wanted_count s n
HasRoom-enough s n v room = elim (Bool-cases (leb n (s.capacity - s.position))) [
  | inl e ↦ rw e (ground (arith, IsValid-position-le s v))
  | inr e ↦ rw e (bound room)
]
  where
    bound : HasRoom s n → s.position + n ≤ s.capacity + s.base_size * added_count s n
    bound (inl fits) = omega arith
    bound (inr f) = omega (
      arith,
      count_enough s.base_size (n - (s.capacity - s.position)) (s.capacity - s.position) v.base_pos
          f,
      IsValid-position-le s v,
    )

pub HasRoom-short :
    (s : ByteArray) (n : ℕ)
    → IsValid s
    → ¬ HasRoom s n
    → s.capacity + s.base_size * wanted_count s n < s.position + n
HasRoom-short s n v room = elim (Bool-cases (leb n (s.capacity - s.position))) [
  | inl e ↦ absurd (room (inl (ground arith)))
  | inr e ↦ rw e (
      omega (
        arith,
        count_short s.base_size (n - (s.capacity - s.position)) (s.capacity - s.position) v.base_pos
            (λ z. room (inr (inl z))) (λ z. room (inr (inr z))),
        IsValid-position-le s v,
      ))
]

-- Where m_cur is not null, the position is an offset in its node.
pub position_offset :
    (s : ByteArray) (rest : List Block)
    → IsValid s
    → s.rest ≡ rest
    → s.position < s.capacity
    → (s.position ≡ length (flat s.before) + s.position % s.base_size)
      × (s.position % s.base_size < s.base_size)
position_offset s [] v e lt =
    let l = subst (Located (length (flat s.before)) s.position) e v.located in
    absurd (omega (arith, l, v.capacity_lem, ap (λ t. length (flat t)) e))
position_offset s (b ∷ bs) v e lt =
    let l = subst (Located (length (flat s.before)) s.position) e v.located in
    let z = subst (Sized s.base_size) e v.sized_rest in
    let m =
      position_mod s.base_size s.before s.position (s.position - length (flat s.before))
        v.sized_before (omega (arith, l, z.0)) (omega (arith, l)) in
    (omega (arith, l, m), omega (arith, l, z.0, m))

pub position-le-offset :
    (s : ByteArray) (rest : List Block)
    → IsValid s
    → s.rest ≡ rest
    → s.position ≤ length (flat s.before) + s.position % s.base_size
position-le-offset s [] v e =
    let l = subst (Located (length (flat s.before)) s.position) e v.located in omega (arith, l)
position-le-offset s (b ∷ bs) v e =
    let l = subst (Located (length (flat s.before)) s.position) e v.located in
    let below : s.position < s.capacity =
      omega (arith, l.1, v.capacity_lem, ap (λ t. length (flat t)) e, length-append b (flat bs)) in
    omega (arith, (position_offset s (b ∷ bs) v e below).0)
