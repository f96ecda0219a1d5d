-- ===== src/ByteArray/Invariant.antt =====
-- The well-formedness of a ByteArray (tw/bytearray.h, the members and their meaning).
use tw_server.Base.{
  ℕ, ◌+◌, ◌*◌, ◌%◌, ◌≤◌, ◌<◌, ◌≡◌, refl, List, [], ◌∷◌, ◌++◌, length, All, arith, length-append,
}
use tw_server.ByteArray.Bytes.{Block, flat}
use tw_server.ByteArray.{ByteArray}

-- The bytes of all nodes, written or not.
abbrev pub memory : ByteArray → List ℕ
memory s = flat s.before ++ flat s.rest

abbrev pub Sized : ℕ → List Block → Type 0
Sized n bs = All (λ b. length b ≡ n) bs

-- The position lies in the node m_cur, or m_cur is null and the position is behind the last node.
abbrev pub Located : ℕ → ℕ → List Block → Type 0
Located passed position [] = position ≡ passed
Located passed position (b ∷ bs) = (passed ≤ position) × (position < passed + length b)

pub record IsValid (s : ByteArray) : Type 0 where
  pub base_pos : 0 < s.base_size
  pub has_root : 0 < s.capacity
  pub sized_before : Sized s.base_size s.before
  pub sized_rest : Sized s.base_size s.rest
  pub capacity_lem : s.capacity ≡ length (flat s.before) + length (flat s.rest)
  pub located : Located (length (flat s.before)) s.position s.rest
  pub position-le : s.position ≤ s.size
  pub size-le : s.size ≤ s.capacity

pub length-flat : (n : ℕ) (bs : List Block) → Sized n bs → length (flat bs) ≡ length bs * n
length-flat n [] h = omega arith
length-flat n (b ∷ bs) h = grind (arith, length-append b (flat bs), length-flat n bs h.1)

mod_of_multiple : (k n r p : ℕ) → r < n → p ≡ k * n + r → p % n ≡ r
mod_of_multiple k n r p h e = grind arith

-- `m_position % m_baseSize` is the offset in the node m_cur.
pub position_mod :
    (n : ℕ) (before : List Block) (p r : ℕ)
    → Sized n before
    → r < n
    → p ≡ length (flat before) + r
    → p % n ≡ r
position_mod n before p r h lt e =
    mod_of_multiple (length before) n r p lt (omega (arith, length-flat n before h))

-- At the start of a node that holds bytes.
pub Located-at_start : (n p : ℕ) (rest : List Block) → 0 < n → Sized n rest → Located p p rest
Located-at_start n p [] pos h = refl
Located-at_start n p (b ∷ bs) pos h = (omega arith, omega arith)
