-- ===== src/Stream/Laws.antt =====
-- What the loops of tw/stream.cc return, by what the transport returns to them.
use tw_server.Base.{
  ℕ, ◌+◌, ◌-◌, ◌^◌, ◌≤◌, ◌<◌, ◌≡◌, ◌≢◌, ◌⊎◌, inl, inr, refl, ap, ◌∙◌, List, [], ◌∷◌, ◌++◌, length,
  ◌==◌, if◌then◌else◌, arith, Bool-cases, false, All, append_assoc, append-nil, leb,
}
use tw_server.Stream.{Transfer, failed, nothing, moved, whole, blocked, read_fix_size, wrap64}

-- The transport gives at least one byte a call and in all the bytes that are wanted.
abbrev pub Delivers : List (List ℕ) → ℕ → Type 0
Delivers [] left = left ≡ 0
Delivers (bytes ∷ l) left =
    (0 < length bytes) × (length bytes ≤ left) × Delivers l (left - length bytes)

abbrev pub transfers : List (List ℕ) → List Transfer
transfers [] = []
transfers (bytes ∷ l) = moved bytes ∷ transfers l

-- The pieces one behind the other, from an offset.
abbrev pub pieces_from : ℕ → List (List ℕ) → List (ℕ × List ℕ)
pieces_from offset [] = []
pieces_from offset (bytes ∷ l) = (offset, bytes) ∷ pieces_from (offset + length bytes) l

pub read_pieces :
    (l : List (List ℕ)) (offset left : ℕ) (pieces : List (ℕ × List ℕ))
    → offset + left < 2 ^ 64
    → Delivers l left
    → read_fix_size (transfers l) offset left pieces ≡ whole (pieces ++ pieces_from offset l)
unfolding read_fix_size
read_pieces [] offset left pieces h d = ground (arith, append-nil pieces)
read_pieces (bytes ∷ l) offset left pieces h d =
    let no_wrap : wrap64 (offset + length bytes) ≡ offset + length bytes = omega arith in
    let taken : (if leb (length bytes) left
          then left - length bytes
          else left + 2 ^ 64 - length bytes)
        ≡ left - length bytes =
      ground arith in
    let going : (left == 0) ≡ false = ground arith in
    rw (going, no_wrap, taken)
      (read_pieces l (offset + length bytes) (left - length bytes) (pieces ++ (offset, bytes) ∷ [])
          (omega arith) d.2
        ∙ ap whole
            (append_assoc pieces ((offset, bytes) ∷ []) (pieces_from (offset + length bytes) l)))

-- However the bytes are cut up on the way, `readFixSize` stores them one behind the other and
-- returns the length.
pub read_fix_size_whole :
    (l : List (List ℕ)) (size : ℕ)
    → size < 2 ^ 64
    → Delivers l size
    → read_fix_size (transfers l) 0 size [] ≡ whole (pieces_from 0 l)
read_fix_size_whole l size h d = read_pieces l 0 size [] (omega arith) d

-- A failure of the transport is never returned: unless the transport once returns 0, the loop ends
-- with the whole length or not at all.
read_fix_size_hides_failure :
    (script : List Transfer) (offset left : ℕ) (pieces : List (ℕ × List ℕ))
    → All (λ t. t ≢ nothing) script
    → ((got : List (ℕ × List ℕ)) × (read_fix_size script offset left pieces ≡ whole got))
      ⊎ (read_fix_size script offset left pieces ≡ blocked)
unfolding read_fix_size
read_fix_size_hides_failure [] offset left pieces h = elim (Bool-cases (left == 0)) [
  | inl e ↦ inl (pieces, rw e)
  | inr e ↦ inr (rw e)
]
read_fix_size_hides_failure (failed ∷ script) offset left pieces h = elim (Bool-cases (left == 0)) [
  | inl e ↦ inl (pieces, rw e)
  | inr e ↦ rw e (read_fix_size_hides_failure script _ _ pieces h.1)
]
read_fix_size_hides_failure (nothing ∷ script) offset left pieces h = absurd (h.0 refl)
read_fix_size_hides_failure (moved bytes ∷ script) offset left pieces h =
    elim (Bool-cases (left == 0)) [
      | inl e ↦ inl (pieces, rw e)
      | inr e ↦ rw e (read_fix_size_hides_failure script _ _ _ h.1)
    ]
