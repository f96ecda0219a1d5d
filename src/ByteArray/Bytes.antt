-- ===== src/ByteArray/Bytes.antt =====
-- Runs of bytes inside one block, and in the blocks one behind the other: what `memcpy` writes at
-- an offset (tw/bytearray.cc).
use native.Mathlib.Nat.{zero-add}
use tw_server.Base.{
  ℕ, zero, suc, ◌+◌, ◌≤◌, ◌≡◌, refl, ap, sym, List, [], ◌∷◌, ◌++◌, length, take, drop, arith,
  append_assoc, append-nil, length-append, ◌∙◌,
}

abbrev pub Block : Type 0
Block = List ℕ

-- memcpy(block + i, vs, length vs) within the block.
unfoldable pub overwrite : ℕ → List ℕ → Block → Block
overwrite i vs [] = []
overwrite zero [] (x ∷ xs) = x ∷ xs
overwrite zero (v ∷ vs) (x ∷ xs) = v ∷ overwrite zero vs xs
overwrite (suc i) vs (x ∷ xs) = x ∷ overwrite i vs xs

-- memcpy(buf, block + i, n).
abbrev pub slice : ℕ → ℕ → Block → List ℕ
slice i n b = take n (drop i b)

abbrev pub flat : List Block → List ℕ
flat [] = []
flat (b ∷ bs) = b ++ flat bs

pub flat-append : (cs bs : List Block) → flat (cs ++ bs) ≡ flat cs ++ flat bs
flat-append [] bs = refl
flat-append (c ∷ cs) bs = rw (flat-append cs bs, append_assoc)

pub length-overwrite : (i : ℕ) (vs : List ℕ) (b : Block) → length (overwrite i vs b) ≡ length b
unfolding overwrite
length-overwrite i vs [] = refl
length-overwrite zero [] (x ∷ xs) = refl
length-overwrite zero (v ∷ vs) (x ∷ xs) = ap suc (length-overwrite zero vs xs)
length-overwrite (suc i) vs (x ∷ xs) = ap suc (length-overwrite i vs xs)

pub overwrite-nil : (i : ℕ) (b : Block) → overwrite i [] b ≡ b
unfolding overwrite
overwrite-nil i [] = refl
overwrite-nil zero (x ∷ xs) = refl
overwrite-nil (suc i) (x ∷ xs) = ap (λ t. x ∷ t) (overwrite-nil i xs)

-- A run that starts `k` bytes before the end of the first part may go on in the second.
pub overwrite-append :
    (i k : ℕ) (vs : List ℕ) (b r : Block)
    → length b ≡ i + k
    → overwrite i vs (b ++ r) ≡ overwrite i (take k vs) b ++ overwrite 0 (drop k vs) r
unfolding overwrite
overwrite-append zero zero vs [] r h = refl
overwrite-append zero (suc k) vs [] r h = absurd (omega arith)
overwrite-append (suc i) k vs [] r h = absurd (omega arith)
overwrite-append zero zero vs (x ∷ xs) r h = absurd (omega arith)
overwrite-append zero (suc k) [] (x ∷ xs) r h = ap (λ t. x ∷ (xs ++ t)) (sym (overwrite-nil 0 r))
overwrite-append zero (suc k) (v ∷ vs) (x ∷ xs) r h =
    ap (λ t. v ∷ t) (overwrite-append zero k vs xs r (omega arith))
overwrite-append (suc i) k vs (x ∷ xs) r h =
    ap (λ t. x ∷ t) (overwrite-append i k vs xs r (omega arith))

-- A run behind the first part leaves it alone.
pub overwrite-append_right :
    (j : ℕ) (xs : List ℕ) (i : ℕ) (vs r : List ℕ)
    → j ≡ length xs + i
    → overwrite j vs (xs ++ r) ≡ xs ++ overwrite i vs r
unfolding overwrite
overwrite-append_right j [] i vs r h = ap (λ t. overwrite t vs r) (omega arith)
overwrite-append_right zero (x ∷ xs) i vs r h = absurd (omega arith)
overwrite-append_right (suc j) (x ∷ xs) i vs r h =
    ap (λ t. x ∷ t) (overwrite-append_right j xs i vs r (omega arith))

-- What was written is read back, and the bytes in front and behind are as they were.
slice-overwrite :
    (i : ℕ) (vs : List ℕ) (b : Block)
    → i + length vs ≤ length b
    → slice i (length vs) (overwrite i vs b) ≡ vs
unfolding overwrite
slice-overwrite zero [] b h = refl
slice-overwrite zero (v ∷ vs) [] h = absurd (omega arith)
slice-overwrite zero (v ∷ vs) (x ∷ xs) h =
    ap (λ t. v ∷ t) (slice-overwrite zero vs xs (omega arith))
slice-overwrite (suc i) vs [] h = absurd (omega arith)
slice-overwrite (suc i) vs (x ∷ xs) h = slice-overwrite i vs xs (omega arith)

take-overwrite : (n i : ℕ) (vs : List ℕ) (b : Block) → n ≤ i → take n (overwrite i vs b) ≡ take n b
unfolding overwrite
take-overwrite zero i vs b h = refl
take-overwrite (suc n) i vs [] h = refl
take-overwrite (suc n) zero vs (x ∷ xs) h = elim h [ ]
take-overwrite (suc n) (suc i) vs (x ∷ xs) h =
    ap (λ t. x ∷ t) (take-overwrite n i vs xs (omega arith))

drop-overwrite :
    (n i : ℕ) (vs : List ℕ) (b : Block) → i + length vs ≤ n → drop n (overwrite i vs b) ≡ drop n b
unfolding overwrite
drop-overwrite n i vs [] h = refl
drop-overwrite n zero [] (x ∷ xs) h = refl
drop-overwrite zero zero (v ∷ vs) (x ∷ xs) h = absurd (omega arith)
drop-overwrite (suc n) zero (v ∷ vs) (x ∷ xs) h = drop-overwrite n zero vs xs (omega arith)
drop-overwrite zero (suc i) vs (x ∷ xs) h = absurd (omega arith)
drop-overwrite (suc n) (suc i) vs (x ∷ xs) h = drop-overwrite n i vs xs (omega arith)

-- A read that starts `k` bytes before the end of the first part may go on in the second.
pub slice-append :
    (i k n : ℕ) (b r : Block) → length b ≡ i + k → slice i (k + n) (b ++ r) ≡ drop i b ++ take n r
slice-append zero zero n [] r h = rw zero-add
slice-append zero (suc k) n [] r h = absurd (omega arith)
slice-append (suc i) k n [] r h = absurd (omega arith)
slice-append zero zero n (x ∷ xs) r h = absurd (omega arith)
slice-append zero (suc k) n (x ∷ xs) r h =
    let e : suc k + n ≡ suc (k + n) = omega arith in
    rw e (ap (λ t. x ∷ t) (slice-append zero k n xs r (omega arith)))
slice-append (suc i) k n (x ∷ xs) r h = slice-append i k n xs r (omega arith)

pub slice-append_left :
    (i n : ℕ) (b r : Block) → i + n ≤ length b → slice i n (b ++ r) ≡ slice i n b
slice-append_left zero zero b r h = refl
slice-append_left zero (suc n) [] r h = absurd (omega arith)
slice-append_left zero (suc n) (x ∷ xs) r h =
    ap (λ t. x ∷ t) (slice-append_left zero n xs r (omega arith))
slice-append_left (suc i) n [] r h = absurd (omega arith)
slice-append_left (suc i) n (x ∷ xs) r h = slice-append_left i n xs r (omega arith)

pub drop-append_right : (j i : ℕ) (xs r : List ℕ) → j ≡ length xs + i → drop j (xs ++ r) ≡ drop i r
drop-append_right j i [] r h = ap (λ t. drop t r) (omega arith)
drop-append_right zero i (x ∷ xs) r h = absurd (omega arith)
drop-append_right (suc j) i (x ∷ xs) r h = drop-append_right j i xs r (omega arith)

pub flat_snoc : (bs : List Block) (b : Block) → flat (bs ++ b ∷ []) ≡ flat bs ++ b
flat_snoc bs b = flat-append bs (b ∷ []) ∙ ap (λ t. flat bs ++ t) (append-nil b)

pub length-flat_snoc :
    (bs : List Block) (b : Block) → length (flat (bs ++ b ∷ [])) ≡ length (flat bs) + length b
length-flat_snoc bs b = rw flat_snoc (length-append (flat bs) b)
