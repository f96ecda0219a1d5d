-- ===== src/Address/Counting.antt =====
-- CountBytes counts the bits that are set (tw/address.cc).
use Prim.Native.Nat.{bit_and}
use native.Mathlib.Nat.{pow-suc}
use tw_server.Base.{
  ℕ, zero, suc, ◌+◌, ◌-◌, ◌*◌, ◌/◌, ◌%◌, ◌^◌, ◌≤◌, ◌<◌, ◌≡◌, refl, ap, sym, ◌∙◌, ◌⊎◌, some, ◌==◌,
  inl, inr, Bool-cases, arith,
}
use tw_server.Base.Bits.{and_pred_odd, and_pred_even}
use tw_server.Address.{count_rounds, count_bytes}

-- The sum of the last `n` binary digits.
abbrev pub ones : ℕ → ℕ → ℕ
ones zero v = 0
ones (suc n) v = v % 2 + ones n (v / 2)

ones-zero : (n : ℕ) → ones n 0 ≡ 0
ones-zero zero = refl
ones-zero (suc n) = omega (arith, ones-zero n)

ones-le : (n v : ℕ) → ones n v ≤ n
ones-le zero v = omega arith
ones-le (suc n) v = omega (arith, ones-le n (v / 2))

-- The number without its lowest bit.
abbrev dropped : ℕ → ℕ
dropped v = bit_and v (v - 1)

dropped_odd : (h : ℕ) → dropped (2 * h + 1) ≡ 2 * h
dropped_odd h =
    let e : 2 * h + 1 - 1 ≡ 2 * h = omega arith in
    ap (λ t. bit_and (2 * h + 1) t) e ∙ and_pred_odd h

dropped_even : (h : ℕ) → dropped (2 * suc h) ≡ 2 * dropped (suc h)
dropped_even h =
    let e : 2 * suc h - 1 ≡ 2 * h + 1 = omega arith in
    let f : suc h - 1 ≡ h = omega arith in
    ap (λ t. bit_and (2 * suc h) t) e ∙ and_pred_even h ∙ ap (λ t. 2 * bit_and (suc h) t) (sym f)

pub ones-double : (n h : ℕ) → ones (suc n) (2 * h) ≡ ones n h
ones-double n h = let e : 2 * h / 2 ≡ h = omega arith in omega (arith, ap (ones n) e)

ones-double_one : (n h : ℕ) → ones (suc n) (2 * h + 1) ≡ ones n h + 1
ones-double_one n h = let e : (2 * h + 1) / 2 ≡ h = omega arith in omega (arith, ap (ones n) e)

halves : (v : ℕ) → 0 < v → ((h : ℕ) × (v ≡ 2 * h + 1)) ⊎ ((h : ℕ) × (v ≡ 2 * suc h))
halves v pos = elim (Bool-cases (v % 2 == 0)) [
  | inr odd ↦ inl (v / 2, ground arith)
  | inl even ↦ inr (v / 2 - 1, ground arith)
]

-- A round takes one bit that is set away.
dropped_lem :
    (n v : ℕ) → 0 < v → v < 2 ^ n → (dropped v < 2 ^ n) × (ones n (dropped v) + 1 ≡ ones n v)
dropped_lem zero v pos lt = absurd (omega arith)
dropped_lem (suc n) v pos lt = elim (halves v pos) [
  | inl (h, e) ↦
      rw (e, dropped_odd h)
        (omega (arith, pow-suc 2 n), omega (arith, ones-double n h, ones-double_one n h))
  | inr (h, e) ↦
      let (small, one) = dropped_lem n (suc h) (omega arith) (omega (arith, pow-suc 2 n)) in
      rw (e, dropped_even h)
        (
          omega (arith, pow-suc 2 n),
          omega (arith, ones-double n (dropped (suc h)), ones-double n (suc h)),
        )
]

none_set : (n v : ℕ) → v < 2 ^ n → ones n v ≡ 0 → v ≡ 0
none_set zero v lt e = omega arith
none_set (suc n) v lt e =
    omega (arith, none_set n (v / 2) (omega (arith, pow-suc 2 n)) (omega arith))

-- The loop ends after as many rounds as bits are set.
count_rounds_lem :
    (n fuel v : ℕ) → v < 2 ^ n → ones n v ≤ fuel → count_rounds (suc fuel) v ≡ some (ones n v)
unfolding count_rounds
count_rounds_lem n zero v lt le =
    let e = none_set n v lt (omega arith) in rw e (ap some (sym (ones-zero n)))
count_rounds_lem n (suc fuel) v lt le = elim (Bool-cases (v == 0)) [
  | inl z ↦ let e : v ≡ 0 = ground arith in rw e (ap some (sym (ones-zero n)))
  | inr nz ↦
      let (small, one) = dropped_lem n v (ground arith) lt in
      let later = count_rounds_lem n fuel (dropped v) small (omega arith) in
      rw (nz, later) (ap some (omega arith))
]

-- `CountBytes` of a 32-bit value ends, and gives the number of its bits that are set, which is at
-- most 32.
pub count_bytes_lem : (v : ℕ) → v < 2 ^ 32 → (count_bytes v ≡ some (ones 32 v)) × (ones 32 v ≤ 32)
unfolding count_bytes
count_bytes_lem v lt = (count_rounds_lem 32 32 v lt (ones-le 32 v), ones-le 32 v)
