-- ===== src/Address/Ordering.antt =====
-- The order of addresses (tw/address.cc, operator<).
use tw_server.Base.{
  ℕ, suc, ◌≡◌, ◌↔◌, refl, ap, sym, ◌∙◌, true, false, [], ◌∷◌, ◌++◌, length, ltb, ◌==◌,
  if◌then◌else◌, min, inl, inr, Bool-cases, ==_iff, arith,
}
use tw_server.Address.{Bytes, Comparison, memcmp, less_from, less}

-- The first is the beginning of the second, and shorter.
abbrev pub IsProperPrefix : Bytes → Bytes → Type 0
IsProperPrefix l r = (c : ℕ) × (rest : Bytes) × (r ≡ l ++ c ∷ rest)

less-nil : (r : Bytes) → less [] r ≡ ltb 0 (length r)
unfolding less memcmp
less-nil r = let z : min 0 (length r) ≡ 0 = omega arith in rw z refl

less-cons_nil : (x : ℕ) (l : Bytes) → less (x ∷ l) [] ≡ false
unfolding less memcmp
less-cons_nil x l = let z : min (suc (length l)) 0 ≡ 0 = omega arith in rw z (ground arith)

ltb-suc : (m n : ℕ) → ltb (suc m) (suc n) ≡ ltb m n
ltb-suc m n = ground arith

less_from-suc : (c : Comparison) (m n : ℕ) → less_from c (suc m) (suc n) ≡ less_from c m n
less_from-suc Comparison.below m n = refl
less_from-suc Comparison.same m n = ltb-suc m n
less_from-suc Comparison.above m n = refl

less-cons : (x y : ℕ) (l r : Bytes) → less (x ∷ l) (y ∷ r) ≡ (if x == y then less l r else false)
unfolding less memcmp
less-cons x y l r =
    let z : min (suc (length l)) (suc (length r)) ≡ suc (min (length l) (length r)) = omega arith in
    elim (Bool-cases (ltb x y)) [
      | inl f ↦ let e : (x == y) ≡ false = ground arith in rw (z, f, e) refl
      | inr f ↦ elim (Bool-cases (ltb y x)) [
        | inl g ↦ let e : (x == y) ≡ false = ground arith in rw (z, f, g, e) refl
        | inr g ↦
            let e : (x == y) ≡ true = ground arith in
            rw (z, f, g, e)
              (less_from-suc (memcmp (min (length l) (length r)) l r) (length l) (length r))
      ]
    ]

less→IsProperPrefix : (l r : Bytes) → less l r ≡ true → IsProperPrefix l r
less→IsProperPrefix [] [] h = let z : false ≡ true = sym (less-nil []) ∙ h in cc
less→IsProperPrefix [] (y ∷ r) h = (y, r, refl)
less→IsProperPrefix (x ∷ l) [] h = let z : false ≡ true = sym (less-cons_nil x l) ∙ h in cc
less→IsProperPrefix (x ∷ l) (y ∷ r) h = elim (Bool-cases (x == y)) [
  | inr f ↦ let z : false ≡ true = sym (less-cons x y l r ∙ rw f refl) ∙ h in cc
  | inl f ↦
      let (c, rest, e) = less→IsProperPrefix l r (sym (less-cons x y l r ∙ rw f refl) ∙ h) in
      (c, rest, rw ((==_iff x y).0 f, e) refl)
]

IsProperPrefix→less : (l rest : Bytes) (c : ℕ) → less l (l ++ c ∷ rest) ≡ true
IsProperPrefix→less [] rest c = less-nil (c ∷ rest) ∙ ground arith
IsProperPrefix→less (x ∷ l) rest c =
    less-cons x x l (l ++ c ∷ rest) ∙ rw ((==_iff x x).1 refl) (IsProperPrefix→less l rest c)

-- One address is less than another exactly where its bytes are a proper beginning of the other's,
-- so of two different addresses of the same length neither is less.
pub less_lem : (l r : Bytes) → (less l r ≡ true) ↔ IsProperPrefix l r
less_lem l r = (less→IsProperPrefix l r, λ p. ap (less l) (p.2) ∙ IsProperPrefix→less l (p.1) (p.0))
