-- ===== src/Base/Bits.antt =====
-- Bit operations as arithmetic: the lowest digit, disjoint fields, masks and complements.
use Prim.Native.Nat.{
  ℕ, zero, suc, ◌+◌, ◌-◌, ◌*◌, ◌/◌, ◌%◌, ◌^◌, ◌≤◌, ◌<◌, min, max, bit_and, bit_or, bit_xor, digits,
  bitwise, differ, bit_and-bitwise, bit_or-bitwise, bit_xor-bitwise,
}
use native.Mathlib.Nat.{pow-suc, div-add-mod, div-add-mod', mod-lt, mod-eq_of_lt, one-le-pow}
use mathlib.Core.Path.{◌≡◌, refl, ap, sym, ◌∙◌}
use native.Mathlib.Omega.{arith}

module _ (last : ℕ → ℕ) (op : ℕ → ℕ → ℕ) where
  -- Any two counts of rounds that cover the first number give the same digits.
  rounds_enough : (g x y h : ℕ) → x ≤ g → x ≤ h → digits last op g x y ≡ digits last op h x y
  rounds_enough zero zero y zero p q = refl
  rounds_enough (suc g) zero y zero p q = refl
  rounds_enough zero zero y (suc h) p q = refl
  rounds_enough (suc g) zero y (suc h) p q = refl
  rounds_enough zero (suc x) y h p q = absurd (omega arith)
  rounds_enough (suc g) (suc x) y zero p q = absurd (omega arith)
  rounds_enough (suc g) (suc x) y (suc h) p q =
      ap (λ t. t * 2 + op (suc x % 2) (y % 2))
        (rounds_enough g (suc x / 2) (y / 2) h (omega arith) (omega arith))

  lowest_digit :
      (x y : ℕ)
      → bitwise last op (suc x) y ≡ bitwise last op (suc x / 2) (y / 2) * 2 + op (suc x % 2) (y % 2)
  lowest_digit x y =
      ap (λ t. t * 2 + op (suc x % 2) (y % 2))
        (rounds_enough x (suc x / 2) (y / 2) (suc x / 2) (omega arith) (omega arith))

or_digit : (a b : ℕ) → bit_or a b ≡ bit_or (a / 2) (b / 2) * 2 + max (a % 2) (b % 2)
or_digit zero b = simp bit_or-bitwise (omega arith)
or_digit (suc a) b = simp bit_or-bitwise (lowest_digit (λ y. y) max a b)

and_digit : (a b : ℕ) → bit_and a b ≡ bit_and (a / 2) (b / 2) * 2 + min (a % 2) (b % 2)
and_digit zero b = simp bit_and-bitwise (omega arith)
and_digit (suc a) b = simp bit_and-bitwise (lowest_digit (λ y. 0) min a b)

xor_digit : (a b : ℕ) → bit_xor a b ≡ bit_xor (a / 2) (b / 2) * 2 + differ (a % 2) (b % 2)
xor_digit zero b = simp bit_xor-bitwise (omega arith)
xor_digit (suc a) b = simp bit_xor-bitwise (lowest_digit (λ y. y) differ a b)

or-zero : (n a : ℕ) → a ≤ n → bit_or a 0 ≡ a
or-zero n zero h = refl
or-zero zero (suc a) h = absurd (omega arith)
or-zero (suc n) (suc a) h = omega (arith, or_digit (suc a) 0, or-zero n (suc a / 2) (omega arith))

pub double_pow : (c k : ℕ) → c * 2 ^ suc k ≡ 2 * (c * 2 ^ k)
double_pow c k = omega (arith, ap (λ (t : ℕ). c * t) (pow-suc 2 k))

-- A field put in above the bits that are set is a sum.
pub or_field : (k r c : ℕ) → r < 2 ^ k → bit_or r (c * 2 ^ k) ≡ r + c * 2 ^ k
or_field zero zero c h = simp bit_or-bitwise (omega arith)
or_field zero (suc r) c h = absurd (omega arith)
or_field (suc k) r c h = omega (
  arith,
  or_digit r (c * 2 ^ suc k),
  double_pow c k,
  pow-suc 2 k,
  ap (λ (t : ℕ). bit_or (r / 2) t) (halved c k),
  or_field k (r / 2) c (omega (arith, pow-suc 2 k)),
)
  where
    halved : (c k : ℕ) → c * 2 ^ suc k / 2 ≡ c * 2 ^ k
    halved c k = omega (arith, double_pow c k)

and-zero : (n a : ℕ) → a ≤ n → bit_and a 0 ≡ 0
and-zero n zero h = refl
and-zero zero (suc a) h = absurd (omega arith)
and-zero (suc n) (suc a) h =
    omega (arith, and_digit (suc a) 0, and-zero n (suc a / 2) (omega arith))

and_low : (k q r m : ℕ) → m + 1 ≡ 2 ^ k → r < 2 ^ k → bit_and (q * 2 ^ k + r) m ≡ r
and_low zero q r m e h =
    let z : m ≡ 0 = omega arith in
    rw z (omega (arith, and-zero (q * 2 ^ 0 + r) (q * 2 ^ 0 + r) (omega arith)))
and_low (suc k) q r m e h =
    let n = q * 2 ^ suc k + r in
    let half : n / 2 ≡ q * 2 ^ k + r / 2 = omega (arith, double_pow q k) in
    let odd : m % 2 ≡ 1 = omega (arith, pow-suc 2 k) in
    omega (
      arith,
      and_digit n m,
      ap (λ (t : ℕ). bit_and t (m / 2)) half,
      double_pow q k,
      pow-suc 2 k,
      and_low k q (r / 2) (m / 2) (omega (arith, pow-suc 2 k)) (omega (arith, pow-suc 2 k)),
    )

-- A mask of the low `k` bits.
pub and_mask : (k a m : ℕ) → m + 1 ≡ 2 ^ k → bit_and a m ≡ a % 2 ^ k
and_mask k a m e =
    ap (λ (t : ℕ). bit_and t m) (grind (arith, div-add-mod a (2 ^ k)))
    ∙ and_low k (a / 2 ^ k) (a % 2 ^ k) m e (mod-lt a (omega arith))

differ_one : (r : ℕ) → r < 2 → differ r 1 ≡ 1 - r
differ_one zero h = refl
differ_one (suc zero) h = refl
differ_one (suc (suc r)) h = absurd (omega arith)

-- `x ^ -1` in `k` bits.
pub xor_ones : (k x m : ℕ) → m + 1 ≡ 2 ^ k → x < 2 ^ k → bit_xor x m ≡ m - x
xor_ones zero x m e h = let z : x ≡ 0 = omega arith in rw z (simp bit_xor-bitwise (omega arith))
xor_ones (suc k) x m e h =
    let odd : m % 2 ≡ 1 = omega (arith, pow-suc 2 k) in
    omega (
      arith,
      xor_digit x m,
      ap (differ (x % 2)) odd,
      differ_one (x % 2) (omega arith),
      pow-suc 2 k,
      xor_ones k (x / 2) (m / 2) (omega (arith, pow-suc 2 k)) (omega (arith, pow-suc 2 k)),
    )

differ_none : (r : ℕ) → differ r 0 ≡ r
differ_none zero = refl
differ_none (suc r) = refl

xor_zero_rounds : (n a : ℕ) → a ≤ n → bit_xor a 0 ≡ a
xor_zero_rounds n zero h = refl
xor_zero_rounds zero (suc a) h = absurd (omega arith)
xor_zero_rounds (suc n) (suc a) h = omega (
  arith,
  xor_digit (suc a) 0,
  differ_none (suc a % 2),
  xor_zero_rounds n (suc a / 2) (omega arith),
)

pub xor-zero : (a : ℕ) → bit_xor a 0 ≡ a
xor-zero a = xor_zero_rounds a a (omega arith)

or_low : (k q r m : ℕ) → m + 1 ≡ 2 ^ k → r < 2 ^ k → bit_or (q * 2 ^ k + r) m ≡ q * 2 ^ k + m
or_low zero q r m e h =
    let z : m ≡ 0 = omega arith in
    rw z (omega (arith, or-zero (q * 2 ^ 0 + r) (q * 2 ^ 0 + r) (omega arith)))
or_low (suc k) q r m e h =
    let n = q * 2 ^ suc k + r in
    let half : n / 2 ≡ q * 2 ^ k + r / 2 = omega (arith, double_pow q k) in
    let odd : m % 2 ≡ 1 = omega (arith, pow-suc 2 k) in
    omega (
      arith,
      or_digit n m,
      ap (λ (t : ℕ). bit_or t (m / 2)) half,
      double_pow q k,
      pow-suc 2 k,
      or_low k q (r / 2) (m / 2) (omega (arith, pow-suc 2 k)) (omega (arith, pow-suc 2 k)),
    )

-- The low `k` bits set.
pub or_mask : (k a m : ℕ) → m + 1 ≡ 2 ^ k → bit_or a m ≡ a / 2 ^ k * 2 ^ k + m
or_mask k a m e =
    ap (λ (t : ℕ). bit_or t m) (sym (div-add-mod' a (2 ^ k)))
    ∙ or_low k (a / 2 ^ k) (a % 2 ^ k) m e (mod-lt a (omega arith))

and_high : (k q r p : ℕ) → r < 2 ^ k → bit_and (q * 2 ^ k + r) (p * 2 ^ k) ≡ bit_and q p * 2 ^ k
and_high zero q r p h =
    let a : q * 2 ^ 0 + r ≡ q = omega arith in
    let b : p * 2 ^ 0 ≡ p = omega arith in rw (a, b) (omega arith)
and_high (suc k) q r p h =
    let n = q * 2 ^ suc k + r in
    let half : n / 2 ≡ q * 2 ^ k + r / 2 = omega (arith, double_pow q k) in
    let half' : p * 2 ^ suc k / 2 ≡ p * 2 ^ k = omega (arith, double_pow p k) in
    let even : p * 2 ^ suc k % 2 ≡ 0 = omega (arith, double_pow p k) in
    let c = bit_and q p in
    omega (
      arith,
      and_digit n (p * 2 ^ suc k),
      ap (λ (t : ℕ). bit_and t (p * 2 ^ suc k / 2)) half,
      ap (λ (t : ℕ). bit_and (q * 2 ^ k + r / 2) t) half',
      double_pow c k,
      pow-suc 2 k,
      and_high k q (r / 2) p (omega (arith, pow-suc 2 k)),
    )

-- The low `k` bits of a number of `j + k` bits cleared.
pub and_high_mask :
    (j k a p : ℕ) → p + 1 ≡ 2 ^ j → a / 2 ^ k < 2 ^ j → bit_and a (p * 2 ^ k) ≡ a / 2 ^ k * 2 ^ k
and_high_mask j k a p e h =
    ap (λ (t : ℕ). bit_and t (p * 2 ^ k)) (sym (div-add-mod' a (2 ^ k)))
    ∙ and_high k (a / 2 ^ k) (a % 2 ^ k) p (mod-lt a (one-le-pow k 2 (omega arith)))
    ∙ ap (λ (t : ℕ). t * 2 ^ k) (and_mask j (a / 2 ^ k) p e ∙ mod-eq_of_lt h)

and_self : (n a : ℕ) → a ≤ n → bit_and a a ≡ a
and_self n zero h = refl
and_self zero (suc a) h = absurd (omega arith)
and_self (suc n) (suc a) h =
    omega (arith, and_digit (suc a) (suc a), and_self n (suc a / 2) (omega arith))

-- `x & (x - 1)` drops the lowest bit that is set.
pub and_pred_odd : (h : ℕ) → bit_and (2 * h + 1) (2 * h) ≡ 2 * h
and_pred_odd h =
    let a : (2 * h + 1) / 2 ≡ h = omega arith in
    let b : 2 * h / 2 ≡ h = omega arith in
    omega (
      arith,
      and_digit (2 * h + 1) (2 * h),
      ap (λ (t : ℕ). bit_and t (2 * h / 2)) a,
      ap (λ (t : ℕ). bit_and h t) b,
      and_self h h (omega arith),
    )

pub and_pred_even : (h : ℕ) → bit_and (2 * suc h) (2 * h + 1) ≡ 2 * bit_and (suc h) h
and_pred_even h =
    let a : 2 * suc h / 2 ≡ suc h = omega arith in
    let b : (2 * h + 1) / 2 ≡ h = omega arith in
    omega (
      arith,
      and_digit (2 * suc h) (2 * h + 1),
      ap (λ (t : ℕ). bit_and t ((2 * h + 1) / 2)) a,
      ap (λ (t : ℕ). bit_and (suc h) t) b,
    )
