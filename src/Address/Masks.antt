-- ===== src/Address/Masks.antt =====
-- Network, broadcast and mask of a prefix (tw/address.cc).
use Prim.Native.Nat.{bit_and}
use native.Mathlib.Nat.{
  suc-mul, pow-suc, div-add-mod', mod-lt, one-le-pow, div-lt_iff_lt-mul, mul-le-mul_right,
}
use tw_server.Base.{
  ℕ, zero, suc, ◌+◌, ◌-◌, ◌*◌, ◌/◌, ◌%◌, ◌^◌, ◌≤◌, ◌<◌, ◌≡◌, refl, ap, sym, ◌∙◌, true, false, ◌&&◌,
  some, ok, ltb, leb, arith,
}
use tw_server.Base.Bits.{double_pow, or_mask, and_high_mask, xor_ones}
use tw_server.Address.{
  IPv4Address, create_mask32, complement32, broadcast_address, network_address, subnet_mask,
  count_bytes,
}
use tw_server.Address.Counting.{ones, ones-double, count_bytes_lem}

create_mask32_lem : (p : ℕ) → 2 ≤ p → p ≤ 32 → create_mask32 p ≡ ok (2 ^ (32 - p) - 1)
unfolding create_mask32
create_mask32_lem p lo hi = let e : leb 2 p && leb p 32 ≡ true = ground arith in rw e refl

pow_parts : (a b : ℕ) → 2 ^ a * 2 ^ b ≡ 2 ^ (a + b)
pow_parts a zero = let e : a + 0 ≡ a = omega arith in omega (arith, ap (λ t. 2 ^ t) e)
pow_parts a (suc b) =
    let e : a + suc b ≡ suc (a + b) = omega arith in
    omega (arith, double_pow (2 ^ a) b, pow_parts a b, ap (λ t. 2 ^ t) e, pow-suc 2 (a + b))

pred_mul : (a k : ℕ) → 1 ≤ a → (a - 1) * k + k ≡ a * k
pred_mul zero k h = absurd (omega arith)
pred_mul (suc a) k h =
    let e : suc a - 1 ≡ a = omega arith in omega (arith, ap (λ t. t * k) e, suc-mul a k)

-- The two parts of the 32 bits.
split32 : (p : ℕ) → p ≤ 32 → 2 ^ p * 2 ^ (32 - p) ≡ 2 ^ 32
split32 p hi = let e : p + (32 - p) ≡ 32 = omega arith in pow_parts p (32 - p) ∙ ap (λ t. 2 ^ t) e

complement32_lem : (p : ℕ) → p ≤ 32 → complement32 (2 ^ (32 - p) - 1) ≡ (2 ^ p - 1) * 2 ^ (32 - p)
complement32_lem p hi =
    let k = 2 ^ (32 - p) in
    let a = 2 ^ p in
    let one : 1 ≤ k = one-le-pow (32 - p) 2 (omega arith) in
    let one' : 1 ≤ a = one-le-pow p 2 (omega arith) in
    let whole = split32 p hi in
    let parts = pred_mul a k one' in
    xor_ones 32 (k - 1) (2 ^ 32 - 1) refl (omega (arith, whole, parts))
    ∙ omega (arith, whole, parts)

network_address_lem :
    (p : ℕ) (a : IPv4Address)
    → 2 ≤ p
    → p ≤ 32
    → a.address < 2 ^ 32
    → network_address p a
      ≡ ok (some (record a { address = a.address / 2 ^ (32 - p) * 2 ^ (32 - p) }))
unfolding network_address
network_address_lem p a lo hi small =
    let k = 2 ^ (32 - p) in
    let one : 0 < k = one-le-pow (32 - p) 2 (omega arith) in
    let one' : 1 ≤ 2 ^ p = one-le-pow p 2 (omega arith) in
    let top : a.address / k < 2 ^ p = (div-lt_iff_lt-mul one).1 (omega (arith, split32 p hi)) in
    let e : ltb 32 p ≡ false = ground arith in
    let kept : bit_and a.address (complement32 (k - 1)) ≡ a.address / k * k =
      ap (bit_and a.address) (complement32_lem p hi)
      ∙ and_high_mask p (32 - p) a.address (2 ^ p - 1) (omega arith) top in
    rw (e, create_mask32_lem p lo hi, kept) refl

broadcast_address_lem :
    (p : ℕ) (a : IPv4Address)
    → 2 ≤ p
    → p ≤ 32
    → broadcast_address p a
      ≡ ok (
          some
            (record a { address = a.address / 2 ^ (32 - p) * 2 ^ (32 - p) + (2 ^ (32 - p) - 1) }))
unfolding broadcast_address
broadcast_address_lem p a lo hi =
    let one : 1 ≤ 2 ^ (32 - p) = one-le-pow (32 - p) 2 (omega arith) in
    let e : ltb 32 p ≡ false = ground arith in
    let set = or_mask (32 - p) a.address (2 ^ (32 - p) - 1) (omega arith) in
    rw (e, create_mask32_lem p lo hi, set) refl

-- For a prefix of 2 to 32 bits the network address and the broadcast address of an IPv4 address are
-- the ends of a block of 2^(32 - prefix) addresses that has it.
pub network-broadcast :
    (p : ℕ) (a : IPv4Address)
    → 2 ≤ p
    → p ≤ 32
    → a.address < 2 ^ 32
    → (n b : IPv4Address) × (network_address p a ≡ ok (some n))
      × (broadcast_address p a ≡ ok (some b))
      × (n.address ≤ a.address)
      × (a.address ≤ b.address)
      × (b.address + 1 ≡ n.address + 2 ^ (32 - p))
      × (b.address < 2 ^ 32)
network-broadcast p a lo hi small =
    let k = 2 ^ (32 - p) in
    let one : 0 < k = one-le-pow (32 - p) 2 (omega arith) in
    let q = a.address / k in
    let parts = div-add-mod' a.address k in
    let low : a.address % k < k = mod-lt a.address one in
    let top : q < 2 ^ p = (div-lt_iff_lt-mul one).1 (omega (arith, split32 p hi)) in
    let block : suc q * k ≤ 2 ^ p * k = mul-le-mul_right k top in
    (
      _,
      _,
      network_address_lem p a lo hi small,
      broadcast_address_lem p a lo hi,
      omega (arith, parts),
      omega (arith, parts),
      omega arith,
      omega (arith, block, suc-mul q k, split32 p hi),
    )

ones-shift : (k n v : ℕ) → ones (k + n) (v * 2 ^ k) ≡ ones n v
ones-shift zero n v =
    let e : 0 + n ≡ n = omega arith in let f : v * 2 ^ 0 ≡ v = omega arith in rw (e, f) refl
ones-shift (suc k) n v =
    let e : suc k + n ≡ suc (k + n) = omega arith in
    ap (λ i. ones i (v * 2 ^ suc k)) e
    ∙ ap (ones (suc (k + n))) (double_pow v k)
    ∙ ones-double (k + n) (v * 2 ^ k)
    ∙ ones-shift k n v

ones-full : (j m : ℕ) → m + 1 ≡ 2 ^ j → ones j m ≡ j
ones-full zero m e = refl
ones-full (suc j) m e = omega (arith, pow-suc 2 j, ones-full j (m / 2) (omega (arith, pow-suc 2 j)))

-- The mask of a prefix of 2 to 32 bits has as many bits set as the prefix, which is what the prefix
-- of an interface is counted from.
pub count_bytes-subnet_mask :
    (p : ℕ)
    → 2 ≤ p
    → p ≤ 32
    → (m : IPv4Address) × (subnet_mask p ≡ ok m) × (count_bytes m.address ≡ some p)
unfolding subnet_mask
count_bytes-subnet_mask p lo hi =
    let k = 2 ^ (32 - p) in
    let mask = (2 ^ p - 1) * k in
    let one : 1 ≤ 2 ^ p = one-le-pow p 2 (omega arith) in
    let one' : 1 ≤ k = one-le-pow (32 - p) 2 (omega arith) in
    let small : mask < 2 ^ 32 = omega (arith, pred_mul (2 ^ p) k one, split32 p hi) in
    let all : 32 - p + p ≡ 32 = omega arith in
    let set : ones 32 mask ≡ p =
      ap (λ i. ones i mask) (sym all)
      ∙ ones-shift (32 - p) p (2 ^ p - 1)
      ∙ ones-full p (2 ^ p - 1) (omega arith) in
    (
      record { address = mask; port = 0 },
      rw (create_mask32_lem p lo hi, complement32_lem p hi) refl,
      (count_bytes_lem mask small).0 ∙ ap some set,
    )
