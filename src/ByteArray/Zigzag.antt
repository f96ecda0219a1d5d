-- ===== src/ByteArray/Zigzag.antt =====
-- The zigzag code of tw/bytearray.cc and the signed integers that are written with it.
use Prim.Native.Nat.{bit_and}
use native.Mathlib.Nat.{pow-suc, mod_self, mod-eq_of_lt}
use tw_server.Base.{
  ℕ, List, length, zero, suc, ◌+◌, ◌-◌, ◌*◌, ◌/◌, ◌%◌, ◌^◌, ◌≤◌, ◌<◌, ◌≡◌, ◌≢◌, refl, ap, ◌∙◌, ◌⊎◌,
  inl, inr, arith, ok, fail, Fault, ltb, leb, Bool-cases, true, false,
}
use tw_server.Base.Bits.{and_mask, xor_ones, xor-zero}
use tw_server.ByteArray.{ByteArray, Allocator, set_position}
use tw_server.ByteArray.Invariant.{IsValid}
use tw_server.ByteArray.Room.{HasRoom}
use tw_server.ByteArray.Numbers.{
  varint_bytes, encode_zigzag, decode_zigzag, write_int64, read_int64, read_int32,
}
use tw_server.ByteArray.Varint.{uint64_round_trip}

parity : (v : ℕ) → (v % 2 ≡ 0) ⊎ (v % 2 ≡ 1)
parity v = elim (Bool-cases (ltb (v % 2) 1)) [
  | inl e ↦ inl (ground arith)
  | inr e ↦ inr (ground (arith, (let lt : v % 2 < 2 = omega arith in lt)))
]

last_bit : (v : ℕ) → bit_and v 1 ≡ v % 2
last_bit v = and_mask 1 v 1 refl

-- The decoder in arithmetic: even codes are the numbers from 0 up, odd ones those from -1 down.
decode_zigzag_even : (w v : ℕ) → v < 2 ^ w → v % 2 ≡ 0 → decode_zigzag w v ≡ v / 2
unfolding decode_zigzag
decode_zigzag_even w v h e =
    let whole : 2 ^ w - 0 ≡ 2 ^ w = omega arith in
    let z : (2 ^ w - bit_and v 1) % 2 ^ w ≡ 0 = rw (last_bit v, e, whole) (mod_self (2 ^ w)) in
    rw z (xor-zero (v / 2))

decode_zigzag_odd : (w v : ℕ) → v < 2 ^ w → v % 2 ≡ 1 → decode_zigzag w v ≡ 2 ^ w - 1 - v / 2
unfolding decode_zigzag
decode_zigzag_odd w v h e =
    let lt : 2 ^ w - 1 < 2 ^ w = omega arith in
    let z : (2 ^ w - bit_and v 1) % 2 ^ w ≡ 2 ^ w - 1 = rw (last_bit v, e) (mod-eq_of_lt lt) in
    let one : 2 ^ w - 1 + 1 ≡ 2 ^ w = omega arith in
    let less : v / 2 < 2 ^ w = omega arith in rw z (xor_ones w (v / 2) (2 ^ w - 1) one less)

mod_wrap : (x n : ℕ) → x < n → (x + n) % n ≡ x
mod_wrap x n h = grind arith

module _ (w v : ℕ) (h : v < 2 ^ suc w) where
  encode_low : v < 2 ^ w → encode_zigzag (suc w) v ≡ 2 * v
  unfolding encode_zigzag
  encode_low lt =
      let s : suc w - 1 ≡ w = omega arith in
      let small : v * 2 < 2 ^ suc w = omega (arith, pow-suc 2 w) in
      let test : leb (2 ^ w) v ≡ false = ground arith in
      rw (s, test, mod-eq_of_lt small) (omega arith)

  encode_high : 2 ^ w ≤ v → encode_zigzag (suc w) v ≡ 2 * (2 ^ suc w - v) - 1
  unfolding encode_zigzag
  encode_high le =
      let s : suc w - 1 ≡ w = omega arith in
      let test : leb (2 ^ w) v ≡ true = ground arith in
      let x = 2 * (2 ^ suc w - v) - 1 in
      let sum : (2 ^ suc w - v) * 2 + 2 ^ suc w - 1 ≡ x + 2 ^ suc w = omega arith in
      rw (s, test, sum) (mod_wrap x (2 ^ suc w) (omega (arith, pow-suc 2 w)))

-- Decoding undoes encoding, for every number of a signed type.
decode_zigzag-encode_zigzag :
    (w v : ℕ) → v < 2 ^ suc w → decode_zigzag (suc w) (encode_zigzag (suc w) v) ≡ v
decode_zigzag-encode_zigzag w v h = elim (Bool-cases (ltb v (2 ^ w))) [
  | inl e ↦
      let lt : v < 2 ^ w = ground arith in
      ap (decode_zigzag (suc w)) (encode_low w v h lt)
      ∙ decode_zigzag_even (suc w) (2 * v) (omega (arith, pow-suc 2 w)) (omega arith)
      ∙ omega arith
  | inr e ↦
      let le : 2 ^ w ≤ v = ground arith in
      ap (decode_zigzag (suc w)) (encode_high w v h le)
      ∙ decode_zigzag_odd (suc w) (2 * (2 ^ suc w - v) - 1) (omega (arith, pow-suc 2 w))
          (omega arith)
      ∙ omega (arith, pow-suc 2 w)
]

-- Decoding twice gives the number back for 0 alone.
decode_twice : (v : ℕ) → v < 2 ^ 64 → decode_zigzag 64 (decode_zigzag 64 v) ≡ v → v ≡ 0
decode_twice v h e = elim (parity v) [
  | inl p ↦
      let once = decode_zigzag_even 64 v h p in
      elim (parity (v / 2)) [
        | inl q ↦
            omega
              (arith, e, ap (decode_zigzag 64) once, decode_zigzag_even 64 (v / 2) (omega arith) q)
        | inr q ↦ absurd (
            omega
              (arith, e, ap (decode_zigzag 64) once, decode_zigzag_odd 64 (v / 2) (omega arith) q))
      ]
  | inr p ↦
      let once = decode_zigzag_odd 64 v h p in
      let d = 2 ^ 64 - 1 - v / 2 in
      elim (parity d) [
        | inl q ↦
            absurd (
              omega (arith, e, ap (decode_zigzag 64) once, decode_zigzag_even 64 d (omega arith) q))
        | inr q ↦
            absurd
              (omega (arith, e, ap (decode_zigzag 64) once, decode_zigzag_odd 64 d (omega arith) q))
      ]
]

decode_zigzag-lt : (v : ℕ) → v < 2 ^ 64 → decode_zigzag 64 v < 2 ^ 64
decode_zigzag-lt v h = elim (parity v) [
  | inl p ↦ omega (arith, decode_zigzag_even 64 v h p)
  | inr p ↦ omega (arith, decode_zigzag_odd 64 v h p)
]

-- `writeInt64` decodes where it should encode: what `readInt64` gives back is the value decoded
-- twice, and that is never the value, unless it was 0.
int64_lost :
    (a : Allocator) (value : ℕ) (s : ByteArray)
    → 0 < value
    → value < 2 ^ 64
    → IsValid s
    → ((bytes : List ℕ)
        → varint_bytes 10 (decode_zigzag 64 value) ≡ ok bytes
        → HasRoom s (length bytes))
    → (s1 s2 s3 : ByteArray) × (write_int64 a value s ≡ ok s1)
      × (set_position s.position s1 ≡ ok s2)
      × (read_int64 s2 ≡ ok (decode_zigzag 64 (decode_zigzag 64 value), s3))
      × (decode_zigzag 64 (decode_zigzag 64 value) ≢ value)
unfolding write_int64 read_int64
int64_lost a value s pos h v room =
    let (bytes, s1, s2, s3, _, _, wrote, _, set, got) =
      uint64_round_trip a (decode_zigzag 64 value) s (decode_zigzag-lt value h) v room in
    (s1, s2, s3, wrote, set, rw got, λ e. omega (arith, decode_twice value h e))

-- `readInt32` returns for no stack, since its first act is to call itself.
read_int32_overflows : (depth : ℕ) (s : ByteArray) → read_int32 depth s ≡ fail Fault.stack_overflow
unfolding read_int32
read_int32_overflows zero s = refl
read_int32_overflows (suc depth) s = rw (read_int32_overflows depth s)
