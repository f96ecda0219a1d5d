-- ===== src/ByteArray/Varint.antt =====
-- The variable-length integers of tw/bytearray.cc: `wirteUint32`, `writeUint64` and their readers.
use Prim.Native.Nat.{bit_and, bit_or}
use native.Mathlib.Nat.{mod-eq_of_lt, pow-suc, div-add-mod}
use native.Mathlib.Numerals.{towards_suc}
use tw_server.Base.{
  ℕ, zero, suc, ◌+◌, ◌*◌, ◌/◌, ◌%◌, ◌^◌, ◌≤◌, ◌<◌, ◌≡◌, refl, ap, sym, ◌∙◌, ◌⊎◌, inl, inr, List, [],
  ◌∷◌, length, arith, ok, fail, from_ok, Fault, Outcome, subst, ltb, leb, Bool-cases, true, false,
}
use tw_server.Base.Bits.{or_field, and_mask}
use tw_server.ByteArray.{ByteArray, Allocator, write, set_position}
use tw_server.ByteArray.Invariant.{IsValid}
use tw_server.ByteArray.Room.{HasRoom}
use tw_server.ByteArray.Ahead.{Ahead, written-Ahead, read-Ahead}
use tw_server.ByteArray.Numbers.{
  of_native_bytes, read_fuint8, varint_bytes, read_varint, wirte_uint32, write_uint64, read_uint32,
  read_uint64,
}

byte_mark : (v : ℕ) → bit_or (bit_and v 0x7f) 0x80 ≡ v % 128 + 128
byte_mark v =
    ap (λ (t : ℕ). bit_or t 0x80) (and_mask 7 v 0x7f refl) ∙ or_field 7 (v % 128) 1 (omega arith)

not_last : (n v : ℕ) → 128 ≤ v → v < 128 ^ suc n → 0 < n
not_last zero v big h = absurd (omega arith)
not_last (suc n) v big h = omega arith

-- The array of `n` bytes is never overrun by a value below 128 ^ n, and holds at least one byte.
varint_bytes_fit :
    (n v : ℕ)
    → 0 < n
    → v < 128 ^ n
    → (bytes : List ℕ) × (varint_bytes n v ≡ ok bytes) × (0 < length bytes) × (length bytes ≤ n)
unfolding varint_bytes
varint_bytes_fit zero v pos h = elim pos [ ]
varint_bytes_fit (suc n) v pos h = elim (Bool-cases (leb 0x80 v)) [
  | inl e ↦
      let big : 128 ≤ v = ground arith in
      let (bytes, run, _, le) =
        varint_bytes_fit n (v / 128) (not_last n v big h) (omega (arith, pow-suc 128 n)) in
      (bit_or (bit_and v 0x7f) 0x80 ∷ bytes, rw (e, run), omega arith, omega arith)
  | inr e ↦ (v ∷ [], rw e, omega arith, omega arith)
]

read_fuint8-Ahead :
    (b : ℕ) (bs : List ℕ) (s : ByteArray)
    → Ahead (b ∷ bs) s
    → (s' : ByteArray) × (read_fuint8 s ≡ ok (b, s')) × Ahead bs s'
unfolding read_fuint8 of_native_bytes
read_fuint8-Ahead b bs s h =
    let (s', run, rest) = read-Ahead (b ∷ []) bs s h (omega arith) in
    let value : b + 256 * 0 ≡ b = omega arith in (s', rw run (ap (λ t. ok (t, s')) value), rest)

Outcome-cases {ℓ} :
    {A : Type ℓ} (r : Outcome A) → ((a : A) × (r ≡ ok a)) ⊎ ((e : Fault) × (r ≡ fail e))
Outcome-cases (ok a) = inl (a, refl)
Outcome-cases (fail e) = inr (e, refl)

more_bytes :
    (n v : ℕ) (bytes : List ℕ)
    → leb 0x80 v ≡ true
    → varint_bytes (suc n) v ≡ ok bytes
    → (rest : List ℕ) × (varint_bytes n (v / 128) ≡ ok rest) × (bytes ≡ (v % 128 + 128) ∷ rest)
unfolding varint_bytes
more_bytes n v bytes e h = elim (Outcome-cases (varint_bytes n (v / 128))) [
  | inl (rest, f) ↦ (rest, f, ground (arith, byte_mark v))
  | inr (x, f) ↦ absurd (ground arith)
]

one_byte :
    (n v : ℕ) (bytes : List ℕ)
    → leb 0x80 v ≡ false
    → varint_bytes (suc n) v ≡ ok bytes
    → bytes ≡ v ∷ []
unfolding varint_bytes
one_byte n v bytes e h = ground arith

shift_seven : (i : ℕ) → 2 ^ (i + 7) ≡ 128 * 2 ^ i
shift_seven i = simp towards_suc (omega arith)

-- A group of bits that fits the result is added to it.
group : (w i r c : ℕ) → r < 2 ^ i → c * 2 ^ i < 2 ^ w → bit_or r (c * 2 ^ i % 2 ^ w) ≡ r + c * 2 ^ i
group w i r c h fits = rw (mod-eq_of_lt fits) (or_field i r c h)

regroup : (v p : ℕ) → v * p ≡ v % 128 * p + v / 128 * (128 * p)
regroup v p = omega (arith, ap (λ (t : ℕ). t * p) (div-add-mod v 128))

low_group : (v p : ℕ) → v % 128 * p ≤ 127 * p
low_group v p = let le : v % 128 ≤ 127 = omega arith in grind arith

read_more :
    (w n i r b : ℕ) (s s' : ByteArray)
    → read_fuint8 s ≡ ok (b, s')
    → ltb b 0x80 ≡ false
    → read_varint w (suc n) i r s
      ≡ read_varint w n (i + 7) (bit_or r (bit_and b 0x7f * 2 ^ i % 2 ^ w)) s'
unfolding read_varint
read_more w n i r b s s' got high = rw (got, high)

-- Reading the bytes of `v` at shift `i` adds `v` to the bits below.
read_varint_lem :
    (w n i r v : ℕ) (bytes : List ℕ) (s : ByteArray)
    → varint_bytes n v ≡ ok bytes
    → Ahead bytes s
    → r < 2 ^ i
    → r + v * 2 ^ i < 2 ^ w
    → (s' : ByteArray) × (read_varint w n i r s ≡ ok (r + v * 2 ^ i, s'))
unfolding read_varint
read_varint_lem w zero i r v bytes s run ahead h fits = absurd (unfold varint_bytes in cc)
read_varint_lem w (suc n) i r v bytes s run ahead h fits = elim (Bool-cases (leb 0x80 v)) [
  | inl e ↦
      let (rest, run', eq) = more_bytes n v bytes e run in
      let b = v % 128 + 128 in
      let (s', got, ahead') = read_fuint8-Ahead b rest s (subst (λ t. Ahead t s) eq ahead) in
      let high : ltb b 0x80 ≡ false = ground arith in
      let low : bit_and b 0x7f ≡ v % 128 = omega (arith, and_mask 7 b 0x7f refl) in
      let parts : r + v * 2 ^ i ≡ (r + v % 128 * 2 ^ i) + v / 128 * 2 ^ (i + 7) =
        omega
          (arith, shift_seven i, regroup v (2 ^ i), ap (λ (t : ℕ). v / 128 * t) (shift_seven i)) in
      let step : bit_or r (bit_and b 0x7f * 2 ^ i % 2 ^ w) ≡ r + v % 128 * 2 ^ i =
        rw low (group w i r (v % 128) h (omega (arith, regroup v (2 ^ i)))) in
      let (s'', run'') =
        read_varint_lem w n (i + 7) (r + v % 128 * 2 ^ i) (v / 128) rest s' run' ahead'
          (omega (arith, shift_seven i, low_group v (2 ^ i))) (omega (arith, parts)) in
      (
        s'',
        read_more w n i r b s s' got high
            ∙ ap (λ (t : ℕ). read_varint w n (i + 7) t s') step
            ∙ run''
            ∙ ap (λ (t : ℕ). ok (t, s'')) (sym parts),
      )
  | inr e ↦
      let (s', got, _) =
        read_fuint8-Ahead v [] s (subst (λ t. Ahead t s) (one_byte n v bytes e run) ahead) in
      let small : ltb v 0x80 ≡ true = ground arith in
      (s', rw (got, small) (ap (λ t. ok (t, s')) (group w i r v h (omega arith))))
]

-- A 32-bit number takes at most the five bytes of its array and is read back as it was written.
uint32_round_trip :
    (a : Allocator) (value : ℕ) (s : ByteArray)
    → value < 2 ^ 32
    → IsValid s
    → ((n : ℕ) → n ≤ 5 → HasRoom s n)
    → (s1 s2 s3 : ByteArray) × (wirte_uint32 a value s ≡ ok s1)
      × (set_position s.position s1 ≡ ok s2)
      × (read_uint32 s2 ≡ ok (value, s3))
unfolding wirte_uint32 read_uint32
uint32_round_trip a value s h v room =
    let (bytes, run, _, le) = varint_bytes_fit 5 value (omega arith) (omega arith) in
    let (s1, s2, wrote, set, ahead) = written-Ahead a bytes s v (room (length bytes) le) in
    let (s3, got) = read_varint_lem 32 5 0 0 value bytes s2 run ahead (omega arith) (omega arith) in
    let same : 0 + value * 2 ^ 0 ≡ value = omega arith in
    (s1, s2, s3, rw run wrote, set, got ∙ ap (λ t. ok (t, s3)) same)

pub varint_bytes_length :
    (n v : ℕ) (bytes : List ℕ)
    → 0 < n
    → v < 128 ^ n
    → varint_bytes n v ≡ ok bytes
    → length bytes ≤ n
varint_bytes_length n v bytes pos h e =
    let (bytes', run, _, le) = varint_bytes_fit n v pos h in
    omega (arith, le, ap length (from_ok (sym run ∙ e)))

-- A 64-bit number is written as at most ten bytes, and where the object is valid and has room for
-- them it is read back from the position where it was written.
pub uint64_round_trip :
    (a : Allocator) (value : ℕ) (s : ByteArray)
    → value < 2 ^ 64
    → IsValid s
    → ((bytes : List ℕ) → varint_bytes 10 value ≡ ok bytes → HasRoom s (length bytes))
    → (bytes : List ℕ) × (s1 s2 s3 : ByteArray) × (varint_bytes 10 value ≡ ok bytes)
      × (length bytes ≤ 10)
      × (write_uint64 a value s ≡ ok s1)
      × (write a bytes s ≡ ok s1)
      × (set_position s.position s1 ≡ ok s2)
      × (read_uint64 s2 ≡ ok (value, s3))
unfolding write_uint64 read_uint64
uint64_round_trip a value s h v room =
    let (bytes, run, _, le) = varint_bytes_fit 10 value (omega arith) (omega arith) in
    let (s1, s2, wrote, set, ahead) = written-Ahead a bytes s v (room bytes run) in
    let (s3, got) =
      read_varint_lem 64 10 0 0 value bytes s2 run ahead (omega arith) (omega arith) in
    let same : 0 + value * 2 ^ 0 ≡ value = omega arith in
    (bytes, s1, s2, s3, run, le, rw run wrote, wrote, set, got ∙ ap (λ t. ok (t, s3)) same)
