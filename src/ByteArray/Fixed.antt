-- ===== src/ByteArray/Fixed.antt =====
-- The fixed-width readers are inverse to the writers (tw/bytearray.cc).
use native.Mathlib.Nat.{pow-suc, mod-lt}
use tw_server.Base.{
  ℕ, zero, suc, ◌+◌, ◌*◌, ◌/◌, ◌%◌, ◌^◌, ◌<◌, ◌≡◌, refl, ap, sym, ◌∙◌, List, [], ◌∷◌, ◌++◌, length,
  arith, ok, Outcome, length-append, append-nil, subst, ◌>>=◌,
}
use tw_server.ByteArray.{ByteArray, Allocator, set_position, read}
use tw_server.ByteArray.Invariant.{IsValid}
use tw_server.ByteArray.Room.{HasRoom}
use tw_server.ByteArray.Ahead.{Ahead, written-Ahead, read-Ahead}
use tw_server.ByteArray.Numbers.{native_bytes, of_native_bytes, byte_swap, write_fixed, read_fixed}

length-native_bytes : (k x : ℕ) → length (native_bytes k x) ≡ k
unfolding native_bytes
length-native_bytes zero x = refl
length-native_bytes (suc k) x = ap suc (length-native_bytes k (x / 256))

of_native_bytes-native_bytes : (k x : ℕ) → x < 256 ^ k → of_native_bytes (native_bytes k x) ≡ x
unfolding native_bytes of_native_bytes
of_native_bytes-native_bytes zero x h = omega arith
of_native_bytes-native_bytes (suc k) x h =
    omega (arith, of_native_bytes-native_bytes k (x / 256) (omega (arith, pow-suc 256 k)))

byte_swap-lt : (k x : ℕ) → byte_swap k x < 256 ^ k
unfolding byte_swap
byte_swap-lt zero x = omega arith
byte_swap-lt (suc k) x = grind (arith, byte_swap-lt k (x / 256), pow-suc 256 k, mod-lt x {m = 256})

-- The value of bytes in network order.
big_endian : List ℕ → ℕ
big_endian [] = 0
big_endian (b ∷ bs) = b * 256 ^ length bs + big_endian bs

byte_swap-big_endian : (k x : ℕ) → byte_swap k x ≡ big_endian (native_bytes k x)
unfolding byte_swap native_bytes big_endian
byte_swap-big_endian zero x = refl
byte_swap-big_endian (suc k) x =
    rw (length-native_bytes k (x / 256), byte_swap-big_endian k (x / 256))

big_endian_snoc : (bs : List ℕ) (b : ℕ) → big_endian (bs ++ b ∷ []) ≡ 256 * big_endian bs + b
unfolding big_endian
big_endian_snoc [] b = omega arith
big_endian_snoc (c ∷ bs) b = rw (length_snoc bs b) (
    omega (
      arith,
      big_endian_snoc bs b,
      pow-suc 256 (length bs),
      ap (λ (t : ℕ). c * t) (pow-suc 256 (length bs)),
    ))
  where
    length_snoc : (bs : List ℕ) (b : ℕ) → length (bs ++ b ∷ []) ≡ suc (length bs)
    length_snoc bs b = omega (arith, length-append bs (b ∷ []))

native_bytes_snoc :
    (k y b : ℕ)
    → y < 256 ^ k
    → b < 256
    → native_bytes (suc k) (b * 256 ^ k + y) ≡ native_bytes k y ++ b ∷ []
unfolding native_bytes
native_bytes_snoc zero y b h lt = ap (λ t. t ∷ []) (omega arith)
native_bytes_snoc (suc k) y b h lt =
    let low : (b * 256 ^ suc k + y) % 256 ≡ y % 256 = omega (arith, shifted b k) in
    let high : (b * 256 ^ suc k + y) / 256 ≡ b * 256 ^ k + y / 256 = omega (arith, shifted b k) in
    rw (low, high)
      (ap (λ t. y % 256 ∷ t) (native_bytes_snoc k (y / 256) b (omega (arith, pow-suc 256 k)) lt))
  where
    shifted : (b k : ℕ) → b * 256 ^ suc k ≡ 256 * (b * 256 ^ k)
    shifted b k = omega (arith, ap (λ (t : ℕ). b * t) (pow-suc 256 k))

-- Reversing the bytes twice changes nothing.
byte_swap-byte_swap : (k x : ℕ) → x < 256 ^ k → byte_swap k (byte_swap k x) ≡ x
unfolding byte_swap
byte_swap-byte_swap zero x h = omega arith
byte_swap-byte_swap (suc k) x h =
    byte_swap-big_endian (suc k) (byte_swap (suc k) x)
    ∙ ap big_endian (
        native_bytes_snoc k (byte_swap k (x / 256)) (x % 256) (byte_swap-lt k (x / 256))
          (omega arith))
    ∙ big_endian_snoc (native_bytes k (byte_swap k (x / 256))) (x % 256)
    ∙ omega (
      arith,
      byte_swap-big_endian k (byte_swap k (x / 256)),
      byte_swap-byte_swap k (x / 256) (omega (arith, pow-suc 256 k)),
    )

abbrev read_then : ℕ → Outcome (List ℕ × ByteArray) → Outcome (ℕ × ByteArray)
read_then k r = r >>= λ p. ok (byte_swap k (of_native_bytes p.0), p.1)

-- A fixed-width number is read back as it was written.
fixed_round_trip :
    (a : Allocator) (k value : ℕ) (s : ByteArray)
    → 0 < k
    → value < 256 ^ k
    → IsValid s
    → HasRoom s k
    → (s1 s2 s3 : ByteArray) × (write_fixed a k value s ≡ ok s1)
      × (set_position s.position s1 ≡ ok s2)
      × (read_fixed k s2 ≡ ok (value, s3))
unfolding write_fixed read_fixed
fixed_round_trip a k value s pos h v room =
    let bytes = native_bytes k (byte_swap k value) in
    let len = length-native_bytes k (byte_swap k value) in
    let (s1, s2, run, set, ahead) = written-Ahead a bytes s v (subst (HasRoom s) (sym len) room) in
    let (s3, got, _) =
      read-Ahead bytes [] s2 (subst (λ t. Ahead t s2) (sym (append-nil bytes)) ahead)
        (omega (arith, len)) in
    let back : byte_swap k (of_native_bytes bytes) ≡ value =
      ap (byte_swap k) (of_native_bytes-native_bytes k (byte_swap k value) (byte_swap-lt k value))
      ∙ byte_swap-byte_swap k value h in
    (
      s1,
      s2,
      s3,
      run,
      set,
      ap (λ t. read_then k t) (sym (ap (λ t. read t s2) len) ∙ got) ∙ ap (λ t. ok (t, s3)) back,
    )
