-- ===== src/ByteArray/Files/Hex.antt =====
-- The text of `toHexString` names the bytes (tw/bytearray.cc).
use tw_server.Base.{
  ℕ, ◌+◌, ◌-◌, ◌*◌, ◌/◌, ◌%◌, ◌<◌, ◌≡◌, refl, ap, ◌∙◌, false, Bool, List, [], ◌∷◌, All, ltb, ◌==◌,
  ◌&&◌, if◌then◌else◌, Bool-cases, inl, inr, ok, arith,
}
use tw_server.ByteArray.{ByteArray}
use tw_server.ByteArray.Buffers.{to_string}
use tw_server.ByteArray.Files.{digit_code, hex_loop, to_hex_string}

-- The value of a hexadecimal digit.
abbrev digit_value : ℕ → ℕ
digit_value c = if ltb c 58 then c - 48 else c - 87

-- A reader of such a text: blanks are skipped, two digits are a byte.
abbrev is_blank : ℕ → Bool
is_blank c = ltb c 48

pub decode_hex : List ℕ → List ℕ
decode_hex [] = []
decode_hex (c ∷ []) = []
decode_hex (c ∷ (d ∷ r)) =
    let skipped = decode_hex (d ∷ r) in
    let taken = decode_hex r in
    if is_blank c then skipped else (digit_value c * 16 + digit_value d) ∷ taken

digit_code_value :
    (d : ℕ) → d < 16 → (digit_value (digit_code d) ≡ d) × (ltb (digit_code d) 48 ≡ false)
unfolding digit_code
digit_code_value d h = (ground arith, ground arith)

decode_blank : (c : ℕ) (r : List ℕ) → c < 48 → decode_hex (c ∷ r) ≡ decode_hex r
unfolding decode_hex
decode_blank c [] h = refl
decode_blank c (d ∷ r) h = ground arith

decode_byte :
    (v : ℕ) (r : List ℕ)
    → v < 256
    → decode_hex (digit_code (v / 16) ∷ digit_code (v % 16) ∷ 32 ∷ r) ≡ v ∷ decode_hex r
unfolding decode_hex
decode_byte v r h =
    let (hi, solid) = digit_code_value (v / 16) (omega arith) in
    let (lo, solid') = digit_code_value (v % 16) (omega arith) in
    let byte : v / 16 * 16 + v % 16 ≡ v = omega arith in
    rw (solid, hi, lo, byte) (ap (λ t. v ∷ t) (decode_blank 32 r (omega arith)))

decode_hex-hex_loop :
    (i : ℕ) (vs : List ℕ) → All (λ v. v < 256) vs → decode_hex (hex_loop i vs) ≡ vs
unfolding hex_loop
decode_hex-hex_loop i [] h = unfold decode_hex in refl
decode_hex-hex_loop i (v ∷ vs) h =
    let rest =
      decode_byte v (hex_loop (i + 1) vs) h.0
      ∙ ap (λ t. v ∷ t) (decode_hex-hex_loop (i + 1) vs h.1) in
    elim (Bool-cases (ltb 0 i && (i % 32 == 0))) [
      | inl e ↦ rw e (decode_blank 10 _ (omega arith) ∙ rest)
      | inr e ↦ rw e rest
    ]

-- Where toString gives the bytes of an object, toHexString gives a text that reads back, two digits
-- to a byte and blanks skipped, as those bytes.
pub decode_hex-to_hex_string :
    (s : ByteArray) (bytes : List ℕ)
    → to_string s ≡ ok bytes
    → All (λ v. v < 256) bytes
    → (t : List ℕ) × (to_hex_string s ≡ ok t) × (decode_hex t ≡ bytes)
unfolding to_hex_string
decode_hex-to_hex_string s bytes e h = (hex_loop 0 bytes, rw e refl, decode_hex-hex_loop 0 bytes h)
