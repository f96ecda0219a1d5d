-- ===== src/ByteArray/Numbers.antt =====
-- The typed readers and writers of tw/bytearray.cc. An integer is its bit pattern, a number below
-- 2 ^ 8k for a k-byte type, signed or not; a float is the pattern that `memcpy` moves. The host is
-- little-endian, as tw/bytearray.h says, so htons, htonl and bswap_64 reverse the bytes.
use Prim.Native.Nat.{bit_and, bit_or, bit_xor}
use tw_server.Base.{
  ℕ, zero, suc, ◌+◌, ◌-◌, ◌*◌, ◌/◌, ◌%◌, ◌^◌, List, [], ◌∷◌, ltb, leb, if◌then◌else◌, length,
  Outcome, ok, fail, Fault, ◌>>=◌,
}
use tw_server.ByteArray.{ByteArray, Allocator, write, read}

-- The bytes of a k-byte integer in memory.
unfoldable pub native_bytes : ℕ → ℕ → List ℕ
native_bytes zero x = []
native_bytes (suc k) x = (x % 256) ∷ native_bytes k (x / 256)

unfoldable pub of_native_bytes : List ℕ → ℕ
of_native_bytes [] = 0
of_native_bytes (b ∷ bs) = b + 256 * of_native_bytes bs

unfoldable pub byte_swap : ℕ → ℕ → ℕ
byte_swap zero x = 0
byte_swap (suc k) x = (x % 256) * 256 ^ k + byte_swap k (x / 256)

module _ (a : Allocator) where
  -- `value = hton(value); write(&value, sizeof(value))`
  unfoldable pub write_fixed : ℕ → ℕ → ByteArray → Outcome ByteArray
  write_fixed k value s = write a (native_bytes k (byte_swap k value)) s

  unfoldable pub write_fint8 : ℕ → ByteArray → Outcome ByteArray
  write_fint8 value s = write a (native_bytes 1 value) s

  unfoldable pub write_fuin8 : ℕ → ByteArray → Outcome ByteArray
  write_fuin8 value s = write a (native_bytes 1 value) s

  unfoldable pub write_fint16 : ℕ → ByteArray → Outcome ByteArray
  unfolding write_fixed
  write_fint16 value s = write_fixed 2 value s

  unfoldable pub write_fuint16 : ℕ → ByteArray → Outcome ByteArray
  unfolding write_fixed
  write_fuint16 value s = write_fixed 2 value s

  unfoldable pub write_fint32 : ℕ → ByteArray → Outcome ByteArray
  unfolding write_fixed
  write_fint32 value s = write_fixed 4 value s

  unfoldable pub write_fuint32 : ℕ → ByteArray → Outcome ByteArray
  unfolding write_fixed
  write_fuint32 value s = write_fixed 4 value s

  unfoldable pub write_fint64 : ℕ → ByteArray → Outcome ByteArray
  unfolding write_fixed
  write_fint64 value s = write_fixed 8 value s

  unfoldable pub write_fuint64 : ℕ → ByteArray → Outcome ByteArray
  unfolding write_fixed
  write_fuint64 value s = write_fixed 8 value s

  unfoldable pub write_float : ℕ → ByteArray → Outcome ByteArray
  unfolding write_fuint32
  write_float value s = write_fuint32 value s

  unfoldable pub write_double : ℕ → ByteArray → Outcome ByteArray
  unfolding write_fuint64
  write_double value s = write_fuint64 value s

-- `read(&v, sizeof(v)); v = ntoh(v);`
unfoldable pub read_fixed : ℕ → ByteArray → Outcome (ℕ × ByteArray)
read_fixed k s = do (bytes, s') ← read k s; ok (byte_swap k (of_native_bytes bytes), s')

unfoldable pub read_fint8 : ByteArray → Outcome (ℕ × ByteArray)
read_fint8 s = do (bytes, s') ← read 1 s; ok (of_native_bytes bytes, s')

unfoldable pub read_fuint8 : ByteArray → Outcome (ℕ × ByteArray)
read_fuint8 s = do (bytes, s') ← read 1 s; ok (of_native_bytes bytes, s')

unfoldable pub read_fint16 : ByteArray → Outcome (ℕ × ByteArray)
unfolding read_fixed
read_fint16 s = read_fixed 2 s

unfoldable pub read_fuint16 : ByteArray → Outcome (ℕ × ByteArray)
unfolding read_fixed
read_fuint16 s = read_fixed 2 s

unfoldable pub read_fint32 : ByteArray → Outcome (ℕ × ByteArray)
unfolding read_fixed
read_fint32 s = read_fixed 4 s

unfoldable pub read_fuint32 : ByteArray → Outcome (ℕ × ByteArray)
unfolding read_fixed
read_fuint32 s = read_fixed 4 s

unfoldable pub read_fint64 : ByteArray → Outcome (ℕ × ByteArray)
unfolding read_fixed
read_fint64 s = read_fixed 8 s

unfoldable pub read_fuint64 : ByteArray → Outcome (ℕ × ByteArray)
unfolding read_fixed
read_fuint64 s = read_fixed 8 s

unfoldable pub read_float : ByteArray → Outcome (ℕ × ByteArray)
unfolding read_fuint32
read_float s = read_fuint32 s

unfoldable pub read_double : ByteArray → Outcome (ℕ × ByteArray)
unfolding read_fuint64
read_double s = read_fuint64 s

-- `uint8_t tmp[n]` is filled from the front; a write behind its end is `past_end`.
unfoldable pub varint_bytes : ℕ → ℕ → Outcome (List ℕ)
varint_bytes zero value = fail Fault.past_end
varint_bytes (suc n) value =
    let more = (do
      bytes ← varint_bytes n (value / 128)
      ok (bit_or (bit_and value 0x7f) 0x80 ∷ bytes)) in
    if leb 0x80 value then more else ok (value ∷ [])

module _ (a : Allocator) where
  unfoldable pub wirte_uint32 : ℕ → ByteArray → Outcome ByteArray
  wirte_uint32 value s = do tmp ← varint_bytes 5 value; write a tmp s

  unfoldable pub write_uint64 : ℕ → ByteArray → Outcome ByteArray
  write_uint64 value s = do tmp ← varint_bytes 10 value; write a tmp s

-- The loops of `readUint32` and `readUint64` in a w-bit result, with the rounds left and the shift.
unfoldable pub read_varint : ℕ → ℕ → ℕ → ℕ → ByteArray → Outcome (ℕ × ByteArray)
read_varint w zero i result s = ok (result, s)
read_varint w (suc rounds) i result s = do
  (b, s') ← read_fuint8 s
  let more = read_varint w rounds (i + 7) (bit_or result (bit_and b 0x7f * 2 ^ i % 2 ^ w)) s'
  if ltb b 0x80 then ok (bit_or result (b * 2 ^ i % 2 ^ w), s') else more

unfoldable pub read_uint32 : ByteArray → Outcome (ℕ × ByteArray)
read_uint32 s = read_varint 32 5 0 0 s

unfoldable pub read_uint64 : ByteArray → Outcome (ℕ × ByteArray)
read_uint64 s = read_varint 64 10 0 0 s

-- `v < 0` is the top bit; `(uint32_t)(-v) * 2 - 1` and `v * 2` wrap.
unfoldable pub encode_zigzag : ℕ → ℕ → ℕ
encode_zigzag w v =
    if leb (2 ^ (w - 1)) v then ((2 ^ w - v) * 2 + 2 ^ w - 1) % 2 ^ w else v * 2 % 2 ^ w

-- `(v >> 1) ^ -(v & 1)`
unfoldable pub decode_zigzag : ℕ → ℕ → ℕ
decode_zigzag w v = bit_xor (v / 2) ((2 ^ w - bit_and v 1) % 2 ^ w)

module _ (a : Allocator) where
  unfoldable pub write_int32 : ℕ → ByteArray → Outcome ByteArray
  write_int32 value s = wirte_uint32 a (decode_zigzag 32 value) s

  unfoldable pub write_int64 : ℕ → ByteArray → Outcome ByteArray
  write_int64 value s = write_uint64 a (decode_zigzag 64 value) s

-- `readInt32` calls itself before it reads anything; `depth` is the room on the stack in calls.
unfoldable pub read_int32 : ℕ → ByteArray → Outcome (ℕ × ByteArray)
read_int32 zero s = fail Fault.stack_overflow
read_int32 (suc depth) s = do (v, s') ← read_int32 depth s; ok (decode_zigzag 32 v, s')

unfoldable pub read_int64 : ByteArray → Outcome (ℕ × ByteArray)
read_int64 s = do (v, s') ← read_uint64 s; ok (decode_zigzag 64 v, s')

-- The length goes in front, cut to the width of its type.
module _ (a : Allocator) where
  unfoldable pub write_string_f16 : List ℕ → ByteArray → Outcome ByteArray
  write_string_f16 value s = do s' ← write_fuint16 a (length value % 2 ^ 16) s; write a value s'

  unfoldable pub write_string_f32 : List ℕ → ByteArray → Outcome ByteArray
  write_string_f32 value s = do s' ← write_fuint32 a (length value % 2 ^ 32) s; write a value s'

  unfoldable pub write_string_f64 : List ℕ → ByteArray → Outcome ByteArray
  write_string_f64 value s = do s' ← write_fuint64 a (length value) s; write a value s'

  unfoldable pub write_string_vint : List ℕ → ByteArray → Outcome ByteArray
  write_string_vint value s = do s' ← write_uint64 a (length value) s; write a value s'

  unfoldable pub write_string_without_length : List ℕ → ByteArray → Outcome ByteArray
  write_string_without_length value s = write a value s

unfoldable pub read_string_f16 : ByteArray → Outcome (List ℕ × ByteArray)
read_string_f16 s = do (len, s') ← read_fuint16 s; read len s'

unfoldable pub read_string_f32 : ByteArray → Outcome (List ℕ × ByteArray)
read_string_f32 s = do (len, s') ← read_fuint32 s; read len s'

unfoldable pub read_string_f64 : ByteArray → Outcome (List ℕ × ByteArray)
read_string_f64 s = do (len, s') ← read_fuint64 s; read len s'

unfoldable pub read_string_vint : ByteArray → Outcome (List ℕ × ByteArray)
read_string_vint s = do (len, s') ← read_uint64 s; read len s'
