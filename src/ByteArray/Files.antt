-- ===== src/ByteArray/Files.antt =====
-- The file operations and the hexadecimal text of tw/bytearray.cc. A file is the list of its bytes;
-- whether it opens is an argument.
pub mod Saving
pub mod Loading
pub mod Hex
mod Examples
use tw_server.Base.{
  ℕ, zero, suc, ◌+◌, ◌-◌, ◌%◌, ◌/◌, ◌^◌, Bool, true, false, List, [], ◌∷◌, ◌++◌, length, take, drop,
  ltb, leb, ◌==◌, ◌&&◌, ◌||◌, if◌then◌else◌, Option, none, some, Outcome, ok, fail, Fault, ◌>>=◌,
}
use tw_server.ByteArray.Bytes.{Block, slice}
use tw_server.ByteArray.{ByteArray, Allocator, read_size, write}
use tw_server.ByteArray.Buffers.{to_string}

-- The loop of `writeToFile` with `cur` the head of the list: what the stream is given. A negative
-- count breaks the contract of `ofstream::write`, and `int diff`, which is negative for an offset
-- whose 32 bits are 2^31 or more, then points before the node.
unfoldable pub save_loop : ℕ → List Block → ℕ → ℕ → Outcome (List ℕ)
save_loop base [] pos left = if left == 0 then ok [] else fail Fault.null_deref
save_loop base (b ∷ rest) pos left =
    let diff = pos % base % 2 ^ 32 in
    let chunk = if ltb base left then base else left in
    let more = (do
      bytes ← save_loop base rest (pos + (chunk - diff)) (left - (chunk - diff))
      ok (slice diff (chunk - diff) b ++ bytes)) in
    if left == 0
    then ok []
    else if ltb chunk diff || leb (2 ^ 31) diff
    then fail Fault.out_of_range
    else more

-- `writeToFile`: `none` where the file does not open, else its bytes afterwards. The size is kept
-- in an int64_t.
unfoldable pub write_to_file : Bool → ByteArray → Outcome (Option (List ℕ))
unfolding save_loop read_size
write_to_file opens s =
    let left = read_size s in
    if opens
    then (if left == 0
        then ok (some [])
        else if leb (2 ^ 63) left
        then ok (some [])
        else if s.base_size == 0
        then fail Fault.divide_by_zero
        else save_loop s.base_size s.rest s.position left >>= λ bytes. ok (some bytes))
    else ok none

-- The loop of `readFromFile` with what is left of the file. A read that gets fewer bytes than it
-- asks for meets the end of the file. `none` means that the rounds ran out.
unfoldable pub load_loop : Allocator → ℕ → List ℕ → ByteArray → Outcome (Option ByteArray)
unfolding write
load_loop a zero file s = ok none
load_loop a (suc rounds) file s = write a (take s.base_size file) s >>= λ s'.
    elim (ltb (length file) s.base_size) [
      | true ↦ ok (some s')
      | false ↦ load_loop a rounds (drop s.base_size file) s'
    ]

-- `readFromFile`: what it returns and the object. Each round but the last takes a byte or more.
unfoldable pub read_from_file :
    Allocator → Bool → List ℕ → ByteArray → Outcome (Option (Bool × ByteArray))
unfolding load_loop
read_from_file a opens file s =
    if opens
    then (load_loop a (suc (length file)) file s >>= λ r.
        ok (elim r [ none ↦ none | some s' ↦ some (true, s') ]))
    else ok (some (false, s))

-- A digit of `std::hex`.
unfoldable pub digit_code : ℕ → ℕ
digit_code d = if ltb d 10 then 48 + d else 87 + d

-- The loop of `toHexString` at the index `i`: two digits and a space for a byte, and a new line
-- before every 32nd but the first.
unfoldable pub hex_loop : ℕ → List ℕ → List ℕ
unfolding digit_code
hex_loop i [] = []
hex_loop i (v ∷ vs) =
    (if ltb 0 i && (i % 32 == 0) then 10 ∷ [] else [])
    ++ (digit_code (v / 16) ∷ digit_code (v % 16) ∷ 32 ∷ hex_loop (i + 1) vs)

unfoldable pub to_hex_string : ByteArray → Outcome (List ℕ)
unfolding to_string hex_loop
to_hex_string s = to_string s >>= λ str. ok (hex_loop 0 str)
