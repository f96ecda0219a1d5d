-- ===== src/Stream.antt =====
-- tw/stream.cc: the loops that move a fixed number of bytes. The transport is a script of what its
-- calls return; an `int` below 0 becomes a size_t of 2 ^ 64 - 1.
pub mod Laws
use tw_server.Base.{
  ℕ, ◌+◌, ◌-◌, ◌%◌, ◌^◌, ◌≤◌, List, [], ◌∷◌, ◌++◌, length, ◌==◌, if◌then◌else◌, sub64,
}

-- What one `read` or `write` of the transport returns: -1, 0, or the bytes that it moved, of which
-- there is at least one.
pub data Transfer : Type 0 where
  failed : Transfer
  nothing : Transfer
  moved : List ℕ → Transfer

-- `blocked` is a script that ends before the loop does.
pub data Fixed : Type 0 where
  whole : List (ℕ × List ℕ) → Fixed
  zero_result : List (ℕ × List ℕ) → Fixed
  blocked : Fixed

abbrev pub wrap64 : ℕ → ℕ
wrap64 x = x % 2 ^ 64

-- `readFixSize(void*, length)`: the pieces are the bytes stored, each with its offset. The test
-- `len <= 0` on a size_t holds for 0 alone.
unfoldable pub read_fix_size : List Transfer → ℕ → ℕ → List (ℕ × List ℕ) → Fixed
read_fix_size [] offset left pieces = if left == 0 then whole pieces else blocked
read_fix_size (failed ∷ script) offset left pieces =
    let more = read_fix_size script (wrap64 (offset + 2 ^ 64 - 1)) (wrap64 (left + 1)) pieces in
    if left == 0 then whole pieces else more
read_fix_size (nothing ∷ script) offset left pieces =
    if left == 0 then whole pieces else zero_result pieces
read_fix_size (moved bytes ∷ script) offset left pieces =
    let more =
      read_fix_size script (wrap64 (offset + length bytes)) (sub64 left (length bytes))
        (pieces ++ (offset, bytes) ∷ []) in
    if left == 0 then whole pieces else more

-- `writeFixSize(const void*, length)` is the same loop over `write`.
unfoldable pub write_fix_size : List Transfer → ℕ → ℕ → List (ℕ × List ℕ) → Fixed
write_fix_size [] offset left pieces = if left == 0 then whole pieces else blocked
write_fix_size (failed ∷ script) offset left pieces =
    let more = write_fix_size script (wrap64 (offset + 2 ^ 64 - 1)) (wrap64 (left + 1)) pieces in
    if left == 0 then whole pieces else more
write_fix_size (nothing ∷ script) offset left pieces =
    if left == 0 then whole pieces else zero_result pieces
write_fix_size (moved bytes ∷ script) offset left pieces =
    let more =
      write_fix_size script (wrap64 (offset + length bytes)) (sub64 left (length bytes))
        (pieces ++ (offset, bytes) ∷ []) in
    if left == 0 then whole pieces else more
