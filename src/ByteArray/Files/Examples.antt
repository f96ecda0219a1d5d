-- ===== src/ByteArray/Files/Examples.antt =====
-- Files and hexadecimal texts of small objects (tw/bytearray.cc).
use tw_server.Base.{
  ℕ, ◌≡◌, refl, List, [], ◌∷◌, inl, arith, true, some, ok, fail, Fault, codes, replicate,
  length-replicate, drop,
}
use tw_server.ByteArray.{ByteArray, Allocator, clear}
use tw_server.ByteArray.Invariant.{IsValid}
use tw_server.ByteArray.Room.{content}
use tw_server.ByteArray.Buffers.{read_at, to_string}
use tw_server.ByteArray.Files.{write_to_file, read_from_file, to_hex_string, hex_loop}
use tw_server.ByteArray.Files.Saving.{IsLost, write_to_file_fails}
use tw_server.ByteArray.Files.Loading.{read_from_file-write_to_file}
use tw_server.ByteArray.Files.Hex.{decode_hex, decode_hex-to_hex_string}

abbrev zeros : Allocator
zeros = record { bytes = λ k n. replicate n 0; bytes_length = λ k n. length-replicate n 0 }

-- Six bytes in blocks of four, with the position at `p`.
abbrev six : ℕ → ByteArray
six p = record {
  base_size = 4;
  position = p;
  capacity = 8;
  size = 6;
  before = [];
  rest = (1 ∷ 2 ∷ 3 ∷ 4 ∷ []) ∷ (5 ∷ 171 ∷ 0 ∷ 0 ∷ []) ∷ [];
}

abbrev later : ByteArray
later = six 3

later-IsValid : IsValid later
later-IsValid = record {
  base_pos = omega arith;
  has_root = omega arith;
  sized_before = tt;
  sized_rest = (refl, (refl, tt));
  capacity_lem = refl;
  located = (omega arith, omega arith);
  position-le = omega arith;
  size-le = omega arith;
}

start-IsValid : IsValid (six 0)
start-IsValid = record {
  base_pos = omega arith;
  has_root = omega arith;
  sized_before = tt;
  sized_rest = (refl, (refl, tt));
  capacity_lem = refl;
  located = (omega arith, omega arith);
  position-le = omega arith;
  size-le = omega arith;
}

read_from_file-write_to_file_example :
    (file : List ℕ) × (t' : ByteArray) × (write_to_file true (six 0) ≡ ok (some file))
    × (read_from_file zeros true file (clear later) ≡ ok (some (true, t')))
    × IsValid t'
    × (content t' ≡ drop 0 (content (six 0)))
read_from_file-write_to_file_example =
    read_from_file-write_to_file zeros (six 0) later start-IsValid later-IsValid (omega arith)
      (omega arith) (inl refl)

write_to_file_fails_example : IsLost (write_to_file true later)
write_to_file_fails_example =
    write_to_file_fails later later-IsValid (omega arith) (omega arith) (omega arith) (omega arith)
      (omega arith)

-- The bytes that are left are in the second node; the code asks for a negative count.
behind : write_to_file true (record later { position = 3; size = 5 }) ≡ fail Fault.out_of_range
unfolding write_to_file
behind = refl

whole_file : write_to_file true (six 0) ≡ ok (some (1 ∷ 2 ∷ 3 ∷ 4 ∷ 5 ∷ 171 ∷ []))
unfolding write_to_file
whole_file = refl

hex_text : hex_loop 0 (1 ∷ 171 ∷ 255 ∷ []) ≡ codes "01 ab ff "
unfolding hex_loop
hex_text = refl

short : to_string (record later { position = 0; size = 3 }) ≡ ok (1 ∷ 2 ∷ 3 ∷ [])
unfolding to_string read_at
short = refl

decode_hex-to_hex_string_example :
    (t : List ℕ) × (to_hex_string (record later { position = 0; size = 3 }) ≡ ok t)
    × (decode_hex t ≡ 1 ∷ 2 ∷ 3 ∷ [])
decode_hex-to_hex_string_example =
    decode_hex-to_hex_string (record later { position = 0; size = 3 }) (1 ∷ 2 ∷ 3 ∷ []) short
      (omega arith)
