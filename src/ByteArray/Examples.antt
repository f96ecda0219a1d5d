-- ===== src/ByteArray/Examples.antt =====
-- Runs of the buffer on small objects (tw/bytearray.cc).
use tw_server.Base.{
  List, ℕ, length, ◌≤◌, All, ◌≡◌, refl, [], ◌∷◌, replicate, length-replicate, inl, inr, arith, ok,
  fail, Fault,
}
use tw_server.ByteArray.{ByteArray, Allocator, init, write, read, set_position}
use tw_server.ByteArray.Bytes.{slice}
use tw_server.ByteArray.Invariant.{IsValid}
use tw_server.ByteArray.Room.{HasRoom, content}
use tw_server.ByteArray.WriteLaws.{WroteAt, write-WroteAt, write_no_room}
use tw_server.ByteArray.Seek.{init-IsValid}
use tw_server.ByteArray.Numbers.{write_uint64, read_uint64, varint_bytes}
use tw_server.ByteArray.Varint.{uint64_round_trip, varint_bytes_length}
use tw_server.ByteArray.Buffers.{Iovec, get_read_buffers, read_at, to_string}
use tw_server.ByteArray.Buffers.Gather.{gather, total_len, InNode}
use tw_server.ByteArray.Buffers.Laws.{
  nodes, get_read_buffers_lem, read_at_wrong_block, to_string_lem,
}
use tw_server.ByteArray.Spec.{Command, move, put, get, run, Roomy, text, run-spec_run}

abbrev zeros : Allocator
zeros = record { bytes = λ k n. replicate n 0; bytes_length = λ k n. length-replicate n 0 }

-- A new object with blocks of four bytes, and one with blocks of thirty-two.
abbrev four : ByteArray
four = init zeros 4

abbrev wide : ByteArray
wide = init zeros 32

four-IsValid : IsValid four
four-IsValid = init-IsValid zeros 4 (omega arith)

wide-IsValid : IsValid wide
wide-IsValid = init-IsValid zeros 32 (omega arith)

-- Four bytes written and the position back at the start.
abbrev filled : ByteArray
filled = record {
  base_size = 4;
  position = 0;
  capacity = 4;
  size = 4;
  before = [];
  rest = (1 ∷ 2 ∷ 3 ∷ 4 ∷ []) ∷ [];
}

-- The same with the position at the end, where m_cur is null.
abbrev spent : ByteArray
spent = record {
  base_size = 4;
  position = 4;
  capacity = 4;
  size = 4;
  before = (1 ∷ 2 ∷ 3 ∷ 4 ∷ []) ∷ [];
  rest = [];
}

filled-IsValid : IsValid filled
filled-IsValid = record {
  base_pos = omega arith;
  has_root = omega arith;
  sized_before = tt;
  sized_rest = (refl, tt);
  capacity_lem = refl;
  located = (omega arith, omega arith);
  position-le = omega arith;
  size-le = omega arith;
}

spent-IsValid : IsValid spent
spent-IsValid = record {
  base_pos = omega arith;
  has_root = omega arith;
  sized_before = (refl, tt);
  sized_rest = tt;
  capacity_lem = refl;
  located = refl;
  position-le = omega arith;
  size-le = omega arith;
}

write-WroteAt_example :
    (s' : ByteArray) × (write zeros (7 ∷ 8 ∷ 9 ∷ []) four ≡ ok s')
    × WroteAt (7 ∷ 8 ∷ 9 ∷ []) four s'
unfolding init
write-WroteAt_example = write-WroteAt zeros (7 ∷ 8 ∷ 9 ∷ []) four four-IsValid (inl (omega arith))

no_room_for_five : ¬ HasRoom four 5
unfolding init
no_room_for_five (inl h) = absurd (omega arith)
no_room_for_five (inr (inl h)) = absurd (omega arith)
no_room_for_five (inr (inr h)) = absurd (omega arith)

write_no_room_example : write zeros (1 ∷ 2 ∷ 3 ∷ 4 ∷ 5 ∷ []) four ≡ fail Fault.null_deref
write_no_room_example =
    write_no_room zeros (1 ∷ 2 ∷ 3 ∷ 4 ∷ 5 ∷ []) four four-IsValid no_room_for_five

uint64_round_trip_example :
    (bytes : List ℕ) × (s1 s2 s3 : ByteArray) × (varint_bytes 10 5000000000 ≡ ok bytes)
    × (length bytes ≤ 10)
    × (write_uint64 zeros 5000000000 wide ≡ ok s1)
    × (write zeros bytes wide ≡ ok s1)
    × (set_position 0 s1 ≡ ok s2)
    × (read_uint64 s2 ≡ ok (5000000000, s3))
unfolding init
uint64_round_trip_example = uint64_round_trip zeros 5000000000 wide (omega arith) wide-IsValid room
  where
    room : (bytes : List ℕ) → varint_bytes 10 5000000000 ≡ ok bytes → HasRoom wide (length bytes)
    room bytes e =
        inl (omega (arith, (varint_bytes_length 10 5000000000 bytes (omega arith) (omega arith) e)))

-- Two full blocks with the position at the start.
abbrev double : ByteArray
double = record {
  base_size = 4;
  position = 0;
  capacity = 8;
  size = 8;
  before = [];
  rest = (1 ∷ 2 ∷ 3 ∷ 4 ∷ []) ∷ (5 ∷ 6 ∷ 7 ∷ 8 ∷ []) ∷ [];
}

double-IsValid : IsValid double
double-IsValid = record {
  base_pos = omega arith;
  has_root = omega arith;
  sized_before = tt;
  sized_rest = (refl, (refl, tt));
  capacity_lem = refl;
  located = (omega arith, omega arith);
  position-le = omega arith;
  size-le = omega arith;
}

get_read_buffers_lem_example :
    (iovs : List Iovec) × (s' : ByteArray) × (get_read_buffers 6 double ≡ ok (iovs, 6))
    × (read 6 double ≡ ok (gather (nodes double) iovs, s'))
    × (total_len iovs ≡ 6)
    × All (InNode (nodes double)) iovs
get_read_buffers_lem_example =
    get_read_buffers_lem 6 double double-IsValid (omega arith) (omega arith)

-- The bytes 6 and 7 are asked for.
read_at_wrong_block_example : read_at 2 5 double ≡ ok (2 ∷ 3 ∷ [])
read_at_wrong_block_example =
    read_at_wrong_block 2 5 (1 ∷ 2 ∷ 3 ∷ 4 ∷ []) ((5 ∷ 6 ∷ 7 ∷ 8 ∷ []) ∷ []) double double-IsValid
      refl (omega arith) (omega arith) (omega arith)

to_string_lem_example : to_string filled ≡ ok (slice 0 4 (content filled))
to_string_lem_example =
    to_string_lem (1 ∷ 2 ∷ 3 ∷ 4 ∷ []) [] filled filled-IsValid refl (omega arith) (omega arith)

-- Write a byte, read the rest, go back and read all.
abbrev program : List Command
program = put (9 ∷ []) ∷ get 3 ∷ move 0 ∷ get 4 ∷ []

program-Roomy : Roomy zeros program filled
program-Roomy =
    (inl (omega arith), λ s out e. (tt, λ s' out' e'. (tt, λ s'' out'' e''. (tt, λ z o f. tt))))

run-spec_run_example :
    (s' : ByteArray) × (run zeros program filled
      ≡ ok (s', [] ∷ (2 ∷ 3 ∷ 4 ∷ []) ∷ [] ∷ (9 ∷ 2 ∷ 3 ∷ 4 ∷ []) ∷ []))
    × IsValid s'
    × (text s' ≡ record { bytes = 9 ∷ 2 ∷ 3 ∷ 4 ∷ []; place = 4 })
run-spec_run_example =
    run-spec_run zeros program filled
      (
        record { bytes = 9 ∷ 2 ∷ 3 ∷ 4 ∷ []; place = 4 },
        [] ∷ (2 ∷ 3 ∷ 4 ∷ []) ∷ [] ∷ (9 ∷ 2 ∷ 3 ∷ 4 ∷ []) ∷ [],
      )
      filled-IsValid program-Roomy refl
