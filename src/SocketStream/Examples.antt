-- ===== src/SocketStream/Examples.antt =====
-- A buffer of four bytes sent in two pieces (tw/socket_stream.cc).
use tw_server.Base.{◌+◌, ◌≡◌, refl, true, [], ◌∷◌, ◌++◌, none, some, ok, arith}
use tw_server.Socket.{Socket, inet}
use tw_server.ByteArray.{ByteArray}
use tw_server.ByteArray.Bytes.{slice}
use tw_server.ByteArray.Invariant.{IsValid}
use tw_server.ByteArray.Room.{content}
use tw_server.SocketStream.{whole, write_fix_size_array}
use tw_server.SocketStream.Sending.{counts, total, write_fix_size_array_whole}

abbrev online : Socket
online = record {
  sock = some 5;
  family = inet;
  is_connected = true;
  local_address = none;
  remote_address = none;
}

abbrev filled : ByteArray
filled = record {
  base_size = 4;
  position = 0;
  capacity = 4;
  size = 4;
  before = [];
  rest = (1 ∷ 2 ∷ 3 ∷ 4 ∷ []) ∷ [];
}

filled-IsValid : IsValid filled
filled-IsValid = record {
  base_pos = omega arith;
  has_root = omega arith;
  sized_before = tt;
  sized_rest = (refl, tt);
  capacity_lem = refl;
  located = (omega arith, omega arith);
  position-le = omega arith;
  size-le = omega arith;
}

-- Three bytes, and then the fourth.
write_fix_size_array_whole_example :
    (s' : ByteArray) × (write_fix_size_array
        (some online)
        (counts (2 ∷ 0 ∷ []))
        (total (2 ∷ 0 ∷ []))
        filled
        []
      ≡ ok (whole s' ([] ++ slice filled.position (total (2 ∷ 0 ∷ [])) (content filled))))
    × IsValid s'
    × (s'.position ≡ filled.position + total (2 ∷ 0 ∷ []))
    × (content s' ≡ content filled)
write_fix_size_array_whole_example =
    write_fix_size_array_whole online (2 ∷ 0 ∷ []) filled [] refl filled-IsValid (omega arith)
