-- ===== src/Address.antt =====
-- tw/address.h and tw/address.cc: prefix masks, comparison, and the addresses of the three
-- families. The library's memcmp compares bytes; Resolve has the lookups over what getaddrinfo and
-- getifaddrs give. An IPv4 address is the number that ntohl gives.
pub mod Masks
pub mod Counting
pub mod Ordering
pub mod Paths
pub mod Ipv6
pub mod Printing
pub mod Resolve
mod Examples
use Prim.Native.Nat.{bit_and, bit_or, bit_xor}
use tw_server.Base.{
  ℕ, zero, suc, ◌+◌, ◌-◌, ◌*◌, ◌/◌, ◌%◌, ◌^◌, Bool, true, false, not, ◌&&◌, ◌||◌, List, [], ◌∷◌,
  ◌++◌, Option, none, some, if◌then◌else◌, ◌==◌, ltb, leb, Outcome, ok, fail, Fault, guard, ◌>>=◌,
  ◌>>◌, length, get_elem?, set, take, drop, replicate, min,
}

-- `CreateMask<uint32_t>`: the shift and the subtraction are on `int`, where a shift by 32 and the
-- predecessor of -2^31 are undefined. A prefix above 32 wraps to a larger shift.
unfoldable pub create_mask32 : ℕ → Outcome ℕ
create_mask32 bit = if leb 2 bit && leb bit 32 then ok (2 ^ (32 - bit) - 1) else fail Fault.overflow

-- `CreateMask<uint8_t>` of less than eight.
unfoldable pub create_mask8 : ℕ → ℕ
create_mask8 bit = (2 ^ (8 - bit) - 1) % 2 ^ 8

abbrev pub add_one : Option ℕ → Option ℕ
add_one none = none
add_one (some n) = some (suc n)

-- One test of the loop's condition.
abbrev pub next_round : Bool → Option ℕ → Option ℕ
next_round true rest = some 0
next_round false rest = add_one rest

-- The loop of `CountBytes`, `none` where it takes more rounds than given.
unfoldable pub count_rounds : ℕ → ℕ → Option ℕ
count_rounds zero value = none
count_rounds (suc n) value = next_round (value == 0) (count_rounds n (bit_and value (value - 1)))

-- `CountBytes<uint32_t>`: a value of 32 bits needs no more than 33 tests.
unfoldable pub count_bytes : ℕ → Option ℕ
unfolding count_rounds
count_bytes value = count_rounds 33 value

pub record IPv4Address : Type 0 where
  pub address : ℕ
  pub port : ℕ

abbrev pub complement32 : ℕ → ℕ
complement32 x = bit_xor x (2 ^ 32 - 1)

-- `broadcastAddress` and `networkAddress`: `none` is a null pointer.
unfoldable pub broadcast_address : ℕ → IPv4Address → Outcome (Option IPv4Address)
unfolding create_mask32
broadcast_address prefix_len a =
    if ltb 32 prefix_len
    then ok none
    else create_mask32 prefix_len >>= λ m. ok (some (record a { address = bit_or a.address m }))

unfoldable pub network_address : ℕ → IPv4Address → Outcome (Option IPv4Address)
unfolding create_mask32
network_address prefix_len a =
    if ltb 32 prefix_len
    then ok none
    else create_mask32 prefix_len >>= λ m.
        ok (some (record a { address = bit_and a.address (complement32 m) }))

unfoldable pub subnet_mask : ℕ → Outcome IPv4Address
unfolding create_mask32
subnet_mask prefix_len =
    create_mask32 prefix_len >>= λ m. ok (record { address = complement32 m; port = 0 })

-- `getPort` and `setPort` of both families of IP.
unfoldable pub set_port : ℕ → IPv4Address → IPv4Address
set_port v a = record a { port = v % 2 ^ 16 }

-- An address as its bytes in memory, as many as getAddrLen says.
abbrev pub Bytes : Type 0
Bytes = List ℕ

pub data Comparison : Type 0 where
  below : Comparison
  same : Comparison
  above : Comparison

-- memcmp of the first bytes.
unfoldable pub memcmp : ℕ → Bytes → Bytes → Comparison
memcmp zero l r = same
memcmp (suc n) [] r = same
memcmp (suc n) (x ∷ l) [] = same
memcmp (suc n) (x ∷ l) (y ∷ r) =
    let rest = memcmp n l r in if ltb x y then below else if ltb y x then above else rest

abbrev pub less_from : Comparison → ℕ → ℕ → Bool
less_from below m n = false
less_from above m n = false
less_from same m n = ltb m n

-- `operator<`.
unfoldable pub less : Bytes → Bytes → Bool
unfolding memcmp
less l r = less_from (memcmp (min (length l) (length r)) l r) (length l) (length r)

abbrev pub is_same : Comparison → Bool
is_same same = true
is_same below = false
is_same above = false

-- `operator==`.
unfoldable pub equal : Bytes → Bytes → Bool
unfolding memcmp
equal l r = (length l == length r) && is_same (memcmp (length l) l r)

-- The size of sun_path, and its place in sockaddr_un.
abbrev pub path_size : ℕ
path_size = 108

abbrev pub path_offset : ℕ
path_offset = 2

pub record UnixAddress : Type 0 where
  pub path : List ℕ
  pub length : ℕ

abbrev pub starts_with_nul : List ℕ → Bool
starts_with_nul [] = false
starts_with_nul (c ∷ l) = c == 0

-- m_length of the constructor, in 32 bits.
unfoldable pub copied : List ℕ → ℕ
copied p =
    if starts_with_nul p
    then ((length p + 1) % 2 ^ 32 + 2 ^ 32 - 1) % 2 ^ 32
    else (length p + 1) % 2 ^ 32

-- `UnixAddress(path)`: the bytes of `c_str()`, with the rest of sun_path filled with zeros.
unfoldable pub new_unix_address : List ℕ → Outcome UnixAddress
unfolding copied
new_unix_address p =
    if ltb path_size (copied p)
    then fail Fault.logic_error
    else ok (record {
      path = take (copied p) (p ++ 0 ∷ []) ++ replicate (path_size - copied p) 0;
      length = copied p + path_offset;
    })

-- A text that ends at the first zero.
unfoldable pub c_string : List ℕ → List ℕ
c_string [] = []
c_string (c ∷ l) = let rest = c_string l in if c == 0 then [] else c ∷ rest

-- `insert` of an address of the unix family: a name that is not a path is printed behind `\0`.
unfoldable pub insert_unix : UnixAddress → List ℕ
unfolding c_string
insert_unix a =
    if ltb path_offset a.length && starts_with_nul a.path
    then 92 ∷ 48 ∷ take (a.length - path_offset - 1) (drop 1 a.path)
    else c_string a.path
