-- ===== src/Address/Examples.antt =====
-- Some addresses (tw/address.cc).
use tw_server.Base.{refl, codes, ◌+◌, ◌^◌, ◌-◌, ◌≤◌, ◌<◌, ◌≡◌, ◌↔◌, true, [], ◌∷◌, some, ok, arith}
use tw_server.Address.{
  IPv4Address, UnixAddress, count_bytes, broadcast_address, network_address, less, new_unix_address,
  insert_unix,
}
use tw_server.Http.Message.{to_decimal}
use tw_server.Address.Printing.{hex_digits, to_hex, insert_groups, insert_ipv4, insert_ipv6}
use tw_server.Address.Counting.{ones, count_bytes_lem}
use tw_server.Address.Masks.{network-broadcast}
use tw_server.Address.Ordering.{IsProperPrefix, less_lem}
use tw_server.Address.Paths.{insert_unix-abstract}

-- 192.168.1.5
abbrev host : IPv4Address
host = record { address = 3232235781; port = 80 }

network-broadcast_example :
    (n b : IPv4Address) × (network_address 24 host ≡ ok (some n))
    × (broadcast_address 24 host ≡ ok (some b))
    × (n.address ≤ host.address)
    × (host.address ≤ b.address)
    × (b.address + 1 ≡ n.address + 2 ^ (32 - 24))
    × (b.address < 2 ^ 32)
network-broadcast_example = network-broadcast 24 host (omega arith) (omega arith) (omega arith)

count_bytes_lem_example : (count_bytes 11 ≡ some (ones 32 11)) × (ones 32 11 ≤ 32)
count_bytes_lem_example = count_bytes_lem 11 (omega arith)

less_lem_example :
    (less (1 ∷ 2 ∷ []) (1 ∷ 3 ∷ []) ≡ true) ↔ IsProperPrefix (1 ∷ 2 ∷ []) (1 ∷ 3 ∷ [])
less_lem_example = less_lem (1 ∷ 2 ∷ []) (1 ∷ 3 ∷ [])

insert_unix-abstract_example :
    (a : UnixAddress) × (new_unix_address (0 ∷ 97 ∷ 0 ∷ []) ≡ ok a)
    × (insert_unix a ≡ 92 ∷ 48 ∷ 97 ∷ 0 ∷ [])
insert_unix-abstract_example = insert_unix-abstract (97 ∷ 0 ∷ []) (omega arith)

loopback : insert_ipv6 (0 ∷ 0 ∷ 0 ∷ 0 ∷ 0 ∷ 0 ∷ 0 ∷ 1 ∷ []) 80 ≡ codes "[::1]:80"
unfolding insert_ipv6 insert_groups to_hex hex_digits to_decimal
loopback = refl

prefix_only : insert_ipv6 (65152 ∷ 0 ∷ 0 ∷ 0 ∷ 0 ∷ 0 ∷ 0 ∷ 0 ∷ []) 80 ≡ codes "[fe80::]:80"
unfolding insert_ipv6 insert_groups to_hex hex_digits to_decimal
prefix_only = refl

local_host : insert_ipv4 (record { address = 2130706433; port = 80 }) ≡ codes "127.0.0.1: 80"
unfolding insert_ipv4 to_decimal
local_host = refl
