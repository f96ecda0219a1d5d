-- ===== src/Address/Resolve/Examples.antt =====
-- An answer of getaddrinfo and one of getifaddrs (tw/address.cc).
use tw_server.Base.{inl, ℕ, ◌≡◌, refl, true, List, [], ◌∷◌, Option, none, some, ok, codes}
use tw_server.Address.{subnet_mask, count_bytes}
use tw_server.Address.Resolve.{
  Sockaddr, in4, other_sockaddr, Address, ipv4, Interface, lookup_any_ip_address, big_endian,
  little_endian, get_named_addresses,
}
use tw_server.Address.Resolve.Lookup.{IsFirstIp, lookup_any_ip_address-IsFirstIp}
use tw_server.Address.Resolve.Interfaces.{not_ip, is_ipv4, Reads, named, get_named_addresses_lem}

abbrev answer : List (Option Sockaddr)
answer = some (other_sockaddr 1) ∷ some (in4 (127 ∷ 0 ∷ 0 ∷ 1 ∷ []) 80) ∷ []

abbrev localhost : Address
localhost = ipv4 (record { address = 2130706433; port = 80 })

resolved : lookup_any_ip_address (some answer) ≡ some localhost
unfolding lookup_any_ip_address
resolved = refl

lookup_any_ip_address-IsFirstIp_example :
    (l : List (Option Sockaddr)) × (◌≡◌ {A = Option (List (Option Sockaddr))}
      (some answer)
      (some l))
    × IsFirstIp l localhost
lookup_any_ip_address-IsFirstIp_example =
    lookup_any_ip_address-IsFirstIp (some answer) localhost resolved

abbrev eth : Interface
eth = record {
  name = codes "eth0";
  addr = some (in4 (10 ∷ 0 ∷ 0 ∷ 7 ∷ []) 0);
  netmask = some (255 ∷ 255 ∷ 255 ∷ 0 ∷ []);
}

abbrev loopback : Interface
loopback = record {
  name = codes "lo";
  addr = some (in4 (127 ∷ 0 ∷ 0 ∷ 1 ∷ []) 0);
  netmask = some (255 ∷ 0 ∷ 0 ∷ 0 ∷ []);
}

abbrev packet : Interface
packet = record { name = codes "eth0"; addr = some (other_sockaddr 17); netmask = none }

abbrev eth_entry : Option (Address × ℕ)
eth_entry = some (ipv4 (record { address = 167772167; port = 0 }), 24)

abbrev lo_entry : Option (Address × ℕ)
lo_entry = some (localhost_0, 8)
  where
    localhost_0 : Address
    localhost_0 = ipv4 (record { address = 2130706433; port = 0 })

read_all : Reads 0 (packet ∷ eth ∷ loopback ∷ []) (none ∷ eth_entry ∷ lo_entry ∷ [])
unfolding count_bytes little_endian big_endian
read_all = (
  not_ip 17 refl,
  (
    is_ipv4 (10 ∷ 0 ∷ 0 ∷ 7 ∷ []) (255 ∷ 255 ∷ 255 ∷ 0 ∷ []) 0 24 (inl refl) refl refl refl,
    (is_ipv4 (127 ∷ 0 ∷ 0 ∷ 1 ∷ []) (255 ∷ 0 ∷ 0 ∷ 0 ∷ []) 0 8 (inl refl) refl refl refl, tt),
  ),
)

get_named_addresses_lem_example :
    get_named_addresses (some (packet ∷ eth ∷ loopback ∷ [])) (codes "eth0") 0
    ≡ ok (
      named (codes "eth0") (packet ∷ eth ∷ loopback ∷ []) (none ∷ eth_entry ∷ lo_entry ∷ []),
      true,
    )
get_named_addresses_lem_example =
    get_named_addresses_lem (codes "eth0") 0 (packet ∷ eth ∷ loopback ∷ [])
      (none ∷ eth_entry ∷ lo_entry ∷ []) refl read_all

mask24 : subnet_mask 24 ≡ ok (record { address = 4294967040; port = 0 })
unfolding subnet_mask
mask24 = refl

mask_bytes : big_endian 0 (255 ∷ 255 ∷ 255 ∷ 0 ∷ []) ≡ 4294967040
unfolding big_endian
mask_bytes = refl
