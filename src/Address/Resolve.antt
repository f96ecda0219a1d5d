-- ===== src/Address/Resolve.antt =====
-- Addresses from the C library (tw/address.cc): what getaddrinfo, inet_pton and getifaddrs give is
-- an argument. A null pointer is `none`, and the bytes of an address are in network order.
pub mod Ordered
pub mod Lookup
pub mod Interfaces
mod Examples
use tw_server.Base.{
  ℕ, zero, suc, ◌+◌, ◌*◌, ◌%◌, ◌^◌, Bool, true, false, not, ◌&&◌, ◌||◌, List, [], ◌∷◌, ◌++◌,
  replicate, Option, none, some, if◌then◌else◌, ◌==◌, Outcome, ok, fail, Fault, ◌>>=◌, ◌>>◌, codes,
}
use tw_server.Base.Texts.{lex_less, same_text}
use tw_server.Address.{IPv4Address, count_bytes}
use Ordered.{Multimap, insert, equal_range}

-- A sockaddr of a family.
pub data Sockaddr : Type 0 where
  in4 : List ℕ → ℕ → Sockaddr
  in6 : List ℕ → ℕ → Sockaddr
  other_sockaddr : ℕ → Sockaddr

-- An Address object by its class.
pub data Address : Type 0 where
  ipv4 : IPv4Address → Address
  ipv6 : List ℕ → ℕ → Address
  unknown : ℕ → Address

-- The number of bytes in network order, and the number that the host reads from memory.
unfoldable pub big_endian : ℕ → List ℕ → ℕ
big_endian acc [] = acc
big_endian acc (b ∷ bs) = big_endian (acc * 256 + b) bs

unfoldable pub little_endian : List ℕ → ℕ
little_endian [] = 0
little_endian (b ∷ bs) = b + 256 * little_endian bs

abbrev pub of_sockaddr : Sockaddr → Address
of_sockaddr (in4 bytes port) = ipv4 (record { address = big_endian 0 bytes; port = port })
of_sockaddr (in6 bytes port) = ipv6 bytes port
of_sockaddr (other_sockaddr family) = unknown family

-- `Address::Create(address, addrlen)`.
unfoldable pub create : Option Sockaddr → Option Address
unfolding big_endian
create none = none
create (some a) = some (of_sockaddr a)

abbrev pub created : List (Option Sockaddr) → List (Option Address)
created [] = []
created (a ∷ l) = create a ∷ created l

-- `Lookup`: the addresses in the order of the answer behind those in `result`; getaddrinfo fails
-- with `none`.
unfoldable pub lookup :
    Option (List (Option Sockaddr)) → List (Option Address) → List (Option Address) × Bool
unfolding create
lookup none result = (result, false)
lookup (some l) result = (result ++ created l, true)

-- `result[0]`.
abbrev pub first : List (Option Address) → Outcome (Option Address)
first [] = fail Fault.past_end
first (a ∷ l) = ok a

-- `LookupAny`.
unfoldable pub lookup_any : Option (List (Option Sockaddr)) → Outcome (Option Address)
unfolding lookup
lookup_any answer = if (lookup answer []).1 then first (lookup answer []).0 else ok none

-- `dynamic_pointer_cast<IPAddress>`.
abbrev pub as_ip : Option Address → Option Address
as_ip none = none
as_ip (some (ipv4 a)) = some (ipv4 a)
as_ip (some (ipv6 b p)) = some (ipv6 b p)
as_ip (some (unknown f)) = none

abbrev pub or_else : Option Address → Option Address → Option Address
or_else none rest = rest
or_else (some a) rest = some a

-- The loop of `LookupAnyIPAddress`.
unfoldable pub first_ip : List (Option Address) → Option Address
first_ip [] = none
first_ip (a ∷ l) = or_else (as_ip a) (first_ip l)

unfoldable pub lookup_any_ip_address : Option (List (Option Sockaddr)) → Option Address
unfolding lookup first_ip
lookup_any_ip_address answer = if (lookup answer []).1 then first_ip (lookup answer []).0 else none

abbrev pub with_port : ℕ → Option Address → Option Address
with_port v none = none
with_port v (some (ipv4 a)) = some (ipv4 (record a { port = v }))
with_port v (some (ipv6 b p)) = some (ipv6 b v)
with_port v (some (unknown f)) = some (unknown f)

-- `IPAddress::Create(address, port)`: getaddrinfo of a numeric host, whose first result is read.
unfoldable pub create_ip : Option (List (Option Sockaddr)) → ℕ → Outcome (Option Address)
unfolding create
create_ip none port = ok none
create_ip (some []) port = fail Fault.null_deref
create_ip (some (a ∷ l)) port = ok (with_port port (as_ip (create a)))

-- `IPv4Address::Create` and `IPv6Address::Create`: inet_pton gives the bytes, or fails.
unfoldable pub create_ipv4 : Option (List ℕ) → ℕ → Option IPv4Address
unfolding big_endian
create_ipv4 none port = none
create_ipv4 (some bytes) port = some (record { address = big_endian 0 bytes; port = port })

unfoldable pub create_ipv6 : Option (List ℕ) → ℕ → Option Address
create_ipv6 none port = none
create_ipv6 (some bytes) port = some (ipv6 bytes port)

-- An entry of getifaddrs; the netmask is the bytes of its address.
pub record Interface : Type 0 where
  pub name : List ℕ
  pub addr : Option Sockaddr
  pub netmask : Option (List ℕ)

abbrev pub af_unspec : ℕ
af_unspec = 0

abbrev pub af_inet : ℕ
af_inet = 2

abbrev pub af_inet6 : ℕ
af_inet6 = 10

abbrev pub family_of : Sockaddr → ℕ
family_of (in4 bytes port) = af_inet
family_of (in6 bytes port) = af_inet6
family_of (other_sockaddr f) = f

-- CountBytes of a number of at most 32 bits ends.
abbrev pub counted : Option ℕ → Outcome ℕ
counted none = fail Fault.overflow
counted (some n) = ok n

abbrev pub needed {ℓ} : {A : Type ℓ} → Option A → Outcome A
needed none = fail Fault.null_deref
needed (some a) = ok a

-- The loop over the bytes of an IPv6 netmask.
unfoldable pub count_all : List ℕ → Outcome ℕ
unfolding count_bytes
count_all [] = ok 0
count_all (b ∷ bs) = do n ← counted (count_bytes b); m ← count_all bs; ok (n + m)

-- The switch: an address with its prefix length.
unfoldable pub entry_of : Sockaddr → Interface → Outcome (Option (Address × ℕ))
unfolding count_bytes count_all little_endian big_endian
entry_of (in4 bytes port) i = do
  mask ← needed i.netmask
  n ← counted (count_bytes (little_endian mask))
  ok (some (of_sockaddr (in4 bytes port), n))
entry_of (in6 bytes port) i = do
  mask ← needed i.netmask
  n ← count_all mask
  ok (some (of_sockaddr (in6 bytes port), n))
entry_of (other_sockaddr f) i = ok none

-- A round of the loop up to the insertion: the family is read through ifa_addr.
unfoldable pub entry : ℕ → Interface → Outcome (Option (Address × ℕ))
unfolding entry_of
entry family i = do
  a ← needed i.addr
  if not (family == af_unspec) && not (family == family_of a) then ok none else entry_of a i

abbrev pub keep : List ℕ → Option (Address × ℕ) → Multimap (Address × ℕ) → Multimap (Address × ℕ)
keep name none m = m
keep name (some e) m = insert name e m

unfoldable pub entries :
    ℕ → List Interface → Multimap (Address × ℕ) → Outcome (Multimap (Address × ℕ))
unfolding entry insert
entries family [] m = ok m
entries family (i ∷ l) m = entry family i >>= λ e. entries family l (keep i.name e m)

-- `GetInterfaceAddresses(result, family)`.
unfoldable pub get_interface_addresses :
    Option (List Interface) → ℕ → Multimap (Address × ℕ) → Outcome (Multimap (Address × ℕ) × Bool)
unfolding entries
get_interface_addresses none family m = ok (m, false)
get_interface_addresses (some l) family m = entries family l m >>= λ m'. ok (m', true)

abbrev pub is_any : List ℕ → Bool
is_any [] = true
is_any (c ∷ l) = same_text (c ∷ l) (codes "*")

-- What every interface stands for.
abbrev pub any_addresses : ℕ → List (Address × ℕ)
any_addresses family =
    (if (family == af_inet) || (family == af_unspec)
      then (ipv4 (record { address = 0; port = 0 }), 0) ∷ []
      else [])
    ++ (if (family == af_inet6) || (family == af_unspec)
        then (ipv6 (replicate 16 0) 0, 0) ∷ []
        else [])

-- `GetInterfaceAddresses(result, iface, family)`: what is added to `result`.
unfoldable pub get_named_addresses :
    Option (List Interface) → List ℕ → ℕ → Outcome (List (Address × ℕ) × Bool)
unfolding get_interface_addresses equal_range
get_named_addresses answer iface family =
    if is_any iface
    then ok (any_addresses family, true)
    else get_interface_addresses answer family [] >>= λ r.
        (if r.1 then ok (equal_range iface (r.0), true) else ok ([], false))
