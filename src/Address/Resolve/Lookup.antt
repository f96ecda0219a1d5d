-- ===== src/Address/Resolve/Lookup.antt =====
-- What LookupAnyIPAddress gives (tw/address.cc).
use tw_server.Base.{
  ◌≡◌, refl, ap, sym, ◌∙◌, Bool, true, false, List, [], ◌∷◌, ◌++◌, All, Option, none, some,
}
use tw_server.Address.Resolve.{
  Sockaddr, in4, in6, other_sockaddr, Address, ipv4, ipv6, create, created, as_ip, or_else,
  first_ip, lookup_any_ip_address, big_endian,
}

-- The families of IP.
abbrev pub is_ip : Option Sockaddr → Bool
is_ip none = false
is_ip (some (in4 b p)) = true
is_ip (some (in6 b p)) = true
is_ip (some (other_sockaddr f)) = false

-- The object of an address of such a family.
abbrev pub ip_of : Option Sockaddr → Option Address
ip_of none = none
ip_of (some (in4 b p)) = some (ipv4 (record { address = big_endian 0 b; port = p }))
ip_of (some (in6 b p)) = some (ipv6 b p)
ip_of (some (other_sockaddr f)) = none

-- Where an object comes from: the first address of a family of IP.
pub record IsFirstIp (l : List (Option Sockaddr)) (a : Address) : Type 0 where
  pub before : List (Option Sockaddr)
  pub source : Option Sockaddr
  pub after : List (Option Sockaddr)
  pub parts : l ≡ before ++ source ∷ after
  pub others : All (λ s. is_ip s ≡ false) before
  pub object : ip_of source ≡ some a

as_ip-create : (s : Option Sockaddr) → as_ip (create s) ≡ ip_of s
unfolding create
as_ip-create none = refl
as_ip-create (some (in4 b p)) = refl
as_ip-create (some (in6 b p)) = refl
as_ip-create (some (other_sockaddr f)) = refl

is_ip-none : (s : Option Sockaddr) → ip_of s ≡ none → is_ip s ≡ false
is_ip-none none e = refl
is_ip-none (some (in4 b p)) e = cc
is_ip-none (some (in6 b p)) e = cc
is_ip-none (some (other_sockaddr f)) e = refl

found :
    (s : Option Sockaddr) (l : List (Option Sockaddr)) (a : Address) (o : Option Address)
    → ip_of s ≡ o
    → or_else o (first_ip (created l)) ≡ some a
    → (first_ip (created l) ≡ some a → IsFirstIp l a)
    → IsFirstIp (s ∷ l) a
found s l a none f e ih =
    let r = ih e in
    record {
      before = s ∷ r.before;
      source = r.source;
      after = r.after;
      parts = ap (λ t. s ∷ t) r.parts;
      others = (is_ip-none s f, r.others);
      object = r.object;
    }
found s l a (some i) f e ih = record {
  before = [];
  source = s;
  after = l;
  parts = refl;
  others = tt;
  object = f ∙ e;
}

first_ip-created :
    (l : List (Option Sockaddr)) (a : Address) → first_ip (created l) ≡ some a → IsFirstIp l a
unfolding first_ip
first_ip-created [] a e = cc
first_ip-created (s ∷ l) a e =
    found s l a (ip_of s) refl
      (ap (λ o. or_else o (first_ip (created l))) (sym (as_ip-create s)) ∙ e) (first_ip-created l a)

-- What LookupAnyIPAddress gives is never an address of another family than AF_INET and AF_INET6: it
-- is the object of the first address of these that getaddrinfo gave, an IPv4Address or an
-- IPv6Address as the family says, with the same bytes and port.
pub lookup_any_ip_address-IsFirstIp :
    (answer : Option (List (Option Sockaddr))) (a : Address)
    → lookup_any_ip_address answer ≡ some a
    → (l : List (Option Sockaddr)) × (answer ≡ some l) × IsFirstIp l a
unfolding lookup_any_ip_address
lookup_any_ip_address-IsFirstIp none a e = cc
lookup_any_ip_address-IsFirstIp (some l) a e = (l, refl, first_ip-created l a e)
