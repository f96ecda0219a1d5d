-- ===== src/Address/Resolve/Interfaces.antt =====
-- The addresses of an interface with their prefix lengths (tw/address.cc).
use native.Mathlib.Nat.{pow-suc, mul_comm}
use tw_server.Base.{
  Outcome, ℕ, zero, suc, ◌+◌, ◌*◌, ◌/◌, ◌%◌, ◌^◌, ◌≤◌, ◌<◌, ◌≡◌, refl, ap, sym, ◌∙◌, Bool, true,
  false, not, ◌&&◌, ◌==◌, ◌≢◌, ◌⊎◌, inl, inr, List, [], ◌∷◌, ◌++◌, Option, none, some,
  if◌then◌else◌, ok, fail, null_deref, from_ok, ◌>>=◌, append-nil, append_assoc, arith,
}
use tw_server.Base.Bits.{double_pow}
use tw_server.Address.{IPv4Address, count_bytes, subnet_mask}
use tw_server.Address.Counting.{ones, count_bytes_lem}
use tw_server.Address.Masks.{count_bytes-subnet_mask}
use tw_server.Address.Resolve.{
  Address, Sockaddr, in4, in6, other_sockaddr, ipv4, of_sockaddr, family_of, entry_of, count_all,
  Interface, counted, needed, little_endian, big_endian, entry, entries, keep,
  get_interface_addresses, is_any, get_named_addresses,
}
use tw_server.Address.Resolve.Ordered.{
  Multimap, insert, equal_range, same_key, IsOrdered, insert-IsOrdered, equal_range-insert,
}

-- What the list of addresses gets for an interface with an address: nothing where its family is not
-- asked for or is none of IP, and else the address with the set bits of the netmask.
pub data IsEntry (family : ℕ) (i : Interface) : Option (Address × ℕ) → Type 0 where
  not_asked :
      (a : Sockaddr) → i.addr ≡ some a → family ≢ 0 → family ≢ family_of a → IsEntry family i none
  not_ip : (f : ℕ) → i.addr ≡ some (other_sockaddr f) → IsEntry family i none
  is_ipv4 :
      (bytes mask : List ℕ) (port n : ℕ)
      → (family ≡ 0) ⊎ (family ≡ 2)
      → i.addr ≡ some (in4 bytes port)
      → i.netmask ≡ some mask
      → count_bytes (little_endian mask) ≡ some n
      → IsEntry family i (some (ipv4 (record { address = big_endian 0 bytes; port = port }), n))
  is_ipv6 :
      (bytes mask : List ℕ) (port n : ℕ)
      → (family ≡ 0) ⊎ (family ≡ 10)
      → i.addr ≡ some (in6 bytes port)
      → i.netmask ≡ some mask
      → count_all mask ≡ ok n
      → IsEntry family i (some (of_sockaddr (in6 bytes port), n))

asked :
    (family f : ℕ) → (family ≡ 0) ⊎ (family ≡ f) → (not (family == 0) && not (family == f)) ≡ false
asked family f (inl e) = rw e refl
asked family f (inr e) = ground arith

abbrev counted_with : Address → Option ℕ → Outcome (Option (Address × ℕ))
counted_with a o = counted o >>= λ k. ok (some (a, k))

abbrev summed_with : Address → Outcome ℕ → Outcome (Option (Address × ℕ))
summed_with a o = o >>= λ k. ok (some (a, k))

with_count : (a : Address) (o : Option ℕ) (n : ℕ) → o ≡ some n → counted_with a o ≡ ok (some (a, n))
with_count a o n e = ap (counted_with a) e

asked_entry :
    (family : ℕ) (i : Interface) (a : Sockaddr)
    → i.addr ≡ some a
    → (family ≡ 0) ⊎ (family ≡ family_of a)
    → entry family i ≡ entry_of a i
unfolding entry
asked_entry family i a e f = rw (e, asked family (family_of a) f) refl

entry_lem :
    (family : ℕ) (i : Interface) (o : Option (Address × ℕ))
    → IsEntry family i o
    → entry family i ≡ ok o
unfolding entry entry_of
entry_lem family i _ (not_asked a e f g) =
    let zero_no : (family == 0) ≡ false = ground arith in
    let other : (family == family_of a) ≡ false = ground arith in rw (e, zero_no, other) refl
entry_lem family i _ (not_ip f e) = rw e (either_way (not (family == 0) && not (family == f)))
  where
    either_way :
        (b : Bool)
        → if◌then◌else◌ {A = Outcome (Option (Address × ℕ))} b (ok none) (ok none) ≡ ok none
    either_way true = refl
    either_way false = refl
entry_lem family i _ (is_ipv4 bytes mask port n f e g c) =
    asked_entry family i (in4 bytes port) e f
    ∙ ap
        (λ o. needed o >>= λ m.
          counted_with (of_sockaddr (in4 bytes port)) (count_bytes (little_endian m)))
        g
    ∙ with_count (of_sockaddr (in4 bytes port)) (count_bytes (little_endian mask)) n c
entry_lem family i _ (is_ipv6 bytes mask port n f e g c) =
    asked_entry family i (in6 bytes port) e f
    ∙ ap (λ o. needed o >>= λ m. summed_with (of_sockaddr (in6 bytes port)) (count_all m)) g
    ∙ ap (summed_with (of_sockaddr (in6 bytes port))) c

-- What the switch makes of each interface.
abbrev pub Reads : ℕ → List Interface → List (Option (Address × ℕ)) → Type 0
Reads family [] [] = Unit {0}
Reads family [] (e ∷ es) = ⊥
Reads family (i ∷ l) [] = ⊥
Reads family (i ∷ l) (e ∷ es) = IsEntry family i e × Reads family l es

-- Those of one name, in their order.
abbrev pub named : List ℕ → List Interface → List (Option (Address × ℕ)) → List (Address × ℕ)
named k [] es = []
named k (i ∷ l) [] = []
named k (i ∷ l) (none ∷ es) = named k l es
named k (i ∷ l) (some e ∷ es) = if same_key i.name k then e ∷ named k l es else named k l es

entries_lem :
    (family : ℕ) (k : List ℕ) (l : List Interface) (es : List (Option (Address × ℕ)))
    (m : Multimap (Address × ℕ))
    → Reads family l es
    → IsOrdered m
    → (m' : Multimap (Address × ℕ)) × (entries family l m ≡ ok m')
      × (equal_range k m' ≡ equal_range k m ++ named k l es)
unfolding entries
entries_lem family k [] [] m r h = (m, refl, sym (append-nil (equal_range k m)))
entries_lem family k [] (e ∷ es) m r h = absurd r
entries_lem family k (i ∷ l) [] m r h = absurd r
entries_lem family k (i ∷ l) (none ∷ es) m r h =
    let (m', run, range) = entries_lem family k l es m r.1 h in
    (m', rw (entry_lem family i none r.0) run, range)
entries_lem family k (i ∷ l) (some e ∷ es) m r h =
    let (m', run, range) =
      entries_lem family k l es (insert i.name e m) r.1 (insert-IsOrdered i.name e m h) in
    (
      m',
      rw (entry_lem family i (some e) r.0) run,
      range
          ∙ ap (λ t. t ++ named k l es) (equal_range-insert k i.name e m h)
          ∙ joined (same_key i.name k),
    )
  where
    joined :
        (b : Bool)
        → (if b then equal_range k m ++ e ∷ [] else equal_range k m) ++ named k l es
          ≡ equal_range k m ++ (if b then e ∷ named k l es else named k l es)
    joined true = append_assoc (equal_range k m) (e ∷ []) (named k l es)
    joined false = refl

-- Where getifaddrs succeeds, each interface has an address, and each of IP whose family is asked
-- for has a netmask whose bits are counted, the addresses of a named interface are those entries of
-- the answer that have its name and whose family is asked for and is one of IP, with those counts,
-- in the order of the answer.
pub get_named_addresses_lem :
    (iface : List ℕ) (family : ℕ) (l : List Interface) (es : List (Option (Address × ℕ)))
    → is_any iface ≡ false
    → Reads family l es
    → get_named_addresses (some l) iface family ≡ ok (named iface l es, true)
unfolding get_named_addresses get_interface_addresses
get_named_addresses_lem iface family l es e r =
    let (m', run, range) = entries_lem family iface l es [] r tt in
    rw (e, run) (ap (λ t. ok (t, true)) (range ∙ unfold equal_range in refl))

falls :
    (family : ℕ) (i : Interface) (before after : List Interface) (es : List (Option (Address × ℕ)))
    (m : Multimap (Address × ℕ))
    → Reads family before es
    → i.addr ≡ none
    → entries family (before ++ i ∷ after) m ≡ fail null_deref
unfolding entries entry
falls family i [] after es m r e = rw e refl
falls family i (b ∷ bs) after [] m r e = absurd r
falls family i (b ∷ bs) after (x ∷ es) m r e =
    rw (entry_lem family b x r.0) (falls family i bs after es (keep b.name x m) r.1 e)

-- An interface without an address, as getifaddrs may give it, is followed as a null pointer,
-- whatever family is asked for and whatever interfaces with what the switch reads come before it.
null_address :
    (family : ℕ) (i : Interface) (before after : List Interface) (es : List (Option (Address × ℕ)))
    (m : Multimap (Address × ℕ))
    → Reads family before es
    → i.addr ≡ none
    → get_interface_addresses (some (before ++ i ∷ after)) family m ≡ fail null_deref
unfolding get_interface_addresses
null_address family i before after es m r e =
    ap (λ o. o >>= λ m'. ok (m', true)) (falls family i before after es m r e)

-- The digits of two numbers one behind the other.
ones_join : (j n b r : ℕ) → b < 2 ^ j → ones (j + n) (b + 2 ^ j * r) ≡ ones j b + ones n r
ones_join zero n b r h =
    let e : 0 + n ≡ n = omega arith in
    let f : b + 2 ^ 0 * r ≡ r = omega arith in rw (e, f) (omega arith)
ones_join (suc j) n b r h =
    let v = b + 2 ^ suc j * r in
    let pow : 2 ^ suc j * r ≡ 2 * (2 ^ j * r) =
      omega (arith, double_pow r j, mul_comm (2 ^ suc j) r, mul_comm (2 ^ j) r) in
    let half : v / 2 ≡ b / 2 + 2 ^ j * r = omega arith in
    let odd : v % 2 ≡ b % 2 = omega arith in
    let e : suc j + n ≡ suc (j + n) = omega arith in
    ap (λ i. ones i v) e
    ∙ omega (arith, ap (ones (j + n)) half, ones_join j n (b / 2) r (omega (arith, pow-suc 2 j)))

-- Four digits of `j` bits and the same digits the other way round.
four_ones :
    (j a b c d : ℕ)
    → a < 2 ^ j
    → b < 2 ^ j
    → c < 2 ^ j
    → ones (j + (j + (j + j))) (a + 2 ^ j * (b + 2 ^ j * (c + 2 ^ j * d)))
      ≡ ones j a + (ones j b + (ones j c + ones j d))
four_ones j a b c d x y z =
    ones_join j (j + (j + j)) a (b + 2 ^ j * (c + 2 ^ j * d)) x
    ∙ ap (λ t. ones j a + t)
        (ones_join j (j + j) b (c + 2 ^ j * d) y ∙ ap (λ t. ones j b + t) (ones_join j j c d z))

turned :
    (j a b c d : ℕ)
    → a < 2 ^ j
    → b < 2 ^ j
    → c < 2 ^ j
    → d < 2 ^ j
    → ones (j + (j + (j + j))) (a + 2 ^ j * (b + 2 ^ j * (c + 2 ^ j * d)))
      ≡ ones (j + (j + (j + j))) (d + 2 ^ j * (c + 2 ^ j * (b + 2 ^ j * a)))
turned j a b c d x y z w =
    four_ones j a b c d x y z
    ∙ swapped (ones j a) (ones j b) (ones j c) (ones j d)
    ∙ sym (four_ones j d c b a w z y)
  where
    swapped : (p q r s : ℕ) → p + (q + (r + s)) ≡ s + (r + (q + p))
    swapped p q r s = omega arith

-- The prefix of an interface with a netmask of 2 to 32 bits, that is with the bytes in network
-- order of what subnetMask gives, is that number of bits.
count_bytes-little_endian :
    (p a b c d : ℕ) (mask : IPv4Address)
    → 2 ≤ p
    → p ≤ 32
    → a < 256
    → b < 256
    → c < 256
    → d < 256
    → subnet_mask p ≡ ok mask
    → big_endian 0 (a ∷ b ∷ c ∷ d ∷ []) ≡ mask.address
    → count_bytes (little_endian (a ∷ b ∷ c ∷ d ∷ [])) ≡ some p
unfolding big_endian little_endian
count_bytes-little_endian p a b c d mask lo hi x y z w e f =
    let (m, made, count) = count_bytes-subnet_mask p lo hi in
    let same : m.address ≡ mask.address = ap (λ r. r.address) (from_ok (sym made ∙ e)) in
    let value = a + 256 * (b + 256 * (c + 256 * (d + 256 * 0))) in
    let number = d + 256 * (c + 256 * (b + 256 * a)) in
    let big : m.address ≡ number = omega (arith, same, f) in
    let flat : value ≡ a + 256 * (b + 256 * (c + 256 * d)) = omega arith in
    let bits : ones 32 value ≡ ones 32 m.address =
      ap (ones 32) flat ∙ turned 8 a b c d x y z w ∙ ap (ones 32) (sym big) in
    (count_bytes_lem value (omega arith)).0
    ∙ ap some bits
    ∙ sym ((count_bytes_lem m.address (omega arith)).0)
    ∙ count
