-- ===== src/Address/Ipv6.antt =====
-- Prefixes of IPv6 addresses, as lists of sixteen bytes (tw/address.cc).
use Prim.Native.Nat.{bit_and, bit_or, bit_xor}
use tw_server.Base.{
  ℕ, zero, suc, ◌+◌, ◌*◌, ◌/◌, ◌%◌, ◌≤◌, ◌<◌, ◌≡◌, refl, ap, ◌∙◌, List, [], ◌∷◌, Option, none, some,
  get_elem?, set, replicate, Outcome, ok, fail, Fault, ◌>>=◌, arith,
}
use tw_server.Address.{create_mask8, count_bytes, count_rounds}

-- The loops over the bytes from an index on, and up to one.
unfoldable pub fill_from : ℕ → ℕ → List ℕ → List ℕ
fill_from i v [] = []
fill_from zero v (x ∷ l) = v ∷ fill_from zero v l
fill_from (suc i) v (x ∷ l) = x ∷ fill_from i v l

unfoldable pub fill_before : ℕ → ℕ → List ℕ → List ℕ
fill_before zero v l = l
fill_before (suc i) v [] = []
fill_before (suc i) v (x ∷ l) = v ∷ fill_before i v l

abbrev pub byte_at : Option ℕ → Outcome ℕ
byte_at none = fail Fault.past_end
byte_at (some b) = ok b

abbrev pub complement8 : ℕ → ℕ
complement8 x = bit_xor x 255

-- `broadcastAddress`, `networkAddress` and `subnetMask`: a prefix of 128 bits or more indexes a
-- byte behind the address.
unfoldable pub broadcast_address6 : ℕ → List ℕ → Outcome (List ℕ)
unfolding create_mask8 fill_from
broadcast_address6 p a = byte_at (get_elem? a (p / 8)) >>= λ b.
    ok (fill_from (p / 8 + 1) 255 (set a (p / 8) (bit_or b (create_mask8 (p % 8)))))

unfoldable pub network_address6 : ℕ → List ℕ → Outcome (List ℕ)
unfolding create_mask8 fill_from
network_address6 p a = byte_at (get_elem? a (p / 8)) >>= λ b.
    ok (fill_from (p / 8 + 1) 0 (set a (p / 8) (bit_and b (complement8 (create_mask8 (p % 8))))))

unfoldable pub subnet_mask6 : ℕ → Outcome (List ℕ)
unfolding create_mask8 fill_before
subnet_mask6 p = byte_at (get_elem? (replicate 16 0) (p / 8)) >>= λ b.
    ok (fill_before (p / 8) 255 (set (replicate 16 0) (p / 8) (complement8 (create_mask8 (p % 8)))))

abbrev pub plus : Option ℕ → Option ℕ → Option ℕ
plus none n = none
plus (some m) none = none
plus (some m) (some n) = some (m + n)

-- The loop of GetInterfaceAddresses that counts a prefix from the bytes of its mask.
unfoldable pub count_prefix : List ℕ → Option ℕ
count_prefix [] = some 0
count_prefix (x ∷ l) = plus (count_bytes x) (count_prefix l)

count_zeros : (n : ℕ) → count_prefix (replicate n 0) ≡ some 0
unfolding count_prefix count_bytes count_rounds
count_zeros zero = refl
count_zeros (suc n) = rw (count_zeros n) refl

byte_full : count_bytes 255 ≡ some 8
unfolding count_bytes count_rounds
byte_full = refl

count_filled :
    (n i x c : ℕ)
    → i < n
    → count_bytes x ≡ some c
    → count_prefix (fill_before i 255 (set (replicate n 0) i x)) ≡ some (8 * i + c)
unfolding count_prefix fill_before
count_filled zero i x c h e = absurd (omega arith)
count_filled (suc n) zero x c h e = rw (e, count_zeros n) (ap some (omega arith))
count_filled (suc n) (suc i) x c h e =
    rw (byte_full, count_filled n i x c (omega arith) e) (ap some (omega arith))

-- A byte of a mask has as many bits set as asked for.
byte_mask : (b : ℕ) → b < 8 → count_bytes (complement8 (create_mask8 b)) ≡ some b
unfolding count_bytes count_rounds create_mask8
byte_mask zero h = refl
byte_mask (suc zero) h = refl
byte_mask (suc (suc zero)) h = refl
byte_mask (suc (suc (suc zero))) h = refl
byte_mask (suc (suc (suc (suc zero)))) h = refl
byte_mask (suc (suc (suc (suc (suc zero))))) h = refl
byte_mask (suc (suc (suc (suc (suc (suc zero)))))) h = refl
byte_mask (suc (suc (suc (suc (suc (suc (suc zero))))))) h = refl
byte_mask (suc (suc (suc (suc (suc (suc (suc (suc b)))))))) h = absurd (omega arith)

in_zeros : (n i : ℕ) → i < n → get_elem? {A = ℕ} (replicate n 0) i ≡ some 0
in_zeros zero i h = absurd (omega arith)
in_zeros (suc n) zero h = refl
in_zeros (suc n) (suc i) h = in_zeros n i (omega arith)

beyond_zeros : (n i : ℕ) → n ≤ i → get_elem? {A = ℕ} (replicate n 0) i ≡ none
beyond_zeros zero i h = refl
beyond_zeros (suc n) zero h = absurd (omega arith)
beyond_zeros (suc n) (suc i) h = beyond_zeros n i (omega arith)

-- The mask of a prefix of less than 128 bits has as many bits set as the prefix, which is what the
-- prefix of an interface is counted from.
count_prefix-subnet_mask6 :
    (p : ℕ) → p < 128 → (m : List ℕ) × (subnet_mask6 p ≡ ok m) × (count_prefix m ≡ some p)
unfolding subnet_mask6
count_prefix-subnet_mask6 p h =
    let last = complement8 (create_mask8 (p % 8)) in
    let whole : 8 * (p / 8) + p % 8 ≡ p = omega arith in
    (
      fill_before (p / 8) 255 (set (replicate 16 0) (p / 8) last),
      rw (in_zeros 16 (p / 8) (omega arith)) refl,
      count_filled 16 (p / 8) last (p % 8) (omega arith) (byte_mask (p % 8) (omega arith))
          ∙ ap some whole,
    )

-- A prefix of 128 bits, which is a whole address, or more indexes a byte behind the mask.
subnet_mask6_beyond : (p : ℕ) → 128 ≤ p → subnet_mask6 p ≡ fail Fault.past_end
unfolding subnet_mask6
subnet_mask6_beyond p h = rw (beyond_zeros 16 (p / 8) (omega arith)) refl
