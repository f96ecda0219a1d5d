-- ===== src/Address/Printing.antt =====
-- How IP addresses are printed (tw/address.cc). The groups of an IPv6 address are in host order.
use Prim.Native.Nat.{bit_and}
use tw_server.Base.{
  ℕ, zero, suc, ◌+◌, ◌/◌, ◌%◌, ◌^◌, ◌*◌, ◌<◌, ◌≡◌, refl, Bool, true, false, not, ◌&&◌, List, [],
  ◌∷◌, ◌++◌, if◌then◌else◌, ◌==◌, ltb, codes, arith,
}
use tw_server.Base.Bits.{and_mask}
use tw_server.Http.Message.{to_decimal}
use tw_server.Address.{IPv4Address}

-- `(addr >> shift) & 0xff`
abbrev pub byte_of : ℕ → ℕ → ℕ
byte_of shift a = bit_and (a / 2 ^ shift) 255

unfoldable pub insert_ipv4 : IPv4Address → List ℕ
unfolding to_decimal
insert_ipv4 a =
    to_decimal (byte_of 24 a.address)
    ++ (codes "."
        ++ (to_decimal (byte_of 16 a.address)
            ++ (codes "."
                ++ (to_decimal (byte_of 8 a.address)
                    ++ (codes "."
                        ++ (to_decimal (byte_of 0 a.address)
                            ++ (codes ": " ++ to_decimal a.port)))))))

abbrev pub hex_digit : ℕ → ℕ
hex_digit d = if ltb d 10 then 48 + d else 87 + d

-- The digits of a number of up to `suc n` of them.
unfoldable pub hex_digits : ℕ → ℕ → List ℕ → List ℕ
hex_digits zero x rest = hex_digit (x % 16) ∷ rest
hex_digits (suc n) x rest =
    let more = hex_digits n (x / 16) (hex_digit (x % 16) ∷ rest) in
    if ltb x 16 then hex_digit x ∷ rest else more

unfoldable pub to_hex : ℕ → List ℕ
unfolding hex_digits
to_hex x = hex_digits 3 x []

-- The loop over the groups from the index `i` on, with the group before and `used_zeros`.
unfoldable pub insert_groups : ℕ → ℕ → Bool → List ℕ → List ℕ
unfolding to_hex
insert_groups i before used [] = if not used && before == 0 then codes "::" else []
insert_groups i before used (g ∷ l) =
    let skip = not (i == 0) && before == 0 && not used in
    let skipped = insert_groups (suc i) g used l in
    let printed = insert_groups (suc i) g (if skip then true else used) l in
    if g == 0 && not used
    then skipped
    else (if skip then codes ":" else [])
      ++ ((if i == 0 then [] else codes ":") ++ (to_hex g ++ printed))

unfoldable pub insert_ipv6 : List ℕ → ℕ → List ℕ
unfolding insert_groups to_decimal
insert_ipv6 groups port =
    codes "[" ++ (insert_groups 0 1 false groups ++ (codes "]:" ++ to_decimal port))

-- The bytes that are printed are the digits of the address in base 256.
bytes_of_address :
    (a : ℕ)
    → a < 2 ^ 32
    → ((byte_of 24 a * 256 + byte_of 16 a) * 256 + byte_of 8 a) * 256 + byte_of 0 a ≡ a
bytes_of_address a h = omega (
  arith,
  and_mask 8 (a / 2 ^ 24) 255 refl,
  and_mask 8 (a / 2 ^ 16) 255 refl,
  and_mask 8 (a / 2 ^ 8) 255 refl,
  and_mask 8 (a / 2 ^ 0) 255 refl,
)
