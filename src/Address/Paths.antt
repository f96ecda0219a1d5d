-- ===== src/Address/Paths.antt =====
-- Addresses of the unix family, made from a path and printed (tw/address.cc).
use tw_server.Base.{
  ℕ, suc, ◌+◌, ◌-◌, ◌%◌, ◌^◌, ◌≤◌, ◌<◌, ◌≡◌, refl, ap, ◌∙◌, true, false, List, [], ◌∷◌, ◌++◌,
  append_assoc, take_all, length, length-append, take, replicate, All, ok, ltb, ◌==◌, arith,
}
use tw_server.Address.{
  UnixAddress, new_unix_address, copied, insert_unix, c_string, path_size, path_offset,
}

c_string-append : (p rest : List ℕ) → All (λ c. 0 < c) p → c_string (p ++ 0 ∷ rest) ≡ p
unfolding c_string
c_string-append [] rest h = refl
c_string-append (c ∷ p) rest h =
    let e : (c == 0) ≡ false = ground (arith, h.0) in
    rw e (ap (λ t. c ∷ t) (c_string-append p rest h.1))

-- A path that is not empty, has no zero in it and leaves room for one is printed as it was given.
insert_unix-new_unix_address :
    (c : ℕ) (p : List ℕ)
    → 0 < c
    → All (λ d. 0 < d) p
    → length p ≤ 106
    → (a : UnixAddress) × (new_unix_address (c ∷ p) ≡ ok a) × (insert_unix a ≡ c ∷ p)
unfolding new_unix_address copied insert_unix
insert_unix-new_unix_address c p pos h short =
    let q = c ∷ p in
    let not_nul : (c == 0) ≡ false = ground arith in
    let len : (length q + 1) % 2 ^ 32 ≡ length q + 1 = omega arith in
    let fits : ltb path_size (length q + 1) ≡ false = ground arith in
    let all : take (length q + 1) (q ++ 0 ∷ []) ≡ q ++ 0 ∷ [] =
      take_all (length q + 1) (q ++ 0 ∷ []) (omega (arith, length-append q (0 ∷ []))) in
    let path = (q ++ 0 ∷ []) ++ replicate (path_size - (length q + 1)) 0 in
    let a : UnixAddress = record { path = path; length = length q + 1 + path_offset } in
    let rest : List ℕ = replicate (path_size - (length q + 1)) 0 in
    let printed : c_string ((p ++ 0 ∷ []) ++ rest) ≡ p =
      ap c_string (append_assoc p (0 ∷ []) rest) ∙ c_string-append p rest h in
    let longer : ltb path_offset (length q + 1 + path_offset) ≡ true = ground arith in
    (a, rw (not_nul, len, fits, all) refl, rw (longer, not_nul) (ap (λ t. c ∷ t) printed))

take-length-append : (p r : List ℕ) → take (length p) (p ++ r) ≡ p
take-length-append [] r = refl
take-length-append (x ∷ p) r = ap (λ t. x ∷ t) (take-length-append p r)

-- An abstract name, which starts with a zero, is copied without a final zero and printed whole
-- behind `\0`, with the zeros that are in it.
pub insert_unix-abstract :
    (p : List ℕ)
    → length p ≤ 107
    → (a : UnixAddress) × (new_unix_address (0 ∷ p) ≡ ok a) × (insert_unix a ≡ 92 ∷ 48 ∷ p)
unfolding new_unix_address copied insert_unix
insert_unix-abstract p short =
    let n = suc (length p) in
    let len : ((n + 1) % 2 ^ 32 + 2 ^ 32 - 1) % 2 ^ 32 ≡ n = omega arith in
    let fits : ltb path_size n ≡ false = ground arith in
    let longer : ltb path_offset (n + path_offset) ≡ true = ground arith in
    let rest : List ℕ = replicate (path_size - n) 0 in
    let all : take (length p) (p ++ 0 ∷ []) ≡ p = take-length-append p (0 ∷ []) in
    let a : UnixAddress = record { path = (0 ∷ p) ++ rest; length = n + path_offset } in
    let size : n + path_offset - path_offset - 1 ≡ length p = omega arith in
    (
      a,
      rw (len, fits, all) refl,
      rw (longer, size) (ap (λ t. 92 ∷ 48 ∷ t) (take-length-append p rest)),
    )
