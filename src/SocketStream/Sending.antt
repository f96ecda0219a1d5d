-- ===== src/SocketStream/Sending.antt =====
-- A ByteArray sent whole in pieces (tw/socket_stream.cc, tw/stream.cc).
use tw_server.Base.{
  ℕ, zero, suc, ◌+◌, ◌≤◌, ◌≡◌, refl, ap, sym, ◌∙◌, true, false, List, [], ◌∷◌, ◌++◌, append_assoc,
  append-nil, Option, some, take, drop, ◌==◌, sub64, ok, fail, Outcome, arith,
}
use tw_server.Socket.{Socket, transfer}
use tw_server.ByteArray.{ByteArray}
use tw_server.ByteArray.Bytes.{slice}
use tw_server.ByteArray.Invariant.{IsValid, memory}
use tw_server.ByteArray.Room.{content}
use tw_server.ByteArray.ReadLaws.{read-ReadAt}
use tw_server.ByteArray.Seek.{set_position-At}
use tw_server.ByteArray.Buffers.Gather.{gather}
use tw_server.ByteArray.Buffers.Laws.{nodes, get_read_buffers_lem}
use tw_server.SocketStream.{whole, advance_by, write_array, write_fix_size_array}

take-nil : (n : ℕ) → take {A = ℕ} n [] ≡ []
take-nil zero = refl
take-nil (suc n) = refl

drop-nil : (n : ℕ) → drop {A = ℕ} n [] ≡ []
drop-nil zero = refl
drop-nil (suc n) = refl

suc_add : (k r : ℕ) → suc k + r ≡ suc (k + r)
suc_add k r = omega arith

take_split : (k r : ℕ) (xs : List ℕ) → take (k + r) xs ≡ take k xs ++ take r (drop k xs)
take_split zero r xs = let e : 0 + r ≡ r = omega arith in ap (λ n. take n xs) e
take_split (suc k) r [] = take-nil (suc k + r) ∙ sym (take-nil r)
take_split (suc k) r (x ∷ xs) =
    ap (λ n. take n (x ∷ xs)) (suc_add k r) ∙ ap (λ t. x ∷ t) (take_split k r xs)

drop_sum : (i k : ℕ) (xs : List ℕ) → drop (i + k) xs ≡ drop k (drop i xs)
drop_sum zero k xs = let e : 0 + k ≡ k = omega arith in ap (λ n. drop n xs) e
drop_sum (suc i) k [] = drop-nil (suc i + k) ∙ sym (drop-nil k)
drop_sum (suc i) k (x ∷ xs) = ap (λ n. drop n (x ∷ xs)) (suc_add i k) ∙ drop_sum i k xs

take-take : (k r : ℕ) (xs : List ℕ) → take k (take (k + r) xs) ≡ take k xs
take-take zero r xs = refl
take-take (suc k) r [] = ap (take (suc k)) (take-nil (suc k + r))
take-take (suc k) r (x ∷ xs) =
    ap (λ n. take (suc k) (take n (x ∷ xs))) (suc_add k r) ∙ ap (λ t. x ∷ t) (take-take k r xs)

slice_split : (i k r : ℕ) (xs : List ℕ) → slice i (k + r) xs ≡ slice i k xs ++ slice (i + k) r xs
slice_split i k r xs =
    take_split k r (drop i xs) ∙ ap (λ t. slice i k xs ++ take r t) (sym (drop_sum i k xs))

-- Counts of bytes, each a predecessor.
abbrev pub total : List ℕ → ℕ
total [] = 0
total (k ∷ ks) = suc k + total ks

abbrev pub counts : List ℕ → List (Option ℕ)
counts [] = []
counts (k ∷ ks) = some (suc k) ∷ counts ks

outcome_path {ℓ} : {A : Type ℓ} (f : A) {a b : A} → ◌≡◌ {A = Outcome A} (ok a) (ok b) → a ≡ b
outcome_path {A = A} f e = ap (λ o. elim o [ ok x ↦ x | fail e ↦ f ]) e

-- One `write` that sends `suc k` of `suc k + r` bytes.
sends :
    (sock : Socket) (k r : ℕ) (s : ByteArray)
    → sock.is_connected ≡ true
    → IsValid s
    → s.position + (suc k + r) ≤ s.size
    → (s' : ByteArray) × (write_array (some sock) (some (suc k)) (suc k + r) s
        ≡ ok (s', some (suc k), slice s.position (suc k) (content s)))
      × IsValid s'
      × (s'.position ≡ s.position + suc k)
      × (s'.size ≡ s.size)
      × (content s' ≡ content s)
unfolding write_array transfer advance_by
sends sock k r s on v fits =
    let n = suc k + r in
    let (iovs, s0, run, got, _, _) = get_read_buffers_lem n s v (omega arith) fits in
    let (s0', got', _) = read-ReadAt n s v (omega arith) fits in
    let bytes : gather (nodes s) iovs ≡ slice s.position n (content s) =
      ap (λ p. p.0) (outcome_path ([], s) (sym got ∙ got')) in
    let (s1, moved, at) = set_position-At (s.position + suc k) s v (omega (arith, v.size-le)) in
    let size : s1.size ≡ s.size = omega (arith, at.size_lem) in
    let sent : take (suc k) (gather (nodes s) iovs) ≡ slice s.position (suc k) (content s) =
      ap (take (suc k)) bytes ∙ take-take (suc k) r (drop s.position (content s)) in
    (
      s1,
      rw (on, run, moved, sent) refl,
      at.valid,
      at.position_lem,
      size,
      ap (λ n. take n (memory s1)) size ∙ ap (take s.size) at.memory_same,
    )

-- Where a connected socket accepts the bytes that are left in pieces of at least one byte,
-- `writeFixSize` of a ByteArray sends exactly that many bytes of the content from the position on,
-- in order, and moves the position behind them.
pub write_fix_size_array_whole :
    (sock : Socket) (ks : List ℕ) (s : ByteArray) (out : List ℕ)
    → sock.is_connected ≡ true
    → IsValid s
    → s.position + total ks ≤ s.size
    → (s' : ByteArray) × (write_fix_size_array (some sock) (counts ks) (total ks) s out
        ≡ ok (whole s' (out ++ slice s.position (total ks) (content s))))
      × IsValid s'
      × (s'.position ≡ s.position + total ks)
      × (content s' ≡ content s)
unfolding write_fix_size_array
write_fix_size_array_whole sock [] s out on v fits =
    (s, ap (λ o. ok (whole s o)) (sym (append-nil out)), v, omega arith, refl)
write_fix_size_array_whole sock (k ∷ ks) s out on v fits =
    let n = suc k + total ks in
    let (s1, run, v1, pos, size, same) = sends sock k (total ks) s on v fits in
    let chunk = slice s.position (suc k) (content s) in
    let (s', later, v', pos', same') =
      write_fix_size_array_whole sock ks s1 (out ++ chunk) on v1 (omega arith) in
    let not_done : (n == 0) ≡ false = ground arith in
    let left : sub64 n (suc k) ≡ total ks = ground arith in
    let sent : (out ++ chunk) ++ slice s1.position (total ks) (content s1)
        ≡ out ++ slice s.position n (content s) =
      append_assoc out chunk _
      ∙ ap (λ t. out ++ (chunk ++ t))
          (ap (λ i. slice i (total ks) (content s1)) pos
            ∙ ap (slice (s.position + suc k) (total ks)) same)
      ∙ ap (λ t. out ++ t) (sym (slice_split s.position (suc k) (total ks) (content s))) in
    (
      s',
      rw (not_done, run, left) (later ∙ ap (λ o. ok (whole s' o)) sent),
      v',
      pos' ∙ omega arith,
      same' ∙ same,
    )
