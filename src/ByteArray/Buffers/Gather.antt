-- ===== src/ByteArray/Buffers/Gather.antt =====
-- The bytes that an iovec list points to (tw/bytearray.cc).
use tw_server.Base.{
  take_all, ℕ, zero, suc, ◌+◌, ◌-◌, ◌≤◌, ◌<◌, ◌≡◌, refl, ap, sym, ◌∙◌, List, [], ◌∷◌, ◌++◌, length,
  leb, ◌==◌, drop, false, ◌>>=◌, subst, length-drop, Bool-cases, inl, inr, ok, All, arith,
  append_assoc, append-nil, length-append,
}
use tw_server.ByteArray.Bytes.{Block, slice, flat, slice-append, slice-append_left}
use tw_server.ByteArray.Buffers.{Iovec, iov_loop, head_size}

abbrev pub node_bytes : List Block → ℕ → Block
node_bytes [] i = []
node_bytes (b ∷ nodes) zero = b
node_bytes (b ∷ nodes) (suc i) = node_bytes nodes i

-- What a gathered write sends.
abbrev pub gather : List Block → List Iovec → List ℕ
gather nodes [] = []
gather nodes (v ∷ vs) = slice v.offset v.len (node_bytes nodes v.node) ++ gather nodes vs

abbrev pub total_len : List Iovec → ℕ
total_len [] = 0
total_len (v ∷ vs) = v.len + total_len vs

-- The memory of the buffer lies within its node.
abbrev pub InNode : List Block → Iovec → Type 0
InNode nodes v = v.offset + v.len ≤ length (node_bytes nodes v.node)

node_bytes-append :
    (passed : List Block) (b : Block) (rest : List Block)
    → node_bytes (passed ++ b ∷ rest) (length passed) ≡ b
node_bytes-append [] b rest = refl
node_bytes-append (c ∷ passed) b rest = node_bytes-append passed b rest

-- What a list of buffers for a run of bytes has to be.
pub record Gathered (nodes : List Block) (bytes : List ℕ) (len : ℕ) (iovs : List Iovec)
    : Type 0 where
  pub gather_lem : gather nodes iovs ≡ bytes
  pub total_lem : total_len iovs ≡ len
  pub inside : All (InNode nodes) iovs

one_buffer :
    (nodes passed : List Block) (b : Block) (rest : List Block) (npos len : ℕ)
    → nodes ≡ passed ++ b ∷ rest
    → npos + len ≤ length b
    → Gathered nodes
        (slice npos len (b ++ flat rest))
        len
        (record { node = length passed; offset = npos; len = len } ∷ [])
one_buffer nodes passed b rest npos len e fits =
    let here : node_bytes nodes (length passed) ≡ b =
      ap (λ t. node_bytes t (length passed)) e ∙ node_bytes-append passed b rest in
    record {
      gather_lem =
          rw here
            (append-nil (slice npos len b) ∙ sym (slice-append_left npos len b (flat rest) fits));
      total_lem = omega arith;
      inside = (rw here fits, tt);
    }

next_buffer :
    (nodes passed : List Block) (b : Block) (rest : List Block) (npos len : ℕ) (iovs : List Iovec)
    → nodes ≡ passed ++ b ∷ rest
    → npos ≤ length b
    → length b - npos ≤ len
    → Gathered nodes (slice 0 (len - (length b - npos)) (flat rest)) (len - (length b - npos)) iovs
    → Gathered nodes
        (slice npos len (b ++ flat rest))
        len
        (record { node = length passed; offset = npos; len = length b - npos } ∷ iovs)
next_buffer nodes passed b rest npos len iovs e below le g =
    let here : node_bytes nodes (length passed) ≡ b =
      ap (λ t. node_bytes t (length passed)) e ∙ node_bytes-append passed b rest in
    let k = len - (length b - npos) in
    let whole_tail : slice npos (length b - npos) b ≡ drop npos b =
      take_all (length b - npos) (drop npos b) (omega (arith, length-drop npos b)) in
    let split : len ≡ (length b - npos) + k = omega arith in
    record {
      gather_lem =
          rw (here, whole_tail)
            (ap (λ t. drop npos b ++ t) g.gather_lem
              ∙ sym (
                  ap (λ t. slice npos t (b ++ flat rest)) split
                  ∙ slice-append npos (length b - npos) k b (flat rest) (omega arith)));
      total_lem = omega (arith, g.total_lem);
      inside = (rw here (omega arith), g.inside);
    }

-- The loop ends, faults nowhere, and its buffers are the run at the offset.
pub iov_loop_lem :
    (nodes passed rest : List Block) (i npos len : ℕ)
    → nodes ≡ passed ++ rest
    → i ≡ length passed
    → npos ≤ head_size rest
    → 0 < len
    → npos + len ≤ length (flat rest)
    → (iovs : List Iovec) × (iov_loop i rest npos (head_size rest - npos) len ≡ ok iovs)
      × Gathered nodes (slice npos len (flat rest)) len iovs
unfolding iov_loop
iov_loop_lem nodes passed [] i npos len e at below pos fits = absurd (omega arith)
iov_loop_lem nodes passed (b ∷ rest) i npos len e at below pos fits =
    let some_left : (len == 0) ≡ false = ground arith in
    elim (Bool-cases (leb len (length b - npos))) [
      | inl f ↦ (
        record { node = i; offset = npos; len = len } ∷ [],
        rw (some_left, f) refl,
        subst
            (λ t.
              Gathered nodes (slice npos len (b ++ flat rest)) len
                (record { node = t; offset = npos; len = len } ∷ []))
            (sym at) (one_buffer nodes passed b rest npos len e (ground arith)),
      )
      | inr f ↦
          let le : length b - npos < len = ground arith in
          let (iovs, run, g) =
            iov_loop_lem nodes (passed ++ b ∷ []) rest (i + 1) 0 (len - (length b - npos))
              (e ∙ sym (append_assoc passed (b ∷ []) rest))
              (omega (arith, length-append passed (b ∷ []))) (omega arith) (omega arith)
              (omega (arith, length-append b (flat rest))) in
          let run' : iov_loop (i + 1) rest 0 (head_size rest) (len - (length b - npos)) ≡ ok iovs =
            subst (λ t. iov_loop (i + 1) rest 0 t (len - (length b - npos)) ≡ ok iovs) (omega arith)
              run in
          (
            record { node = i; offset = npos; len = length b - npos } ∷ iovs,
            rw (some_left, f)
                (ap
                  (λ o. o >>= λ iovs.
                    ok (record { node = i; offset = npos; len = length b - npos } ∷ iovs))
                  run'),
            subst
                (λ t.
                  Gathered nodes (slice npos len (b ++ flat rest)) len
                    (record { node = t; offset = npos; len = length b - npos } ∷ iovs))
                (sym at) (next_buffer nodes passed b rest npos len iovs e below (omega arith) g),
          )
    ]
