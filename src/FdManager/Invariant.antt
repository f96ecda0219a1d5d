-- ===== src/FdManager/Invariant.antt =====
-- Lookup after `get` and `del` (tw/fd_manager.cc).
use tw_server.Base.{
  ℕ, zero, suc, ◌-◌, ◌*◌, ◌/◌, ◌≤◌, ◌<◌, ◌≡◌, refl, ap, sym, ◌∙◌, true, false, List, [], ◌∷◌,
  Option, none, some, length, replicate, set, get_elem?, leb, ◌==◌, if◌then◌else◌, ◌++◌, take, ok,
  inl, inr, Bool-cases, Option-cases, arith, length-append, length-take, length-replicate,
  length-set,
}
use tw_server.FdManager.{Sys, FdCtx, Fds, new_ctx, create, get, del, resize, known}

module _ {ℓ} {A : Type ℓ} where
  get_elem?-set :
      (l : List A) (i j : ℕ) (v : A)
      → i < length l
      → get_elem? (set l i v) j ≡ (if i == j then some v else get_elem? l j)
  get_elem?-set [] i j v h = elim h [ ]
  get_elem?-set (x ∷ l) zero zero v h = refl
  get_elem?-set (x ∷ l) zero (suc j) v h = ground arith
  get_elem?-set (x ∷ l) (suc i) zero v h = ground arith
  get_elem?-set (x ∷ l) (suc i) (suc j) v h = ground (arith, get_elem?-set l i j v (omega arith))

-- What the table holds for a descriptor, and for one that it has no room for.
abbrev pub entry : Fds → ℕ → Option FdCtx
entry l fd = known (get_elem? l fd)

known-none_front : (n i : ℕ) → known (get_elem? (replicate n none) i) ≡ none
known-none_front zero i = refl
known-none_front (suc n) zero = refl
known-none_front (suc n) (suc i) = known-none_front n i

take_and_fill :
    (l : Fds) (n m i : ℕ)
    → length l ≤ n
    → known (get_elem? (take n l ++ replicate m none) i) ≡ known (get_elem? l i)
take_and_fill [] zero m i h = known-none_front m i
take_and_fill [] (suc n) m i h = known-none_front m i
take_and_fill (x ∷ l) zero m i h = elim h [ ]
take_and_fill (x ∷ l) (suc n) m zero h = refl
take_and_fill (x ∷ l) (suc n) m (suc i) h = take_and_fill l n m i (omega arith)

length-resize : (n : ℕ) (l : Fds) → length (resize n l) ≡ n
length-resize n l = omega (
  arith,
  length-append (take n l) (replicate (n - length l) none),
  length-take n l,
  length-replicate {A = Option FdCtx} (n - length l) none,
)

-- A table of at least 64 entries has a place for the new entry once it is grown by a half.
create_lem :
    (k : Sys) (fd : ℕ) (l : Fds)
    → 64 ≤ length l
    → (l' : Fds) × (create k fd l ≡ ok (l', some (new_ctx k fd)))
      × (64 ≤ length l')
      × ((j : ℕ) → entry l' j ≡ (if fd == j then some (new_ctx k fd) else entry l j))
unfolding create
create_lem k fd l h = elim (Bool-cases (leb (length l) fd)) [
  | inl e ↦
      let long = resize (fd * 3 / 2) l in
      let len : length long ≡ fd * 3 / 2 = length-resize (fd * 3 / 2) l in
      let big : length l ≤ fd = ground arith in
      let room : fd < length long = omega (arith, len) in
      (
        set long fd (some (new_ctx k fd)),
        ground (arith, room),
        omega (arith, length-set long fd (some (new_ctx k fd)), len),
        λ j. ground (
          arith,
          get_elem?-set long fd j (some (new_ctx k fd)) room,
          take_and_fill l (fd * 3 / 2) (fd * 3 / 2 - length l) j (omega arith),
        ),
      )
  | inr e ↦ (
    set l fd (some (new_ctx k fd)),
    ground arith,
    omega (arith, length-set l fd (some (new_ctx k fd))),
    λ j. ground (arith, get_elem?-set l fd j (some (new_ctx k fd)) (ground arith)),
  )
]

-- Which entry `get(fd, true)` gives: the one that is there, or a new one.
abbrev pub first_use : Sys → ℕ → Option FdCtx → FdCtx
first_use k fd none = new_ctx k fd
first_use k fd (some c) = c

beyond : (l : Fds) (fd : ℕ) → length l ≤ fd → entry l fd ≡ none
beyond [] fd h = refl
beyond (x ∷ l) zero h = elim h [ ]
beyond (x ∷ l) (suc fd) h = beyond l fd (omega arith)

-- `get(fd, true)` gives the entry of the descriptor, made on first use, keeps it in the table, and
-- changes no other entry.
pub get_create :
    (k : Sys) (fd : ℕ) (l : Fds)
    → 64 ≤ length l
    → (l' : Fds) × (get k (some fd) true l ≡ ok (l', some (first_use k fd (entry l fd))))
      × (64 ≤ length l')
      × ((j : ℕ) → entry l' j ≡ (if fd == j then some (first_use k fd (entry l fd)) else entry l j))
unfolding get
get_create k fd l h =
    let (l', run, long, at) = create_lem k fd l h in
    elim (Bool-cases (leb (length l) fd)) [
      | inl e ↦
          let new : entry l fd ≡ none = beyond l fd (ground arith) in
          (l', rw (e, new) run, long, λ j. rw new (at j))
      | inr e ↦ elim (Option-cases (entry l fd)) [
        | inl new ↦ (l', rw (e, new) run, long, λ j. rw new (at j))
        | inr (c, old) ↦ (l, rw (e, old), h, λ j. rw old (kept c old j))
      ]
    ]
  where
    kept :
        (c : FdCtx)
        → entry l fd ≡ some c
        → (j : ℕ) → entry l j ≡ (if fd == j then some c else entry l j)
    kept c old j = elim (Bool-cases (fd == j)) [
      | inl f ↦ let same : j ≡ fd = ground arith in rw f (ap (entry l) same ∙ old)
      | inr f ↦ rw f
    ]

-- Without creation `get` only looks: -1 and a descriptor with no entry give null.
pub get_look : (k : Sys) (fd : ℕ) (l : Fds) → get k (some fd) false l ≡ ok (l, entry l fd)
unfolding get
get_look k fd l = elim (Bool-cases (leb (length l) fd)) [
  | inl e ↦ rw e (ap (λ c. ok (l, c)) (sym (beyond l fd (ground arith))))
  | inr e ↦ ground arith
]

-- `del` takes the entry of the descriptor out and no other.
pub del_lem :
    (fd : ℕ) (l : Fds)
    → (l' : Fds) × (del (some fd) l ≡ ok l')
      × (length l' ≡ length l)
      × ((j : ℕ) → entry l' j ≡ (if fd == j then none else entry l j))
unfolding del
del_lem fd l = elim (Bool-cases (leb (length l) fd)) [
  | inl e ↦ (
    l,
    rw e,
    refl,
    λ j. elim (Bool-cases (fd == j)) [ inl f ↦ rw f (beyond l j (ground arith)) | inr f ↦ rw f ],
  )
  | inr e ↦ (
    set l fd none,
    rw e,
    length-set l fd none,
    λ j. ground (arith, get_elem?-set {A = Option FdCtx} l fd j none (ground arith)),
  )
]
