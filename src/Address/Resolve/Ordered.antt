-- ===== src/Address/Resolve/Ordered.antt =====
-- std::multimap with texts as keys, as GetInterfaceAddresses uses it (tw/address.cc).
use tw_server.Base.{
  ℕ, ◌≡◌, refl, ap, ◌∙◌, sym, Bool, true, false, not, ◌&&◌, List, [], ◌∷◌, ◌++◌, if◌then◌else◌, All,
  Bool-cases, inl, inr, arith,
}
use tw_server.Base.Texts.{lex_less, lex_trans, lex_irrefl, lex_total}

abbrev pub Multimap : Type 0 → Type 0
Multimap V = List (List ℕ × V)

abbrev pub same_key : List ℕ → List ℕ → Bool
same_key a b = not (lex_less a b) && not (lex_less b a)

module _ {V : Type 0} where
  -- Behind the entries of keys that are not larger.
  unfoldable pub insert : List ℕ → V → Multimap V → Multimap V
  unfolding lex_less
  insert k v [] = (k, v) ∷ []
  insert k v ((j, w) ∷ m) = if lex_less k j then (k, v) ∷ ((j, w) ∷ m) else (j, w) ∷ insert k v m

  -- The values of the entries whose key is equivalent.
  unfoldable pub equal_range : List ℕ → Multimap V → List V
  unfolding lex_less
  equal_range k [] = []
  equal_range k ((j, w) ∷ m) = if same_key j k then w ∷ equal_range k m else equal_range k m

  abbrev pub IsOrdered : Multimap V → Type 0
  IsOrdered [] = Unit {0}
  IsOrdered (e ∷ m) = All (λ f. lex_less (f.0) (e.0) ≡ false) m × IsOrdered m

  below-insert :
      (j k : List ℕ) (v : V) (m : Multimap V)
      → lex_less k j ≡ false
      → All (λ f. lex_less (f.0) j ≡ false) m
      → All (λ f. lex_less (f.0) j ≡ false) (insert k v m)
  unfolding insert
  below-insert j k v [] h a = (h, tt)
  below-insert j k v ((i, w) ∷ m) h a = elim (Bool-cases (lex_less k i)) [
    | inl e ↦ rw e (h, a)
    | inr e ↦ rw e (a.0, below-insert j k v m h a.1)
  ]

  -- A key that is smaller than the first is smaller than all.
  smaller_key :
      (k i : List ℕ) (m : Multimap V)
      → lex_less k i ≡ true
      → All (λ f. lex_less (f.0) i ≡ false) m
      → All (λ f. lex_less (f.0) k ≡ false) m
  smaller_key k i [] h a = tt
  smaller_key k i ((j, w) ∷ m) h a = (
    elim (Bool-cases (lex_less j k)) [ inl e ↦ let t = lex_trans j k i e h in cc | inr e ↦ e ],
    smaller_key k i m h a.1,
  )

  pub insert-IsOrdered :
      (k : List ℕ) (v : V) (m : Multimap V) → IsOrdered m → IsOrdered (insert k v m)
  unfolding insert
  insert-IsOrdered k v [] h = (tt, tt)
  insert-IsOrdered k v ((i, w) ∷ m) h = elim (Bool-cases (lex_less k i)) [
    | inl e ↦ rw e ((not_less_back k i e, smaller_key k i m e h.0), h)
    | inr e ↦ rw e (below-insert i k v m e h.0, insert-IsOrdered k v m h.1)
  ]
    where
      not_less_back : (k i : List ℕ) → lex_less k i ≡ true → lex_less i k ≡ false
      not_less_back k i e = elim (Bool-cases (lex_less i k)) [
        | inl f ↦ let t = lex_trans k i k e f in let n = lex_irrefl k in cc
        | inr f ↦ f
      ]

  nothing_equal :
      (k i : List ℕ) (m : Multimap V)
      → lex_less k i ≡ true
      → All (λ f. lex_less (f.0) i ≡ false) m
      → equal_range k m ≡ []
  unfolding equal_range
  nothing_equal k i [] h a = refl
  nothing_equal k i ((j, w) ∷ m) h a = elim (Bool-cases (lex_less k j)) [
    | inl e ↦ let rest = nothing_equal k i m h a.1 in ground (arith, e, rest)
    | inr e ↦
        let rest = nothing_equal k i m h a.1 in
        let small = smaller j (lex_less j k) refl e a.0 in ground (arith, small, rest)
  ]
    where
      smaller :
          (j : List ℕ) (b : Bool)
          → lex_less j k ≡ b
          → lex_less k j ≡ false
          → lex_less j i ≡ false
          → lex_less j k ≡ true
      smaller j true e f g = e
      smaller j false e f g =
          let same = lex_total j k e f in
          let t : lex_less j i ≡ true = ap (λ x. lex_less x i) same ∙ h in cc

  equal_range_first :
      (j k : List ℕ) (v : V) (m : Multimap V)
      → equal_range j ((k, v) ∷ m) ≡ (if same_key k j then v ∷ equal_range j m else equal_range j m)
  unfolding equal_range
  equal_range_first j k v m = refl

  in_front :
      (j k i : List ℕ) (v w : V) (m : Multimap V)
      → lex_less k i ≡ true
      → IsOrdered ((i, w) ∷ m)
      → equal_range j ((k, v) ∷ (i, w) ∷ m) ≡ (
          if same_key k j then equal_range j ((i, w) ∷ m) ++ v ∷ [] else equal_range j ((i, w) ∷ m))
  in_front j k i v w m e h = elim (Bool-cases (same_key k j)) [
    | inl s ↦
        let same = lex_total k j (ground (arith, s)) (ground (arith, s)) in
        let none_here =
          nothing_equal j i ((i, w) ∷ m) (ap (λ x. lex_less x i) (sym same) ∙ e)
            (lex_irrefl i, h.0) in
        equal_range_first j k v ((i, w) ∷ m) ∙ rw (s, none_here) refl
    | inr s ↦ equal_range_first j k v ((i, w) ∷ m) ∙ rw s refl
  ]

  behind :
      (j i : List ℕ) (w : V) (b : Bool) (v : V) (m m' : Multimap V)
      → equal_range j m' ≡ (if b then equal_range j m ++ v ∷ [] else equal_range j m)
      → equal_range j ((i, w) ∷ m')
        ≡ (if b then equal_range j ((i, w) ∷ m) ++ v ∷ [] else equal_range j ((i, w) ∷ m))
  behind j i w b v m m' ih =
      rw (equal_range_first j i w m', equal_range_first j i w m) (ground (arith, ih))

  -- What is inserted stands behind the values of its key, and no other key changes.
  pub equal_range-insert :
      (j k : List ℕ) (v : V) (m : Multimap V)
      → IsOrdered m
      → equal_range j (insert k v m)
        ≡ (if same_key k j then equal_range j m ++ v ∷ [] else equal_range j m)
  unfolding insert equal_range
  equal_range-insert j k v [] h = equal_range_first j k v []
  equal_range-insert j k v ((i, w) ∷ m) h = elim (Bool-cases (lex_less k i)) [
    | inl e ↦ rw e (in_front j k i v w m e h)
    | inr e ↦ rw e (behind j i w (same_key k j) v m (insert k v m) (equal_range-insert j k v m h.1))
  ]
