-- ===== src/Timer/Order.antt =====
-- The comparator of tw/timer.cc is a strict order, and the set operations keep a list sorted by it.
use tw_server.Base.{
  ℕ, ◌≡◌, inl, inr, refl, sym, subst, ◌∙◌, Bool, true, false, ◌||◌, List, [], ◌∷◌, All, arith, ◌==◌,
  Bool-cases, if◌then◌else◌,
}
use mathlib.Core.Bool.{false≢true}
use tw_server.Timer.{Timer, less, update, insert, find, erase}

abbrev pub Less : (ℕ → Timer) → ℕ → ℕ → Type 0
Less h l r = less h l r ≡ true

abbrev pub Sorted : (ℕ → Timer) → List ℕ → Type 0
Sorted h [] = Unit {0}
Sorted h (p ∷ l) = All (Less h p) l × Sorted h l

abbrev pub mem : ℕ → List ℕ → Bool
mem p [] = false
mem p (q ∷ l) = p == q || mem p l

module _ (h : ℕ → Timer) where
  Less-trans : (a b c : ℕ) → Less h a b → Less h b c → Less h a c
  unfolding less
  Less-trans a b c p q = ground arith

  Less-irrefl : (a : ℕ) → ¬ Less h a a
  unfolding less
  Less-irrefl a p = ground arith

  -- Pointers that the comparator does not tell apart are one pointer.
  less_total : (a b : ℕ) → less h a b ≡ false → less h b a ≡ false → a ≡ b
  unfolding less
  less_total a b p q = ground arith

  All-insert : (P : ℕ → Type 0) (p : ℕ) (l : List ℕ) → P p → All P l → All P (insert h p l)
  unfolding insert
  All-insert P p [] x k = (x, tt)
  All-insert P p (q ∷ l) x k = elim (Bool-cases (less h q p)) [
    | inl e ↦ rw e (k.0, All-insert P p l x k.1)
    | inr e ↦ elim (Bool-cases (less h p q)) [ inl f ↦ rw (e, f) (x, k) | inr f ↦ rw (e, f) k ]
  ]

  All-trans : (a b : ℕ) (l : List ℕ) → Less h a b → All (Less h b) l → All (Less h a) l
  All-trans a b [] p k = tt
  All-trans a b (q ∷ l) p k = (Less-trans a b q p k.0, All-trans a b l p k.1)

  pub Sorted-insert : (p : ℕ) (l : List ℕ) → Sorted h l → Sorted h (insert h p l)
  unfolding insert
  Sorted-insert p [] s = (tt, tt)
  Sorted-insert p (q ∷ l) s = elim (Bool-cases (less h q p)) [
    | inl e ↦ rw e (All-insert (Less h q) p l e s.0, Sorted-insert p l s.1)
    | inr e ↦ elim (Bool-cases (less h p q)) [
      | inl f ↦ rw (e, f) ((f, All-trans p q l f s.0), s)
      | inr f ↦ rw (e, f) s
    ]
  ]

  All-erase : (P : ℕ → Type 0) (p : ℕ) (l : List ℕ) → All P l → All P (erase h p l)
  unfolding erase
  All-erase P p [] k = tt
  All-erase P p (q ∷ l) k = elim (Bool-cases (less h q p)) [
    | inl e ↦ rw e (k.0, All-erase P p l k.1)
    | inr e ↦ rw e k.1
  ]

  pub Sorted-erase : (p : ℕ) (l : List ℕ) → Sorted h l → Sorted h (erase h p l)
  unfolding erase
  Sorted-erase p [] s = tt
  Sorted-erase p (q ∷ l) s = elim (Bool-cases (less h q p)) [
    | inl e ↦ rw e (All-erase (Less h q) p l s.0, Sorted-erase p l s.1)
    | inr e ↦ rw e s.1
  ]

  pub All-mem : (P : ℕ → Type 0) (p : ℕ) (l : List ℕ) → All P l → mem p l ≡ true → P p
  All-mem P p [] k i = absurd (ground arith)
  All-mem P p (q ∷ l) k i = elim (Bool-cases (p == q)) [
    | inl e ↦ let f : q ≡ p = ground arith in subst P f k.0
    | inr e ↦ All-mem P p l k.1 (rw e at i)
  ]

  pub not_mem_of_Less : (p : ℕ) (l : List ℕ) → All (Less h p) l → mem p l ≡ false
  not_mem_of_Less p l k = elim (Bool-cases (mem p l)) [
    | inl e ↦ absurd (Less-irrefl p (All-mem (Less h p) p l k e))
    | inr e ↦ e
  ]

  -- In a sorted set the search finds a pointer exactly where it is.
  pub find-eq-mem : (p : ℕ) (l : List ℕ) → Sorted h l → find h p l ≡ mem p l
  unfolding find
  find-eq-mem p [] s = refl
  find-eq-mem p (q ∷ l) s = elim (Bool-cases (p == q)) [
    | inl e ↦ ground (arith, less_self p)
    | inr e ↦ elim (Bool-cases (less h q p)) [
      | inl f ↦ rw (e, f) (find-eq-mem p l s.1)
      | inr f ↦ elim (Bool-cases (less h p q)) [
        | inl g ↦ rw (e, f, g) (sym (not_mem_of_Less p l (All-trans p q l g s.0)))
        | inr g ↦ absurd (ground (arith, less_total p q g f))
      ]
    ]
  ]
    where
      less_self : (p : ℕ) → less h p p ≡ false
      less_self p = elim (Bool-cases (less h p p)) [ inl f ↦ absurd (Less-irrefl p f) | inr f ↦ f ]

  pub mem-insert : (p q : ℕ) (l : List ℕ) → mem q (insert h p l) ≡ (q == p || mem q l)
  unfolding insert
  mem-insert p q [] = refl
  mem-insert p q (r ∷ l) = elim (Bool-cases (less h r p)) [
    | inl e ↦ rw e (ground (arith, mem-insert p q l))
    | inr e ↦ elim (Bool-cases (less h p r)) [
      | inl f ↦ rw (e, f)
      | inr f ↦ rw (e, f) (ground (arith, less_total p r f e))
    ]
  ]

  -- `erase` takes a pointer that is in the set out, and no other.
  pub mem-erase :
      (p q : ℕ) (l : List ℕ)
      → Sorted h l
      → mem p l ≡ true
      → mem q (erase h p l) ≡ (if q == p then false else mem q l)
  unfolding erase
  mem-erase p q [] s i = absurd (ground arith)
  mem-erase p q (r ∷ l) s i = elim (Bool-cases (less h r p)) [
    | inl e ↦
        let ne : (p == r) ≡ false = not_same p r e in
        rw e (ground (arith, mem-erase p q l s.1 (rw ne at i)))
    | inr e ↦ elim (Bool-cases (p == r)) [
      | inl f ↦ rw e (ground (arith, not_mem_of_Less r l s.0))
      | inr f ↦ absurd (false≢true (sym e ∙ All-mem (Less h r) p l s.0 (rw f at i)))
    ]
  ]
    where
      not_same : (p r : ℕ) → less h r p ≡ true → (p == r) ≡ false
      not_same p r e = elim (Bool-cases (p == r)) [
        | inl f ↦
            let same : p ≡ r = ground arith in absurd (Less-irrefl r (subst (Less h r) same e))
        | inr f ↦ f
      ]

-- A change at an address outside the list leaves its order alone.
All-update :
    (h : ℕ → Timer) (p q : ℕ) (t : Timer) (l : List ℕ)
    → mem p l ≡ false
    → (q == p) ≡ false
    → All (Less h q) l
    → All (Less (update h p t) q) l
unfolding less
All-update h p q t [] out ne k = tt
All-update h p q t (r ∷ l) out ne k =
    (ground (arith, k.0), All-update h p q t l (ground arith) ne k.1)

pub Sorted-update :
    (h : ℕ → Timer) (p : ℕ) (t : Timer) (l : List ℕ)
    → mem p l ≡ false
    → Sorted h l
    → Sorted (update h p t) l
Sorted-update h p t [] out s = tt
Sorted-update h p t (q ∷ l) out s = (
  All-update h p q t l (ground arith) (ground arith) s.0,
  Sorted-update h p t l (ground arith) s.1,
)
