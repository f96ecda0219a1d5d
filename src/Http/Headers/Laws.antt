-- ===== src/Http/Headers/Laws.antt =====
-- Lookup in the case-insensitive maps after a change (tw/http/http.cc).
use tw_server.Base.{
  ℕ, ◌≡◌, refl, ap, sym, ◌∙◌, Bool, true, false, not, ◌&&◌, List, [], ◌∷◌, none, if◌then◌else◌,
  arith, All,
}
use tw_server.Base.Texts.{lex_less, lex_trans, lex_irrefl, lex_total}
use tw_server.Http.Headers.{Map, folded, key_less, lookup, erase}

-- Keys that the map does not tell apart.
abbrev pub same_key : List ℕ → List ℕ → Bool
same_key a b = not (key_less a b) && not (key_less b a)

key_trans : (a b c : List ℕ) → key_less a b ≡ true → key_less b c ≡ true → key_less a c ≡ true
unfolding key_less
key_trans a b c h k = lex_trans (folded a) (folded b) (folded c) h k

key_irrefl : (a : List ℕ) → key_less a a ≡ false
unfolding key_less
key_irrefl a = lex_irrefl (folded a)

-- An equivalent key compares alike with every other.
pub key_less_left :
    (a b c : List ℕ) → key_less a b ≡ false → key_less b a ≡ false → key_less a c ≡ key_less b c
unfolding key_less
key_less_left a b c h k = ap (λ t. lex_less t (folded c)) (lex_total (folded a) (folded b) h k)

pub key_less_right :
    (a b c : List ℕ) → key_less a b ≡ false → key_less b a ≡ false → key_less c a ≡ key_less c b
unfolding key_less
key_less_right a b c h k = ap (λ t. lex_less (folded c) t) (lex_total (folded a) (folded b) h k)

-- The entries stand in the order of their keys.
abbrev pub Ordered : Map → Type 0
Ordered [] = Unit {0}
Ordered (e ∷ m) = All (λ f. key_less e.0 f.0 ≡ true) m × Ordered m

below-All : (k : List ℕ) (m : Map) → All (λ f. key_less k f.0 ≡ true) m → lookup k m ≡ none
unfolding lookup
below-All k [] h = refl
below-All k ((j, w) ∷ m) h = ground (arith, h.0, key_trans j k j, key_irrefl j)

nothing_below :
    (i j : List ℕ) (m : Map)
    → key_less i j ≡ true
    → All (λ f. key_less j f.0 ≡ true) m
    → lookup i m ≡ none
nothing_below i j m p h = below-All i m (all_trans i j m p h)
  where
    all_trans :
        (i j : List ℕ) (m : Map)
        → key_less i j ≡ true
        → All (λ f. key_less j f.0 ≡ true) m
        → All (λ f. key_less i f.0 ≡ true) m
    all_trans i j [] p h = tt
    all_trans i j ((l, w) ∷ m) p h = (key_trans i j l p h.0, all_trans i j m p h.1)

nothing_same :
    (i j : List ℕ) (m : Map)
    → key_less j i ≡ false
    → key_less i j ≡ false
    → All (λ f. key_less j f.0 ≡ true) m
    → lookup i m ≡ none
nothing_same i j m p q h = below-All i m (all_same i j m p q h)
  where
    all_same :
        (i j : List ℕ) (m : Map)
        → key_less j i ≡ false
        → key_less i j ≡ false
        → All (λ f. key_less j f.0 ≡ true) m
        → All (λ f. key_less i f.0 ≡ true) m
    all_same i j [] p q h = tt
    all_same i j ((l, w) ∷ m) p q h = (sym (key_less_left j i l p q) ∙ h.0, all_same i j m p q h.1)

-- What is erased is found under no spelling of its key, and nothing else changes.
lookup-erase :
    (i k : List ℕ) (m : Map)
    → Ordered m
    → lookup i (erase k m) ≡ (if same_key k i then none else lookup i m)
unfolding lookup erase
lookup-erase i k [] h = ground arith
lookup-erase i k ((j, w) ∷ m) h = ground (
  arith,
  lookup-erase i k m h.1,
  nothing_below i j m,
  nothing_same i j m,
  nothing_below k j m,
  key_trans j k i,
  key_trans k j i,
  key_trans i k j,
  key_trans i j k,
  key_less_left j k i,
  key_less_right j k i,
  key_less_left k i j,
  key_less_right k i j,
  h.0,
  h.1,
)
