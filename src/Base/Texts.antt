-- ===== src/Base/Texts.antt =====
-- Texts as bytes, in the order of std::string and strcmp.
use mathlib.Core.Bool.{Bool, true, false, false≢true, ◌&&◌}
use mathlib.Core.Path.{◌≡◌, refl, sym}
use mathlib.Core.List.{List, [], ◌∷◌}
use Prim.Native.Nat.{ℕ}
use native.Mathlib.Omega.{arith}
use tw_server.Base.Tests.{ltb, ◌==◌, if◌then◌else◌}

unfoldable pub lex_less : List ℕ → List ℕ → Bool
lex_less a [] = false
lex_less [] (y ∷ b) = true
lex_less (x ∷ a) (y ∷ b) = if ltb x y then true else if ltb y x then false else lex_less a b

pub lex_trans : (a b c : List ℕ) → lex_less a b ≡ true → lex_less b c ≡ true → lex_less a c ≡ true
unfolding lex_less
lex_trans a b [] h k = absurd (false≢true k)
lex_trans a [] (z ∷ c) h k = absurd (false≢true h)
lex_trans [] (y ∷ b) (z ∷ c) h k = refl
lex_trans (x ∷ a) (y ∷ b) (z ∷ c) h k = ground (arith, lex_trans a b c)

pub lex_irrefl : (a : List ℕ) → lex_less a a ≡ false
unfolding lex_less
lex_irrefl [] = refl
lex_irrefl (x ∷ a) = ground (arith, lex_irrefl a)

pub lex_total : (a b : List ℕ) → lex_less a b ≡ false → lex_less b a ≡ false → a ≡ b
unfolding lex_less
lex_total [] [] h k = refl
lex_total [] (y ∷ b) h k = absurd (false≢true (sym h))
lex_total (x ∷ a) [] h k = absurd (false≢true (sym k))
lex_total (x ∷ a) (y ∷ b) h k = ground (arith, lex_total a b)

-- operator== of std::string.
abbrev pub same_text : List ℕ → List ℕ → Bool
same_text [] [] = true
same_text [] (b ∷ t) = false
same_text (a ∷ s) [] = false
same_text (a ∷ s) (b ∷ t) = a == b && same_text s t

pub same_text_eq : (a b : List ℕ) → same_text a b ≡ true → a ≡ b
same_text_eq [] [] h = refl
same_text_eq [] (y ∷ b) h = cc
same_text_eq (x ∷ a) [] h = cc
same_text_eq (x ∷ a) (y ∷ b) h = ground (arith, same_text_eq a b)

pub same_text_refl : (a : List ℕ) → same_text a a ≡ true
same_text_refl [] = refl
same_text_refl (x ∷ a) = ground (arith, same_text_refl a)
