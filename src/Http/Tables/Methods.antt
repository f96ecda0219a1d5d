-- ===== src/Http/Tables/Methods.antt =====
-- The names of the methods, and what the two readers make of them (tw/http/http.cc).
use tw_server.Base.{
  ℕ, zero, suc, ◌+◌, ◌<◌, ◌≡◌, refl, ◌∙◌, Bool, true, false, ◌&&◌, List, [], ◌∷◌, ◌++◌, ◌==◌, arith,
  length, if◌then◌else◌, ==_iff,
}
use tw_server.Http.Tables.{
  s_method_string, string_to_http_method, chars_to_http_method, http_method_to_string, starts_with,
  first_match, name_at, invalid_mathod,
}

-- No name of the list begins another one's text: the search at `name ++ rest` passes the earlier
-- names and stops at it.
starts_with-append : (a b rest : List ℕ) → starts_with a b ≡ true → starts_with a (b ++ rest) ≡ true
starts_with-append [] b rest h = refl
starts_with-append (x ∷ a) [] rest h = absurd (ground arith)
starts_with-append (x ∷ a) (y ∷ b) rest h = ground (arith, starts_with-append a b rest)

-- Whether the two texts differ at a place that both have.
abbrev clash : List ℕ → List ℕ → Bool
clash [] b = false
clash (x ∷ a) [] = false
clash (x ∷ a) (y ∷ b) = if x == y then clash a b else true

clash_lem : (a b rest : List ℕ) → clash a b ≡ true → starts_with a (b ++ rest) ≡ false
clash_lem [] b rest h = absurd (ground arith)
clash_lem (x ∷ a) [] rest h = absurd (ground arith)
clash_lem (x ∷ a) (y ∷ b) rest h = ground (arith, clash_lem a b rest)

abbrev pub all_clash : ℕ → List (List ℕ) → List ℕ → Bool
all_clash zero names b = true
all_clash (suc i) [] b = true
all_clash (suc i) (a ∷ names) b = clash a b && all_clash i names b

starts_with_self : (b rest : List ℕ) → starts_with b (b ++ rest) ≡ true
starts_with_self [] rest = refl
starts_with_self (x ∷ b) rest = ground (arith, starts_with_self b rest)

first_match_at :
    (names : List (List ℕ)) (i j : ℕ) (rest : List ℕ)
    → j < length names
    → all_clash j names (name_at names j) ≡ true
    → first_match (λ name. starts_with name (name_at names j ++ rest)) i names ≡ i + j
first_match_at [] i j rest h k = elim h [ ]
first_match_at (a ∷ names) i zero rest h k = rw (starts_with_self a rest) (omega arith)
first_match_at (a ∷ names) i (suc j) rest h k =
    let b = name_at names j in
    let first : clash a b ≡ true = ground arith in
    rw (clash_lem a b rest first)
      (first_match_at names (suc i) j rest (omega arith) (ground arith) ∙ omega arith)

abbrev all_below : ℕ → (ℕ → Bool) → Bool
all_below zero test = true
all_below (suc n) test = test n && all_below n test

all_below_sound :
    (n : ℕ) (test : ℕ → Bool) (i : ℕ) → all_below n test ≡ true → i < n → test i ≡ true
all_below_sound zero test i h lt = absurd (omega arith)
all_below_sound (suc n) test i h lt = ground (arith, all_below_sound n test i)

method_names_clash :
    all_below 34 (λ j. all_clash j s_method_string (name_at s_method_string j)) ≡ true
unfolding s_method_string
method_names_clash = refl

method_count : length s_method_string ≡ 34
unfolding s_method_string
method_count = refl

-- Any text that begins with the name of a method is read as that method, whatever follows the name.
pub chars_to_http_method-append :
    (m : ℕ) (rest : List ℕ)
    → m < invalid_mathod
    → chars_to_http_method (http_method_to_string m ++ rest) ≡ m
unfolding chars_to_http_method http_method_to_string
chars_to_http_method-append m rest h =
    first_match_at s_method_string 0 m rest (omega (arith, method_count)) (
      all_below_sound 34 (λ j. all_clash j s_method_string (name_at s_method_string j)) m
        method_names_clash h)
    ∙ omega arith

string_method_table :
    all_below 34 (λ j. string_to_http_method (http_method_to_string j) == j) ≡ true
unfolding string_to_http_method http_method_to_string s_method_string
string_method_table = refl

-- Each method is read back from its own name.
string_to_http_method-http_method_to_string :
    (m : ℕ) → m < invalid_mathod → string_to_http_method (http_method_to_string m) ≡ m
string_to_http_method-http_method_to_string m h = (==_iff _ m).0 (
    all_below_sound 34 (λ j. string_to_http_method (http_method_to_string j) == j) m
      string_method_table h)
