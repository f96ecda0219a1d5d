-- ===== src/Http/Headers.antt =====
-- The header, parameter and cookie maps of tw/http/http.h: std::map under CaseInsensitiveless.
pub mod Laws
use tw_server.Base.{
  ℕ, ◌+◌, Bool, true, false, not, ◌&&◌, List, [], ◌∷◌, Option, none, some, ◌==◌, ltb, leb,
  if◌then◌else◌,
}
use tw_server.Base.Texts.{lex_less}
use tw_server.Http.Tables.{c_str}

abbrev pub Map : Type 0
Map = List (List ℕ × List ℕ)

-- tolower in the C locale.
abbrev pub to_lower : ℕ → ℕ
to_lower c = if leb 65 c && leb c 90 then c + 32 else c

abbrev pub lower : List ℕ → List ℕ
lower [] = []
lower (c ∷ s) = to_lower c ∷ lower s

-- What strcasecmp compares of a key.
unfoldable pub folded : List ℕ → List ℕ
folded k = lower (c_str k)

unfoldable pub key_less : List ℕ → List ℕ → Bool
key_less a b = lex_less (folded a) (folded b)

-- `find`: the value at an equivalent key of the ordered entries.
unfoldable pub lookup : List ℕ → Map → Option (List ℕ)
lookup k [] = none
lookup k ((j, v) ∷ m) = if key_less j k then lookup k m else if key_less k j then none else some v

-- `m[key] = val`: an equivalent key keeps its spelling.
unfoldable pub insert : List ℕ → List ℕ → Map → Map
insert k v [] = (k, v) ∷ []
insert k v ((j, w) ∷ m) =
    if key_less j k
    then (j, w) ∷ insert k v m
    else if key_less k j
    then (k, v) ∷ (j, w) ∷ m
    else (j, v) ∷ m

-- `erase(key)`
unfoldable pub erase : List ℕ → Map → Map
erase k [] = []
erase k ((j, w) ∷ m) =
    if key_less j k then (j, w) ∷ erase k m else if key_less k j then (j, w) ∷ m else m

abbrev pub or_default : Option (List ℕ) → List ℕ → List ℕ
or_default none def = def
or_default (some v) def = v

-- `getHeader`, `getParam`, `getCookie`.
unfoldable pub get : Map → List ℕ → List ℕ → List ℕ
get m key def = or_default (lookup key m) def

-- `hasHeader(key, val)`: the result, and `*val` afterwards.
unfoldable pub has : Map → List ℕ → List ℕ → Bool × List ℕ
has m key val = elim (lookup key m) [ none ↦ (false, val) | some v ↦ (true, v) ]

-- `getAs` and `checkGetAs`; boost::lexical_cast is a parameter, `none` where it throws.
unfoldable pub get_as {ℓ} : {A : Type ℓ} → (List ℕ → Option A) → Map → List ℕ → A → A
get_as cast m key def = elim (lookup key m) [
  | none ↦ def
  | some v ↦ elim (cast v) [ none ↦ def | some a ↦ a ]
]

unfoldable pub check_get_as {ℓ} : {A : Type ℓ} → (List ℕ → Option A) → Map → List ℕ → A → A × Bool
check_get_as cast m key def = elim (lookup key m) [
  | none ↦ (def, false)
  | some v ↦ elim (cast v) [ none ↦ (def, false) | some a ↦ (a, true) ]
]
