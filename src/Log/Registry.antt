-- ===== src/Log/Registry.antt =====
-- The loggers by name (tw/log.cc, LoggerManager). A logger is its place in a store, so that a name
-- and its users share it.
use tw_server.Base.{
  ℕ, zero, suc, ◌+◌, ◌≡◌, refl, ap, sym, ◌∙◌, List, [], ◌∷◌, ◌++◌, Option, none, some, of_some,
  if◌then◌else◌, length, get_elem?, codes, ◌↔◌, Bool-cases, inl, inr,
}
use tw_server.Base.Texts.{same_text, same_text_eq, same_text_refl}
use tw_server.Log.{Logger, debug, add_appender}

pub record LoggerManager : Type 0 where
  pub loggers : List Logger
  pub names : List (List ℕ × ℕ)
  pub root : ℕ
  pub made : ℕ

-- A new logger of level DEBUG with the appender to the standard output.
unfoldable pub new_logger : List ℕ → ℕ → Logger
unfolding add_appender
new_logger name appender =
    add_appender appender (record { level = debug; name = name; appenders = [] })

-- `LoggerManager::LoggerManager`.
unfoldable pub new_manager : LoggerManager
unfolding new_logger
new_manager = record {
  loggers = new_logger (codes "root") 0 ∷ [];
  names = (codes "root", 0) ∷ [];
  root = 0;
  made = 1;
}

unfoldable pub find : List ℕ → List (List ℕ × ℕ) → Option ℕ
find name [] = none
find name ((n, i) ∷ l) = let rest = find name l in if same_text n name then some i else rest

abbrev pub get_or_make : Option ℕ → List ℕ → LoggerManager → LoggerManager × ℕ
get_or_make (some i) name m = (m, i)
get_or_make none name m = (
  record m {
    loggers = m.loggers ++ new_logger name m.made ∷ [];
    names = (name, length m.loggers) ∷ m.names;
    made = m.made + 1;
  },
  length m.loggers,
)

-- `getLogger(name)`.
unfoldable pub get_logger : List ℕ → LoggerManager → LoggerManager × ℕ
unfolding find new_logger
get_logger name m = get_or_make (find name m.names) name m

-- The loggers of several names, one after the other.
unfoldable pub get_loggers : List (List ℕ) → LoggerManager → LoggerManager
unfolding get_logger
get_loggers [] m = m
get_loggers (n ∷ l) m = get_loggers l (get_logger n m).0

-- A name that is known has a logger of that name.
abbrev IsRegistered : LoggerManager → Type 0
IsRegistered m =
    (n : List ℕ) (i : ℕ)
    → find n m.names ≡ some i
    → (g : Logger) × (get_elem? m.loggers i ≡ some g) × (g.name ≡ n)

new_name : (name : List ℕ) (appender : ℕ) → (new_logger name appender).name ≡ name
unfolding new_logger
new_name name appender = refl

get_elem?-append :
    (l r : List Logger) (i : ℕ) (g : Logger)
    → get_elem? l i ≡ some g
    → get_elem? (l ++ r) i ≡ some g
get_elem?-append [] r i g e = cc
get_elem?-append (x ∷ l) r zero g e = e
get_elem?-append (x ∷ l) r (suc i) g e = get_elem?-append l r i g e

get_elem?-last : (l : List Logger) (g : Logger) → get_elem? (l ++ g ∷ []) (length l) ≡ some g
get_elem?-last [] g = refl
get_elem?-last (x ∷ l) g = get_elem?-last l g

find_first :
    (n name : List ℕ) (i : ℕ) (l : List (List ℕ × ℕ))
    → find n ((name, i) ∷ l) ≡ (if same_text name n then some i else find n l)
unfolding find
find_first n name i l = refl

-- The manager after a name that is not known.
abbrev with_new : List ℕ → LoggerManager → LoggerManager
with_new name m = (get_or_make none name m).0

with_new-IsRegistered :
    (name : List ℕ) (m : LoggerManager) → IsRegistered m → IsRegistered (with_new name m)
with_new-IsRegistered name m h n i e =
    let first = find_first n name (length m.loggers) m.names in
    elim (Bool-cases (same_text name n)) [
      | inl s ↦
          let at : length m.loggers ≡ i = of_some (sym (first ∙ rw s refl) ∙ e) in
          (
            new_logger name m.made,
            ap (get_elem? (m.loggers ++ new_logger name m.made ∷ [])) (sym at)
                ∙ get_elem?-last m.loggers (new_logger name m.made),
            new_name name m.made ∙ same_text_eq name n s,
          )
      | inr s ↦
          let (g, there, same) = h n i (sym (first ∙ rw s refl) ∙ e) in
          (g, get_elem?-append m.loggers (new_logger name m.made ∷ []) i g there, same)
    ]

made-IsRegistered :
    (o : Option ℕ) (name : List ℕ) (m : LoggerManager)
    → IsRegistered m
    → IsRegistered (get_or_make o name m).0
made-IsRegistered none name m h = with_new-IsRegistered name m h
made-IsRegistered (some i) name m h = h

made_found :
    (o : Option ℕ) (name : List ℕ) (m : LoggerManager)
    → find name m.names ≡ o
    → find name (get_or_make o name m).0.names ≡ some (get_or_make o name m).1
made_found (some i) name m e = e
made_found none name m e =
    find_first name name (length m.loggers) m.names ∙ rw (same_text_refl name) refl

made_kept :
    (o : Option ℕ) (name : List ℕ) (m : LoggerManager) (n : List ℕ) (i : ℕ)
    → find name m.names ≡ o
    → find n m.names ≡ some i
    → find n (get_or_make o name m).0.names ≡ some i
made_kept (some j) name m n i e f = f
made_kept none name m n i e f =
    find_first n name (length m.loggers) m.names ∙ elim (Bool-cases (same_text name n)) [
      | inl s ↦ let clash = ap (λ t. find t m.names) (same_text_eq name n s) in cc
      | inr s ↦ rw s f
    ]

all-IsRegistered :
    (l : List (List ℕ)) (m : LoggerManager) → IsRegistered m → IsRegistered (get_loggers l m)
unfolding get_loggers
all-IsRegistered [] m h = h
all-IsRegistered (n ∷ l) m h =
    all-IsRegistered l (get_logger n m).0 (made-IsRegistered (find n m.names) n m h)

all_kept :
    (l : List (List ℕ)) (m : LoggerManager) (n : List ℕ) (i : ℕ)
    → find n m.names ≡ some i
    → find n (get_loggers l m).names ≡ some i
unfolding get_loggers
all_kept [] m n i e = e
all_kept (k ∷ l) m n i e =
    all_kept l (get_logger k m).0 n i (made_kept (find k m.names) k m n i refl e)

nothing_known : IsRegistered (record { loggers = []; names = []; root = 0; made = 0 })
unfolding find
nothing_known n i e = cc

root-IsRegistered : IsRegistered new_manager
unfolding new_manager
root-IsRegistered =
    with_new-IsRegistered (codes "root") (record { loggers = []; names = []; root = 0; made = 0 })
      nothing_known

-- After whatever loggers were asked for, and whatever are asked for in between, two calls of
-- getLogger give the same logger exactly where they ask for the same name.
pub get_logger-shared :
    (before between : List (List ℕ)) (a b : List ℕ)
    → let r = get_logger a (get_loggers before new_manager) in
      let q = get_logger b (get_loggers between (r.0)) in (r.1 ≡ q.1) ↔ (a ≡ b)
unfolding get_logger
get_logger-shared before between a b =
    let m = get_loggers before new_manager in
    let i = (get_logger a m).1 in
    let m1 = get_loggers between (get_logger a m).0 in
    let j = (get_logger b m1).1 in
    let h = all-IsRegistered before new_manager root-IsRegistered in
    let h1 =
      all-IsRegistered between (get_logger a m).0 (made-IsRegistered (find a m.names) a m h) in
    let h2 = made-IsRegistered (find b m1.names) b m1 h1 in
    let here = all_kept between (get_logger a m).0 a i (made_found (find a m.names) a m refl) in
    let first = made_kept (find b m1.names) b m1 a i refl here in
    let second = made_found (find b m1.names) b m1 refl in
    (
      λ e.
          let (g, at, name) = h2 a i first in
          let (g', at', name') = h2 b j second in
          sym name
          ∙ ap (λ x. x.name) (of_some (sym at ∙ ap (get_elem? (get_logger b m1).0.loggers) e ∙ at'))
          ∙ name',
      λ e. of_some (sym first ∙ ap (λ t. find t (get_logger b m1).0.names) e ∙ second),
    )
