-- ===== src/Log/Appending.antt =====
-- Which appenders get an event (tw/log.cc).
use tw_server.Base.{
  ℕ, ◌+◌, ◌≤◌, ==_iff, ◌≡◌, refl, ap, sym, ◌∙◌, Bool, true, false, List, [], ◌∷◌, ◌++◌, leb, ◌==◌,
  if◌then◌else◌, inl, inr, Bool-cases, arith,
}
use tw_server.Log.{Logger, is_member, without, add_appender, del_appender, calls_of, log}

pub data Change : Type 0 where
  added : ℕ → Change
  removed : ℕ → Change

abbrev pub change : Change → Logger → Logger
change (added a) g = add_appender a g
change (removed a) g = del_appender a g

-- The changes, the last first.
abbrev pub changed : List Change → Logger → Logger
changed [] g = g
changed (c ∷ l) g = change c (changed l g)

-- What the last change of an appender was.
abbrev pub is_attached : ℕ → List Change → Bool
is_attached a [] = false
is_attached a (added b ∷ l) = if b == a then true else is_attached a l
is_attached a (removed b ∷ l) = if b == a then false else is_attached a l

-- How often an appender is called.
abbrev pub times : ℕ → List (ℕ × ℕ) → ℕ
times a [] = 0
times a (c ∷ l) = (if c.0 == a then 1 else 0) + times a l

abbrev one_if : Bool → ℕ
one_if true = 1
one_if false = 0

one_if-le : (b : Bool) → one_if b ≤ 1
one_if-le true = omega arith
one_if-le false = omega arith

times-append :
    (a event : ℕ) (l : List ℕ) (b : ℕ)
    → times a (calls_of event (l ++ b ∷ []))
      ≡ times a (calls_of event l) + (if b == a then 1 else 0)
times-append a event [] b = omega arith
times-append a event (x ∷ l) b = omega (arith, times-append a event l b)

is_member_lem : (b event : ℕ) (l : List ℕ) → is_member b l ≡ leb 1 (times b (calls_of event l))
is_member_lem b event [] = refl
is_member_lem b event (x ∷ l) = elim (Bool-cases (x == b)) [
  | inl e ↦ rw e (ground arith)
  | inr e ↦
      let z : 0 + times b (calls_of event l) ≡ times b (calls_of event l) = omega arith in
      rw e (is_member_lem b event l ∙ ap (leb 1) (sym z))
]

times-without :
    (a event b : ℕ) (l : List ℕ)
    → times a (calls_of event (without b l)) + (if b == a then one_if (is_member b l) else 0)
      ≡ times a (calls_of event l)
times-without a event b [] = elim (Bool-cases (b == a)) [ inl e ↦ rw e refl | inr e ↦ rw e refl ]
times-without a event b (x ∷ l) = elim (Bool-cases (x == b)) [
  | inl e ↦
      let same : x ≡ b = ground arith in
      let f : ℕ → ℕ = λ y. if y == a then 1 else 0 in
      let g : f x ≡ f b = ap f same in rw e (omega (arith, g))
  | inr e ↦ rw e (omega (arith, times-without a event b l))
]

times-add_appender :
    (a b event : ℕ) (attached : ℕ → Bool) (g : Logger)
    → ((c : ℕ) → times c (log event g) ≡ one_if (attached c))
    → times a (log event (add_appender b g)) ≡ one_if (if b == a then true else attached a)
unfolding log add_appender
times-add_appender a b event attached g h =
    let there = is_member_lem b event g.appenders in
    let f : Bool → ℕ = λ t. if t then 1 else 0 in
    let at : b == a ≡ true
        → times a (calls_of event g.appenders) ≡ times b (calls_of event g.appenders) =
      λ e. ap (λ c. times c (calls_of event g.appenders)) (sym ((==_iff b a).0 e)) in
    elim (Bool-cases (is_member b g.appenders)) [
      | inl m ↦ elim (Bool-cases (b == a)) [
        | inl e ↦
            rw (m, e)
              (let n : leb 1 (times b (calls_of event g.appenders)) ≡ true = sym there ∙ m in
                let le = one_if-le (attached b) in
                let le' : 1 ≤ times b (calls_of event g.appenders) = ground (arith, n) in
                omega (arith, at e, h b))
        | inr e ↦ rw (m, e) (h a)
      ]
      | inr m ↦ elim (Bool-cases (b == a)) [
        | inl e ↦
            rw (m, e)
              (let n : leb 1 (times b (calls_of event g.appenders)) ≡ false = sym there ∙ m in
                let z : times b (calls_of event g.appenders) ≡ 0 = ground (arith, n) in
                let u : f (b == a) ≡ f true = ap f e in
                omega (arith, at e, times-append a event g.appenders b, u))
        | inr e ↦
            rw (m, e)
              (let u : f (b == a) ≡ f false = ap f e in
                omega (arith, h a, times-append a event g.appenders b, u))
      ]
    ]

times-del_appender :
    (a b event : ℕ) (attached : ℕ → Bool) (g : Logger)
    → ((c : ℕ) → times c (log event g) ≡ one_if (attached c))
    → times a (log event (del_appender b g)) ≡ one_if (if b == a then false else attached a)
unfolding log del_appender
times-del_appender a b event attached g h =
    let there = is_member_lem b event g.appenders in
    let w = times-without a event b g.appenders in
    let f : Bool → ℕ = λ t. if t then one_if (is_member b g.appenders) else 0 in
    elim (Bool-cases (b == a)) [
      | inr e ↦ rw e (let u : f (b == a) ≡ f false = ap f e in omega (arith, w, u, h a))
      | inl e ↦ rw e (
          let u : f (b == a) ≡ f true = ap f e in
          let at : times a (calls_of event g.appenders) ≡ times b (calls_of event g.appenders) =
            ap (λ c. times c (calls_of event g.appenders)) (sym ((==_iff b a).0 e)) in
          let le = one_if-le (attached b) in
          elim (Bool-cases (is_member b g.appenders)) [
            | inl m ↦
                let one : one_if (is_member b g.appenders) ≡ one_if true = ap one_if m in
                omega (arith, w, u, at, le, h b, one)
            | inr m ↦
                let n : leb 1 (times b (calls_of event g.appenders)) ≡ false = sym there ∙ m in
                let z : times b (calls_of event g.appenders) ≡ 0 = ground (arith, n) in
                omega (arith, w, at, z)
          ])
    ]

-- After any additions and removals of appenders to a logger that had none, an event that is logged
-- reaches each appender once whose last change was an addition, and no other.
times-changed :
    (a event : ℕ) (l : List Change) (g : Logger)
    → g.appenders ≡ []
    → times a (log event (changed l g)) ≡ (if is_attached a l then 1 else 0)
unfolding log
times-changed a event l g empty = each a l ∙ plain (is_attached a l)
  where
    each : (a : ℕ) (l : List Change) → times a (log event (changed l g)) ≡ one_if (is_attached a l)
    each a [] = ap (λ l. times a (calls_of event l)) empty
    each a (added b ∷ l) =
        times-add_appender a b event (λ c. is_attached c l) (changed l g) (λ c. each c l)
    each a (removed b ∷ l) =
        times-del_appender a b event (λ c. is_attached c l) (changed l g) (λ c. each c l)

    plain : (b : Bool) → one_if b ≡ (if b then 1 else 0)
    plain true = refl
    plain false = refl
