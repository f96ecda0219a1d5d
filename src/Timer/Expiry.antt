-- ===== src/Timer/Expiry.antt =====
-- `getNextTime` and the search of `listExpiredCb` (tw/timer.cc).
use tw_server.Base.{
  ℕ, ◌-◌, ◌≤◌, ◌<◌, ◌≡◌, inl, inr, refl, ap, sym, subst, true, ◌||◌, ◌&&◌, List, [], ◌∷◌, ◌++◌, All,
  arith, ltb, ◌==◌, Bool-cases,
}
use tw_server.Timer.{
  Timer, TimerManager, less, get_next_time, until_first, no_timeout, lower_bound, skip_equal,
  split_expired,
}
use tw_server.Timer.Order.{Sorted, Less, mem, All-mem}
use tw_server.Timer.Invariant.{IsValid}

-- The first timer of a sorted set is due first.
first_is_least :
    (h : ℕ → Timer) (p : ℕ) (l : List ℕ) (q : ℕ)
    → Sorted h (p ∷ l)
    → mem q (p ∷ l) ≡ true
    → (h p).next ≤ (h q).next
unfolding less
first_is_least h p l q s i = elim (Bool-cases (q == p)) [
  | inl e ↦
      let f : q ≡ p = ground arith in subst (λ t. (h p).next ≤ (h t).next) (sym f) (omega arith)
  | inr e ↦ let k = All-mem h (Less h p) q l s.0 (rw e at i) in ground (arith, k)
]

abbrev pub NextTime : ℕ → TimerManager → List ℕ → ℕ → Type 0
NextTime now m [] r = r ≡ no_timeout
NextTime now m (p ∷ l) r =
    (r ≡ (m.heap p).next - now)
    × ((q : ℕ) → mem q (p ∷ l) ≡ true → (m.heap p).next ≤ (m.heap q).next)

NextTime-cases :
    (now : ℕ) (m : TimerManager) (l : List ℕ)
    → Sorted m.heap l
    → NextTime now m l (until_first m.heap now l)
NextTime-cases now m [] s = refl
NextTime-cases now m (p ∷ l) s = (ground arith, λ q i. first_is_least m.heap p l q s i)

-- `getNextTime` is ~0 for an empty set, and otherwise the time from now to the earliest timer, 0 if
-- that is past; it changes no timer.
get_next_time_lem :
    (now : ℕ) (m : TimerManager)
    → IsValid m
    → NextTime now m m.timers (get_next_time now m).1
      × ((get_next_time now m).0.timers ≡ m.timers)
      × ((get_next_time now m).0.heap ≡ m.heap)
unfolding get_next_time
get_next_time_lem now m v = (NextTime-cases now m m.timers v.sorted, refl, refl)

abbrev pub Due : (ℕ → Timer) → ℕ → ℕ → Type 0
Due h now p = (h p).next ≤ now

abbrev pub Later : (ℕ → Timer) → ℕ → ℕ → Type 0
Later h now p = now < (h p).next

pub record Parted (h : ℕ → Timer) (now : ℕ) (l due later : List ℕ) : Type 0 where
  pub same : due ++ later ≡ l
  pub all_due : All (Due h now) due
  pub all_later : All (Later h now) later

module _ (h : ℕ → Timer) (now : ℕ) where
  All-Later_behind :
      (p : ℕ) (l : List ℕ) → now < (h p).next → All (Less h p) l → All (Later h now) l
  unfolding less
  All-Later_behind p [] lt s = tt
  All-Later_behind p (q ∷ l) lt s =
      let le : (h p).next ≤ (h q).next = ground (arith, s.0) in
      (omega arith, All-Later_behind p l lt s.1)

  skip_equal-Parted :
      (l : List ℕ)
      → Sorted h l
      → All (λ p. now ≤ (h p).next) l
      → Parted h now l (skip_equal h now l).0 (skip_equal h now l).1
  unfolding skip_equal
  skip_equal-Parted [] s k = record { same = refl; all_due = tt; all_later = tt }
  skip_equal-Parted (p ∷ l) s k = elim (Bool-cases ((h p).next == now)) [
    | inl e ↦
        let r = skip_equal-Parted l s.1 k.1 in
        rw e (record {
          same = ap (λ t. p ∷ t) r.same;
          all_due = (ground arith, r.all_due);
          all_later = r.all_later;
        })
    | inr e ↦
        let lt : now < (h p).next = ground (arith, k.0) in
        rw e (record { same = refl; all_due = tt; all_later = (lt, All-Later_behind p l lt s.0) })
  ]

  not_before :
      (p : ℕ) (l : List ℕ) → now ≤ (h p).next → All (Less h p) l → All (λ q. now ≤ (h q).next) l
  unfolding less
  not_before p [] le s = tt
  not_before p (q ∷ l) le s =
      let le' : (h p).next ≤ (h q).next = ground (arith, s.0) in
      (omega arith, not_before p l le s.1)

  -- Whatever the address of the timer that is searched for, the expired ones are those due by now.
  pub split_expired-Parted :
      (key : ℕ) (l : List ℕ)
      → Sorted h l
      → Parted h now l (split_expired h now key l).0 (split_expired h now key l).1
  unfolding split_expired lower_bound
  split_expired-Parted key [] s = skip_equal-Parted [] tt tt
  split_expired-Parted key (p ∷ l) s =
      elim (Bool-cases (ltb (h p).next now || ((h p).next == now && ltb p key))) [
        | inl e ↦
            let r = split_expired-Parted key l s.1 in
            rw e (record {
              same = ap (λ t. p ∷ t) r.same;
              all_due = (ground arith, r.all_due);
              all_later = r.all_later;
            })
        | inr e ↦
            let le : now ≤ (h p).next = ground arith in
            rw e (skip_equal-Parted (p ∷ l) s (le, not_before p l le s.0))
      ]
