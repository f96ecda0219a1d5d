-- ===== src/Timer/Operations.antt =====
-- `addTimer`, `cancel` and `refresh` (tw/timer.cc).
use tw_server.Base.{
  some, ℕ, ◌+◌, ◌≡◌, inl, inr, refl, ap, sym, ◌∙◌, Bool, true, false, ◌||◌, List, [], ◌∷◌, arith,
  ◌==◌, Bool-cases, if◌then◌else◌, none, ok,
}
use tw_server.Timer.{
  Timer, TimerManager, less, update, insert, find, erase, add, add_timer, has_cb, cancel, refresh,
  wrap64,
}
use tw_server.Timer.Order.{
  Sorted, mem, Sorted-insert, Sorted-erase, Sorted-update, find-eq-mem, mem-insert, mem-erase,
}
use tw_server.Timer.Invariant.{IsValid}

-- Putting a timer that is not in the set, with a callback, into it.
insert-IsValid :
    (m : TimerManager) (p : ℕ) (t : Timer) (l : List ℕ) (f : Bool) (prev : ℕ)
    → Sorted m.heap l
    → mem p l ≡ false
    → has_cb t.cb ≡ true
    → ((q : ℕ) → (q == p) ≡ false → mem q l ≡ has_cb (m.heap q).cb)
    → IsValid (record {
      heap = update m.heap p t;
      timers = insert (update m.heap p t) p l;
      previous_time = prev;
      flag = f;
    })
insert-IsValid m p t l f prev s out cb others = record {
  sorted = Sorted-insert (update m.heap p t) p l (Sorted-update m.heap p t l out s);
  armed = λ q. mem-insert (update m.heap p t) p q l ∙ here q;
}
  where
    here : (q : ℕ) → (q == p || mem q l) ≡ has_cb (update m.heap p t q).cb
    here q = elim (Bool-cases (q == p)) [ inl e ↦ rw e (sym cb) | inr e ↦ rw e (others q e) ]

-- `addTimer` at a fresh address keeps the set ordered and equal to the timers with a callback.
pub add_timer-IsValid :
    (now p ms cb : ℕ) (recurring : Bool) (m : TimerManager)
    → IsValid m
    → has_cb (m.heap p).cb ≡ false
    → IsValid (add_timer now p ms (some cb) recurring m).0
unfolding add_timer add
add_timer-IsValid now p ms cb recurring m v fresh =
    insert-IsValid m p _ m.timers _ _ v.sorted (v.armed p ∙ fresh) refl (λ q e. v.armed q)

erased :
    (m : TimerManager) (p q : ℕ)
    → IsValid m
    → mem p m.timers ≡ true
    → (q == p) ≡ false
    → mem q (erase m.heap p m.timers) ≡ has_cb (m.heap q).cb
erased m p q v i e = mem-erase m.heap p q m.timers v.sorted i ∙ rw e (v.armed q)

gone :
    (m : TimerManager) (p : ℕ)
    → IsValid m
    → mem p m.timers ≡ true
    → mem p (erase m.heap p m.timers) ≡ false
gone m p v i = mem-erase m.heap p p m.timers v.sorted i ∙ ground arith

pub found :
    (m : TimerManager) (p : ℕ)
    → IsValid m
    → has_cb (m.heap p).cb ≡ true
    → find m.heap p m.timers ≡ true
found m p v e = find-eq-mem m.heap p m.timers v.sorted ∙ v.armed p ∙ e

abbrev cleared : (ℕ → Timer) → ℕ → ℕ → Timer
cleared h p = update h p (record (h p) { cb = none })

same_next : (h : ℕ → Timer) (p q : ℕ) → (cleared h p q).next ≡ (h q).next
same_next h p q = elim (Bool-cases (q == p)) [
  | inl e ↦ let f : p ≡ q = ground arith in rw e (ap (λ t. (h t).next) f)
  | inr e ↦ rw e
]

same_less : (h : ℕ → Timer) (p a b : ℕ) → less (cleared h p) a b ≡ less h a b
unfolding less
same_less h p a b = rw (same_next h p a, same_next h p b)

-- The search of `cancel` runs after the callback is cleared, which the comparator does not read.
find-cleared :
    (h : ℕ → Timer) (p : ℕ) (l : List ℕ)
    → (find (cleared h p) p l ≡ find h p l) × (erase (cleared h p) p l ≡ erase h p l)
unfolding find erase
find-cleared h p [] = (refl, refl)
find-cleared h p (q ∷ l) =
    let (a, b) = find-cleared h p l in
    (rw (same_less h p q p, same_less h p p q, a), rw (same_less h p q p, b))

cleared-IsValid :
    (p : ℕ) (m : TimerManager)
    → IsValid m
    → has_cb (m.heap p).cb ≡ true
    → IsValid (record m { heap = cleared m.heap p; timers = erase m.heap p m.timers })
cleared-IsValid p m v e =
    let i = v.armed p ∙ e in
    record {
      sorted =
          Sorted-update m.heap p _ (erase m.heap p m.timers) (gone m p v i)
            (Sorted-erase m.heap p m.timers v.sorted);
      armed = λ q. elim (Bool-cases (q == p)) [
        | inl f ↦ mem-erase m.heap p q m.timers v.sorted i ∙ rw f
        | inr f ↦ rw f (erased m p q v i f)
      ];
    }

-- `cancel` never erases an end() iterator: it succeeds exactly where the timer has a callback, and
-- takes that timer out of the set and no other.
pub cancel_lem :
    (p : ℕ) (m : TimerManager)
    → IsValid m
    → (m' : TimerManager) × (cancel p m ≡ ok (m', has_cb (m.heap p).cb))
      × IsValid m'
      × ((q : ℕ) → mem q m'.timers ≡ (if q == p then false else mem q m.timers))
unfolding cancel
cancel_lem p m v = elim (Bool-cases (has_cb (m.heap p).cb)) [
  | inl e ↦
      let (a, b) = find-cleared m.heap p m.timers in
      (
        record m { heap = cleared m.heap p; timers = erase m.heap p m.timers },
        rw (e, a, b, found m p v e),
        cleared-IsValid p m v e,
        λ q. mem-erase m.heap p q m.timers v.sorted (v.armed p ∙ e),
      )
  | inr e ↦ (
    m,
    rw e,
    v,
    λ q. elim (Bool-cases (q == p)) [
      | inl f ↦ let g : q ≡ p = ground arith in rw f (ap (λ t. mem t m.timers) g ∙ v.armed p ∙ e)
      | inr f ↦ rw f
    ],
  )
]

pub mem-replace :
    (m : TimerManager) (p q : ℕ) (h : ℕ → Timer)
    → IsValid m
    → mem p m.timers ≡ true
    → mem q (insert h p (erase m.heap p m.timers)) ≡ mem q m.timers
mem-replace m p q h v i = mem-insert h p q (erase m.heap p m.timers) ∙ elim (Bool-cases (q == p)) [
  | inl e ↦ let g : p ≡ q = ground arith in rw e (sym i ∙ ap (λ t. mem t m.timers) g)
  | inr e ↦ rw e (mem-erase m.heap p q m.timers v.sorted i ∙ rw e)
]

-- Putting a timer of the set back under another time keeps the set and its order.
pub replaced-IsValid :
    (m : TimerManager) (p : ℕ) (t : Timer) (f : Bool)
    → IsValid m
    → has_cb (m.heap p).cb ≡ true
    → t.cb ≡ (m.heap p).cb
    → IsValid (record m {
      heap = update m.heap p t;
      timers = insert (update m.heap p t) p (erase m.heap p m.timers);
      flag = f;
    })
replaced-IsValid m p t f v e c =
    let i = v.armed p ∙ e in
    insert-IsValid m p t (erase m.heap p m.timers) f m.previous_time
      (Sorted-erase m.heap p m.timers v.sorted) (gone m p v i) (ap has_cb c ∙ e)
      (λ q g. erased m p q v i g)

abbrev pub Refreshed : ℕ → ℕ → TimerManager → TimerManager → Type 0
Refreshed now p m m' =
    IsValid m'
    × ((q : ℕ) → mem q m'.timers ≡ mem q m.timers)
    × ((m'.heap p).next
        ≡ (if has_cb (m.heap p).cb then wrap64 ((m.heap p).ms + now) else (m.heap p).next))

-- `refresh` succeeds exactly where the timer has a callback. It keeps the set, in order, and then
-- puts the timer its period after now.
refresh_lem :
    (now p : ℕ) (m : TimerManager)
    → IsValid m
    → ((refresh now p m).1 ≡ has_cb (m.heap p).cb) × Refreshed now p m (refresh now p m).0
unfolding refresh
refresh_lem now p m v = elim (Bool-cases (has_cb (m.heap p).cb)) [
  | inl e ↦
      rw (e, found m p v e)
        (
          refl,
          (
            replaced-IsValid m p _ m.flag v e refl,
            (λ q. mem-replace m p q _ v (v.armed p ∙ e)),
            rw (self p),
          ),
        )
  | inr e ↦ rw e (refl, (v, (λ q. refl), refl))
]
  where
    self : (p : ℕ) → (p == p) ≡ true
    self p = ground arith
