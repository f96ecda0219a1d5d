-- ===== src/IoManager/Reachable.antt =====
-- Every state that events reach by being added and cancelled (tw/iomanager.cc), whatever the kernel
-- answers and whatever the scheduler does between.
use tw_server.Base.{
  ℕ, zero, suc, ◌+◌, ◌-◌, ◌*◌, ◌/◌, ◌≡◌, refl, ap, sym, ◌∙◌, ◌⊎◌, subst, Bool, true, false, List,
  [], ◌∷◌, Option, none, some, ltb, leb, ok, fail, Fault, Outcome, length, take_all, get_elem?, set,
  All-append, inl, inr, Bool-cases, Option-cases, arith,
}
use tw_server.Fiber.{has, is_exec}
use tw_server.Scheduler.{Scheduler}
use tw_server.IoManager.{
  Event, no_event, read_event, write_event, Mask, covers, join, drop_event, EventContext,
  no_context, FdContext, Op, Ctl, IoManager, Kernel, waiter, get_context, fd_context_resize,
  at_index, add_to_context, add_event, cancel_event,
}
use tw_server.IoManager.Laws.{
  in_range, is_event, context_of, take_op, add_op, without, cancel_event_lem, waiting,
}
use tw_server.IoManager.Sound.{
  differ, IsTidySide, IsTidy, mask_count, IsSound, All-get_elem?, All-set, waiting_count-set,
  mask_of-set, fresh-IsTidy, waiting_count-fresh, mask_of-fresh,
}

-- One context of the table changes, and the kernel is told.
replace-IsSound :
    (op : Op) (fd : ℕ) (c c' : FdContext) (io io' : IoManager)
    → IsSound io
    → get_elem? io.contexts fd ≡ some c
    → IsTidy c'
    → io'.contexts ≡ set io.contexts fd c'
    → io'.pending + mask_count c.events ≡ io.pending + mask_count c'.events
    → io'.calls ≡ record { op = op; fd = fd; mask = c'.events } ∷ io.calls
    → IsSound io'
replace-IsSound op fd c c' io io' v g k e p n = record {
  tidy = rw e (All-set IsTidy io.contexts fd c' v.tidy k);
  counted = rw e (omega (arith, v.counted, waiting_count-set io.contexts fd c c' g));
  told = λ q. rw (n, e, mask_of-set io.contexts fd q c c' g, v.told q) refl;
}

-- What a waiter leaves when it is taken is nothing.
woken :
    (e : EventContext)
    → differ (has e.fiber) (has e.cb) ≡ true
    → (elim e.fiber [
      | some p ↦ record e { home = none; fiber = none }
      | none ↦ record e { home = none; cb = none }
    ])
      ≡ no_context
woken e d = elim (Option-cases e.fiber) [
  | inl f ↦ rw f (ap (λ x. record { home = none; fiber = x; cb = none }) f)
  | inr (p, f) ↦ elim (Option-cases e.cb) [
    | inl g ↦ rw (f, g) refl
    | inr (q, g) ↦ let d' : false ≡ true = rw (f, g) at d in cc
  ]
]

side_waits : (b : Bool) (e : EventContext) → IsTidySide b e → b ≡ true → IsTidySide true e
side_waits b e t w = subst (λ b. IsTidySide b e) w t

pub side_idle : (b : Bool) (e : EventContext) → IsTidySide b e → b ≡ false → e ≡ no_context
side_idle b e t w = subst (λ b. IsTidySide b e) w t

pub waits :
    (c : FdContext) (ev : Event)
    → IsTidy c
    → is_event ev ≡ true
    → covers c.events ev ≡ true
    → (context_of c ev).home ≡ some 0
waits c no_event t v w = ground (v, arith)
waits c read_event t v w = (side_waits c.events.reads c.read t.0 w).0
waits c write_event t v w = (side_waits c.events.writes c.write t.1 w).0

without-IsTidy :
    (c : FdContext) (ev : Event)
    → IsTidy c
    → is_event ev ≡ true
    → covers c.events ev ≡ true
    → IsTidy (without c ev)
without-IsTidy c no_event t v w = ground (v, arith)
without-IsTidy c read_event t v w = (woken c.read (side_waits c.events.reads c.read t.0 w).1, t.1)
without-IsTidy c write_event t v w =
    (t.0, woken c.write (side_waits c.events.writes c.write t.1 w).1)

without-mask_count :
    (c : FdContext) (ev : Event)
    → is_event ev ≡ true
    → covers c.events ev ≡ true
    → mask_count (without c ev).events + 1 ≡ mask_count c.events
without-mask_count c no_event v w = ground (v, arith)
without-mask_count c read_event v w = rw w (omega arith)
without-mask_count c write_event v w = rw w (omega arith)

without-events : (c : FdContext) (ev : Event) → (without c ev).events ≡ drop_event c.events ev
without-events c no_event = refl
without-events c read_event = refl
without-events c write_event = refl

told_of :
    {op : Op} {fd : ℕ} {m n : Mask} {l : List Ctl}
    → n ≡ m
    → ◌≡◌ {A = List Ctl}
        (record { op = op; fd = fd; mask = m } ∷ l)
        (record { op = op; fd = fd; mask = n } ∷ l)
told_of {op} {fd} {l = l} e = ap (λ x. record { op = op; fd = fd; mask = x } ∷ l) (sym e)

pub past_range {ℓ} :
    {A : Type ℓ} (l : List A) (i : ℕ) → get_elem? l i ≡ none → leb (length l) i ≡ true
past_range [] i h = ground arith
past_range (x ∷ l) zero h = cc
past_range (x ∷ l) (suc i) h = ground (past_range l i h, arith)

-- `cancelEvent` never faults on a sound state where the pipe can be written, whatever the
-- descriptor, the event and the answer of epoll_ctl.
pub cancel_event-IsSound :
    (k : Kernel) (fd : ℕ) (ev : Event) (io : IoManager)
    → is_event ev ≡ true
    → k.pipe ≡ true
    → IsSound io
    → (r : IoManager × Bool) × (cancel_event k fd ev io ≡ ok r) × IsSound (r.0)
unfolding cancel_event
cancel_event-IsSound k fd ev io v p s = elim (Option-cases (get_elem? io.contexts fd)) [
  | inl g ↦ ((io, false), rw (past_range io.contexts fd g) refl, s)
  | inr (c, g) ↦ elim (Bool-cases (covers c.events ev)) [
    | inr w ↦ ((io, false), rw ((in_range io.contexts fd c g).1, g, w) refl, s)
    | inl w ↦ elim (Bool-cases (k.ctl (take_op c.events ev) fd (drop_event c.events ev))) [
      | inr a ↦ ((io, false), rw ((in_range io.contexts fd c g).1, g, w, a) refl, s)
      | inl a ↦
          let t = All-get_elem? IsTidy io.contexts fd c s.tidy g in
          (
            _,
            cancel_event_lem k fd ev c io g v w (waits c ev t v w) a p,
            replace-IsSound (take_op c.events ev) fd c (without c ev) io _ s g
                (without-IsTidy c ev t v w) refl
                (omega (
                  arith,
                  without-mask_count c ev v w,
                  s.counted,
                  waiting_count-set io.contexts fd c (without c ev) g,
                ))
                (told_of (without-events c ev)),
          )
    ]
  ]
]

waiting-IsTidy :
    (c : FdContext) (ev : Event) (cb : Option ℕ) (cur : ℕ)
    → IsTidy c
    → is_event ev ≡ true
    → covers c.events ev ≡ false
    → IsTidy (waiting c ev cb cur)
waiting-IsTidy c no_event cb cur t v w = ground (v, arith)
waiting-IsTidy c read_event none cur t v w =
    ((refl, rw (side_idle c.events.reads c.read t.0 w) refl), t.1)
waiting-IsTidy c read_event (some f) cur t v w =
    ((refl, rw (side_idle c.events.reads c.read t.0 w) refl), t.1)
waiting-IsTidy c write_event none cur t v w =
    (t.0, (refl, rw (side_idle c.events.writes c.write t.1 w) refl))
waiting-IsTidy c write_event (some f) cur t v w =
    (t.0, (refl, rw (side_idle c.events.writes c.write t.1 w) refl))

waiting-mask_count :
    (c : FdContext) (ev : Event) (cb : Option ℕ) (cur : ℕ)
    → is_event ev ≡ true
    → covers c.events ev ≡ false
    → mask_count (waiting c ev cb cur).events ≡ mask_count c.events + 1
waiting-mask_count c no_event cb cur v w = ground (v, arith)
waiting-mask_count c read_event cb cur v w = rw w (omega arith)
waiting-mask_count c write_event cb cur v w = rw w (omega arith)

pub waiting-events :
    (c : FdContext) (ev : Event) (cb : Option ℕ) (cur : ℕ)
    → (waiting c ev cb cur).events ≡ join c.events ev
waiting-events c no_event cb cur = refl
waiting-events c read_event cb cur = refl
waiting-events c write_event cb cur = refl

resize-IsSound :
    (n : ℕ) (io : IoManager)
    → IsSound io
    → IsSound (record io { contexts = fd_context_resize n io.contexts })
unfolding fd_context_resize
resize-IsSound n io s = elim (Bool-cases (ltb n (length io.contexts))) [
  | inl h ↦ rw h s
  | inr h ↦
      rw (h, take_all n io.contexts (ground (h, arith)))
        (record {
          tidy = All-append IsTidy io.contexts _ s.tidy (fresh-IsTidy (n - length io.contexts));
          counted = s.counted ∙ sym (waiting_count-fresh io.contexts (n - length io.contexts));
          told = λ q. s.told q ∙ sym (mask_of-fresh io.contexts (n - length io.contexts) q);
        })
]

pub of_ok :
    {io io' : IoManager} {b b' : Bool}
    → ◌≡◌ {A = Outcome (IoManager × Bool)} (ok (io, b)) (ok (io', b'))
    → io' ≡ io
of_ok {io = io} e = sym (ap (λ o. elim o [ ok r ↦ r.0 | fail f ↦ io ]) e)

of_fail {ℓ} :
    {A : Type ℓ} {f : Fault} {r : IoManager × Bool}
    → ◌≡◌ {A = Outcome (IoManager × Bool)} (fail f) (ok r)
    → A
of_fail e = cc

-- What `addEvent` leaves of the manager when epoll_ctl accepts.
abbrev added : ℕ → Event → Option ℕ → ℕ → FdContext → IoManager → IoManager
added fd ev cb cur c io = record {
  scheduler = io.scheduler;
  contexts = set io.contexts fd (waiting c ev cb cur);
  pending = io.pending + 1;
  calls = record { op = add_op c.events; fd = fd; mask = join c.events ev } ∷ io.calls;
}

stored :
    (k : Kernel) (fd : ℕ) (ev : Event) (cb : Option ℕ) (cur : ℕ) (c : FdContext)
    (io io' : IoManager) (b : Bool)
    → is_event ev ≡ true
    → covers c.events ev ≡ false
    → k.ctl (add_op c.events) fd (join c.events ev) ≡ true
    → k.current ≡ some 0
    → add_to_context k fd ev cb cur c io ≡ ok (io', b)
    → io' ≡ added fd ev cb cur c io
unfolding add_to_context waiter get_context
stored k fd no_event cb cur c io io' b v w a q e = ground (v, arith)
stored k fd read_event (some f) cur c io io' b v w a q e =
    let f : add_to_context k fd read_event (some f) cur c io
        ≡ ok (added fd read_event (some f) cur c io, true) =
      rw (a, q, w) refl in
    of_ok (sym f ∙ e)
stored k fd write_event (some f) cur c io io' b v w a q e =
    let f : add_to_context k fd write_event (some f) cur c io
        ≡ ok (added fd write_event (some f) cur c io, true) =
      rw (a, q, w) refl in
    of_ok (sym f ∙ e)
stored k fd read_event none cur c io io' b v w a q e =
    elim (Bool-cases (is_exec (io.scheduler.fibers cur).state)) [
      | inl x ↦
          let f : add_to_context k fd read_event none cur c io
              ≡ ok (added fd read_event none cur c io, true) =
            rw (a, q, w, x) refl in
          of_ok (sym f ∙ e)
      | inr x ↦ of_fail (rw (a, q, w, x) at e)
    ]
stored k fd write_event none cur c io io' b v w a q e =
    elim (Bool-cases (is_exec (io.scheduler.fibers cur).state)) [
      | inl x ↦
          let f : add_to_context k fd write_event none cur c io
              ≡ ok (added fd write_event none cur c io, true) =
            rw (a, q, w, x) refl in
          of_ok (sym f ∙ e)
      | inr x ↦ of_fail (rw (a, q, w, x) at e)
    ]

-- What `addEvent` does when it does not fault: nothing, or the one change that it means to make.
add_to_context-cases :
    (k : Kernel) (fd : ℕ) (ev : Event) (cb : Option ℕ) (cur : ℕ) (c : FdContext)
    (io io' : IoManager) (b : Bool)
    → is_event ev ≡ true
    → k.current ≡ some 0
    → add_to_context k fd ev cb cur c io ≡ ok (io', b)
    → (io' ≡ io) ⊎ ((covers c.events ev ≡ false) × (io' ≡ added fd ev cb cur c io))
unfolding add_to_context waiter get_context
add_to_context-cases k fd ev cb cur c io io' b v q e = elim (Bool-cases (covers c.events ev)) [
  | inl w ↦ of_fail (rw w at e)
  | inr w ↦ elim (Bool-cases (k.ctl (add_op c.events) fd (join c.events ev))) [
    | inr a ↦ inl (of_ok (rw (a, w) at e))
    | inl a ↦ inr (w, stored k fd ev cb cur c io io' b v w a q e)
  ]
]

add_to_context-IsSound :
    (k : Kernel) (fd : ℕ) (ev : Event) (cb : Option ℕ) (cur : ℕ) (c : FdContext)
    (io io' : IoManager) (b : Bool)
    → is_event ev ≡ true
    → k.current ≡ some 0
    → IsSound io
    → get_elem? io.contexts fd ≡ some c
    → add_to_context k fd ev cb cur c io ≡ ok (io', b)
    → IsSound io'
add_to_context-IsSound k fd ev cb cur c io io' b v q s g e =
    elim (add_to_context-cases k fd ev cb cur c io io' b v q e) [
      | inl same ↦ subst IsSound (sym same) s
      | inr (w, all) ↦
          let t = All-get_elem? IsTidy io.contexts fd c s.tidy g in
          replace-IsSound (add_op c.events) fd c (waiting c ev cb cur) io io' s g
            (waiting-IsTidy c ev cb cur t v w) (ap (λ i. i.contexts) all)
            (omega (
              arith,
              ap (λ i. i.pending) all,
              waiting-mask_count c ev cb cur v w,
              s.counted,
              waiting_count-set io.contexts fd c (waiting c ev cb cur) g,
            ))
            (ap (λ i. i.calls) all ∙ told_of (waiting-events c ev cb cur))
    ]

at_index-IsSound :
    (k : Kernel) (fd : ℕ) (ev : Event) (cb : Option ℕ) (cur : ℕ) (io io' : IoManager) (b : Bool)
    → is_event ev ≡ true
    → k.current ≡ some 0
    → IsSound io
    → at_index (get_elem? io.contexts fd) (λ c. add_to_context k fd ev cb cur c io) ≡ ok (io', b)
    → IsSound io'
at_index-IsSound k fd ev cb cur io io' b v q s e = elim (Option-cases (get_elem? io.contexts fd)) [
  | inl g ↦ of_fail (rw g at e)
  | inr (c, g) ↦ add_to_context-IsSound k fd ev cb cur c io io' b v q s g (rw g at e)
]

add_event-IsSound :
    (k : Kernel) (fd : ℕ) (ev : Event) (cb : Option ℕ) (cur : ℕ) (io io' : IoManager) (b : Bool)
    → is_event ev ≡ true
    → k.current ≡ some 0
    → IsSound io
    → add_event k fd ev cb cur io ≡ ok (io', b)
    → IsSound io'
unfolding add_event
add_event-IsSound k fd ev cb cur io io' b v q s e =
    elim (Bool-cases (ltb fd (length io.contexts))) [
      | inl h ↦ at_index-IsSound k fd ev cb cur io io' b v q s (rw h at e)
      | inr h ↦
          at_index-IsSound k fd ev cb cur
            (record io { contexts = fd_context_resize (fd * 3 / 2) io.contexts }) io' b v q
            (resize-IsSound (fd * 3 / 2) io s) (rw h at e)
    ]

-- What can happen to the table: an event is added by a thread of this scheduler or cancelled, with
-- whatever answer of epoll_ctl and a pipe that can be written, or the scheduler runs, which leaves
-- the table as it is.
pub data Step : IoManager → IoManager → Type 0 where
  adds :
      (k : Kernel) (fd : ℕ) (ev : Event) (cb : Option ℕ) (cur : ℕ) (io io' : IoManager) (b : Bool)
      → is_event ev ≡ true
      → k.current ≡ some 0
      → add_event k fd ev cb cur io ≡ ok (io', b)
      → Step io io'
  cancels :
      (k : Kernel) (fd : ℕ) (ev : Event) (io io' : IoManager) (b : Bool)
      → is_event ev ≡ true
      → k.pipe ≡ true
      → cancel_event k fd ev io ≡ ok (io', b)
      → Step io io'
  runs : (s : Scheduler) (io : IoManager) → Step io (record io { scheduler = s })

-- The constructor's table of 32 contexts.
abbrev pub start : Scheduler → IoManager
start s = record { scheduler = s; contexts = fd_context_resize 32 []; pending = 0; calls = [] }

pub data Reach (s : Scheduler) : IoManager → Type 0 where
  here : Reach s (start s)
  next : {io io' : IoManager} → Reach s io → Step io io' → Reach s io'

pub start-IsSound : (s : Scheduler) → IsSound (start s)
start-IsSound s =
    resize-IsSound 32 (record { scheduler = s; contexts = []; pending = 0; calls = [] })
      (record { tidy = tt; counted = refl; told = λ q. refl })

Step-IsSound : {io io' : IoManager} → Step io io' → IsSound io → IsSound io'
Step-IsSound (adds k fd ev cb cur io io' b v q e) s =
    add_event-IsSound k fd ev cb cur io io' b v q s e
Step-IsSound (cancels k fd ev io io' b v q e) s =
    let (r, f, t) = cancel_event-IsSound k fd ev io v q s in
    subst IsSound (sym (of_ok (sym f ∙ e))) t
Step-IsSound (runs s' io) s = record { tidy = s.tidy; counted = s.counted; told = s.told }

-- In every state that adding events on threads of the scheduler and cancelling them reaches,
-- whatever epoll_ctl answers and the scheduler does between, where the pipe can be written, the
-- contexts are in order, the pending count is the number of events that wait, and the kernel was
-- last told for each descriptor the events that wait on it.
pub Reach-IsSound : {s : Scheduler} {io : IoManager} → Reach s io → IsSound io
Reach-IsSound {s} here = start-IsSound s
Reach-IsSound (next r st) = Step-IsSound st (Reach-IsSound r)

-- On every state that adding events on threads of the scheduler and cancelling them reaches,
-- whatever epoll_ctl answered, a further `cancelEvent` of a descriptor that is not negative fails
-- no assertion and follows no null pointer, where the pipe can be written.
pub cancel_event_safe :
    (s : Scheduler) (k : Kernel) (fd : ℕ) (ev : Event) (io : IoManager)
    → Reach s io
    → is_event ev ≡ true
    → k.pipe ≡ true
    → (r : IoManager × Bool) × (cancel_event k fd ev io ≡ ok r) × Reach s (r.0)
cancel_event_safe s k fd ev io reached v q =
    let (r, e, _) = cancel_event-IsSound k fd ev io v q (Reach-IsSound reached) in
    (r, e, next reached (cancels k fd ev io (r.0) (r.1) v q e))
