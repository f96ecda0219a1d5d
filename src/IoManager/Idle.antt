-- ===== src/IoManager/Idle.antt =====
-- The loop of `idle` (tw/iomanager.cc): how long it waits, and one pass with the timers that are
-- due and then what epoll_wait reported.
use tw_server.Base.{
  not, ◌&&◌, ◌==◌, if◌then◌else◌, ℕ, ◌<◌, ◌≡◌, refl, ap, sym, ◌∙◌, Bool, true, false, List, [], ◌∷◌,
  Option, none, ok, Outcome, ◌>>=◌, length, length-set, get_elem?, All, inl, inr, Bool-cases,
  Option-cases, arith,
}
use tw_server.Scheduler.{Task, schedule_all, stopping}
use tw_server.Timer.{TimerManager, list_expired_cb}
use tw_server.IoManager.{
  Event, read_event, write_event, IoManager, Kernel, covers, drop_event, cancel_event, del_event,
  at_index,
}
use tw_server.IoManager.Laws.{is_event, in_range, take_op, without, cancel_event_lem}
use tw_server.IoManager.Sound.{IsTidy, IsSound, All-get_elem?}
use tw_server.IoManager.Reachable.{past_range, waits, cancel_event-IsSound, of_ok}

-- What `idle` does with one event of epoll_wait that is not the pipe's: `broken` is EPOLLERR or
-- EPOLLHUP.
unfoldable pub when_waiting :
    (ℕ → Event → IoManager → Outcome (IoManager × Bool)) → ℕ → Event → IoManager → Outcome IoManager
when_waiting f fd ev io =
    at_index (get_elem? io.contexts fd)
      (λ c. if covers c.events ev then (f fd ev io >>= λ r. ok (r.0)) else ok io)

unfoldable pub on_ready : Kernel → ℕ → Bool → IoManager → Outcome IoManager
unfolding del_event cancel_event when_waiting
on_ready k fd broken io =
    (if broken
      then when_waiting (del_event k) fd read_event io >>= when_waiting (del_event k) fd write_event
      else ok io)
    >>= when_waiting (cancel_event k) fd read_event
    >>= when_waiting (cancel_event k) fd write_event

-- `stopping`, with whether a timer waits.
unfoldable pub io_stopping : Bool → IoManager → Bool
unfolding stopping
io_stopping has_timer io = not has_timer && io.pending == 0 && stopping io.scheduler

-- A report of epoll_wait on a descriptor: whether it is EPOLLERR or EPOLLHUP. Whether it is for
-- reading or writing is not looked at.
pub record Report : Type 0 where
  pub fd : ℕ
  pub is_broken : Bool

abbrev pub cb_tasks : List (Option ℕ) → List Task
cb_tasks [] = []
cb_tasks (cb ∷ l) = record { fiber = none; cb = cb } ∷ cb_tasks l

-- The callbacks of `listExpiredCb` are scheduled.
unfoldable pub run_timers : ℕ → ℕ → TimerManager → IoManager → TimerManager × IoManager
unfolding list_expired_cb schedule_all
run_timers now key m io =
    let r : TimerManager × List (Option ℕ) = list_expired_cb now key m in
    (r.0, record io { scheduler = (schedule_all (cb_tasks (r.1)) io.scheduler).0 })

unfoldable pub handle_all : Kernel → List Report → IoManager → Outcome IoManager
unfolding on_ready
handle_all k [] io = ok io
handle_all k (r ∷ l) io = on_ready k r.fd r.is_broken io >>= handle_all k l

unfoldable pub idle_pass :
    Kernel → ℕ → ℕ → List Report → TimerManager → IoManager → Outcome (TimerManager × IoManager)
unfolding run_timers handle_all
idle_pass k now key reports m io =
    let r : TimerManager × IoManager = run_timers now key m io in
    handle_all k reports (r.1) >>= λ io'. ok (r.0, io')

cancel_event_size :
    (k : Kernel) (fd : ℕ) (ev : Event) (io : IoManager) (r : IoManager × Bool)
    → is_event ev ≡ true
    → k.pipe ≡ true
    → IsSound io
    → cancel_event k fd ev io ≡ ok r
    → length r.0.contexts ≡ length io.contexts
unfolding cancel_event
cancel_event_size k fd ev io r v p s e = elim (Option-cases (get_elem? io.contexts fd)) [
  | inl g ↦ kept io (rw (past_range io.contexts fd g) refl)
  | inr (c, g) ↦ elim (Bool-cases (covers c.events ev)) [
    | inr w ↦ kept io (rw ((in_range io.contexts fd c g).1, g, w) refl)
    | inl w ↦ elim (Bool-cases (k.ctl (take_op c.events ev) fd (drop_event c.events ev))) [
      | inr a ↦ kept io (rw ((in_range io.contexts fd c g).1, g, w, a) refl)
      | inl a ↦
          let t = All-get_elem? IsTidy io.contexts fd c s.tidy g in
          let done = cancel_event_lem k fd ev c io g v w (waits c ev t v w) a p in
          ap (λ i. length i.contexts) (of_ok (sym done ∙ e))
          ∙ length-set io.contexts fd (without c ev)
    ]
  ]
]
  where
    kept :
        (io' : IoManager)
        → cancel_event k fd ev io ≡ ok (io', false)
        → length r.0.contexts ≡ length io'.contexts
    kept io' f = ap (λ i. length i.contexts) (of_ok (sym f ∙ e))

-- A table in order, of a size.
abbrev IsReady : ℕ → IoManager → Type 0
IsReady n io = IsSound io × (length io.contexts ≡ n)

when_waiting-IsReady :
    (k : Kernel) (fd : ℕ) (ev : Event) (n : ℕ) (io : IoManager)
    → is_event ev ≡ true
    → k.pipe ≡ true
    → fd < n
    → IsReady n io
    → (io' : IoManager) × (when_waiting (cancel_event k) fd ev io ≡ ok io') × IsReady n io'
unfolding when_waiting
when_waiting-IsReady k fd ev n io v p lt (s, size) =
    elim (Option-cases (get_elem? io.contexts fd)) [
      | inl g ↦ absurd (ground (arith, past_range io.contexts fd g))
      | inr (c, g) ↦ elim (Bool-cases (covers c.events ev)) [
        | inr w ↦ (io, rw (g, w) refl, (s, size))
        | inl w ↦
            let (r, e, s') = cancel_event-IsSound k fd ev io v p s in
            (r.0, rw (g, w, e) refl, (s', cancel_event_size k fd ev io r v p s e ∙ size))
      ]
    ]

on_ready-IsReady :
    (k : Kernel) (fd n : ℕ) (io : IoManager)
    → k.pipe ≡ true
    → fd < n
    → IsReady n io
    → (io' : IoManager) × (on_ready k fd false io ≡ ok io') × IsReady n io'
unfolding on_ready
on_ready-IsReady k fd n io p lt h =
    let (io1, e1, h1) = when_waiting-IsReady k fd read_event n io refl p lt h in
    let (io2, e2, h2) = when_waiting-IsReady k fd write_event n io1 refl p lt h1 in
    (io2, rw (e1, e2) refl, h2)

handle_all-IsReady :
    (k : Kernel) (n : ℕ) (l : List Report) (io : IoManager)
    → k.pipe ≡ true
    → All (λ r. (r.fd < n) × (r.is_broken ≡ false)) l
    → IsReady n io
    → (io' : IoManager) × (handle_all k l io ≡ ok io') × IsReady n io'
unfolding handle_all
handle_all-IsReady k n [] io p a h = (io, refl, h)
handle_all-IsReady k n (r ∷ l) io p a h =
    let (io1, e1, h1) = on_ready-IsReady k r.fd n io p a.0.0 h in
    let (io2, e2, h2) = handle_all-IsReady k n l io1 p a.1 h1 in
    let b : r.is_broken ≡ false = a.0.1 in (io2, rw (b, e1) e2, h2)

-- On a table in order, a pass of `idle` whose reports are of descriptors of the table and not of
-- errors fails no assertion and follows no null pointer, whatever epoll_ctl answers, where the pipe
-- can be written, and leaves the table in order.
pub idle_pass-IsSound :
    (k : Kernel) (now key : ℕ) (reports : List Report) (m : TimerManager) (io : IoManager)
    → k.pipe ≡ true
    → IsSound io
    → All (λ r. (r.fd < length io.contexts) × (r.is_broken ≡ false)) reports
    → (m' : TimerManager) × (io' : IoManager) × (idle_pass k now key reports m io ≡ ok (m', io'))
      × IsSound io'
unfolding idle_pass run_timers
idle_pass-IsSound k now key reports m io p s a =
    let io0 : IoManager = (run_timers now key m io).1 in
    let s0 : IsSound io0 = record { tidy = s.tidy; counted = s.counted; told = s.told } in
    let (io', e, (s', _)) = handle_all-IsReady k (length io.contexts) reports io0 p a (s0, refl) in
    ((run_timers now key m io).0, io', rw e refl, s')
