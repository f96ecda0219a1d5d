-- ===== src/IoManager/RoundTrip.antt =====
-- An event that is added and then cancelled (tw/iomanager.cc).
use tw_server.Base.{
  ℕ, ◌+◌, ◌≡◌, refl, ap, sym, ◌∙◌, true, false, ◌∷◌, Option, none, some, ok, get_elem?, set, arith,
}
use tw_server.Fiber.{is_exec}
use tw_server.Scheduler.{Task, schedule}
use tw_server.IoManager.{
  Event, no_event, read_event, write_event, covers, join, drop_event, EventContext, FdContext,
  no_context, IoManager, Kernel, add_event, cancel_event,
}
use tw_server.IoManager.Laws.{
  task_of, is_event, context_of, take_op, add_op, without, waiting, get_elem?-set_same, set-set,
  set-get_elem?, cancel_event_lem, add_event_lem,
}
use tw_server.IoManager.Sound.{IsTidy, IsSound, All-get_elem?}
use tw_server.IoManager.Reachable.{side_idle, waiting-events}

-- The task of a waiter: the callback, or without one the fiber.
abbrev pub waking : Option ℕ → ℕ → Task
waking none cur = record { fiber = some cur; cb = none }
waking (some f) cur = record { fiber = none; cb = some f }

idle_context :
    (c : FdContext) (ev : Event)
    → IsTidy c
    → is_event ev ≡ true
    → covers c.events ev ≡ false
    → context_of c ev ≡ no_context
idle_context c no_event t v w = ground (v, arith)
idle_context c read_event t v w = side_idle c.events.reads c.read t.0 w
idle_context c write_event t v w = side_idle c.events.writes c.write t.1 w

waiting-covers :
    (c : FdContext) (ev : Event) (cb : Option ℕ) (cur : ℕ)
    → is_event ev ≡ true
    → covers (waiting c ev cb cur).events ev ≡ true
waiting-covers c no_event cb cur v = ground (v, arith)
waiting-covers c read_event cb cur v = refl
waiting-covers c write_event cb cur v = refl

waiting-home :
    (c : FdContext) (ev : Event) (cb : Option ℕ) (cur : ℕ)
    → is_event ev ≡ true
    → (context_of (waiting c ev cb cur) ev).home ≡ some 0
waiting-home c no_event cb cur v = ground (v, arith)
waiting-home c read_event none cur v = refl
waiting-home c read_event (some f) cur v = refl
waiting-home c write_event none cur v = refl
waiting-home c write_event (some f) cur v = refl

task_of-waiting :
    (c : FdContext) (ev : Event) (cb : Option ℕ) (cur : ℕ)
    → is_event ev ≡ true
    → context_of c ev ≡ no_context
    → task_of (context_of (waiting c ev cb cur) ev) ≡ waking cb cur
task_of-waiting c no_event cb cur v n = ground (v, arith)
task_of-waiting c read_event none cur v n = refl
task_of-waiting c read_event (some f) cur v n =
    ap (λ z. task_of (record z { home = some 0; cb = some f })) n
task_of-waiting c write_event none cur v n = refl
task_of-waiting c write_event (some f) cur v n =
    ap (λ z. task_of (record z { home = some 0; cb = some f })) n

read_restored :
    (c : FdContext)
    → c.events.reads ≡ false
    → c.read ≡ no_context
    → ◌≡◌ {A = FdContext}
        (record c { read = no_context; events = record c.events { reads = false } })
        c
read_restored c w n =
    ap (λ z. record c { read = z; events = record c.events { reads = false } }) (sym n)
    ∙ ap (λ b. record c { events = record c.events { reads = b } }) (sym w)

write_restored :
    (c : FdContext)
    → c.events.writes ≡ false
    → c.write ≡ no_context
    → ◌≡◌ {A = FdContext}
        (record c { write = no_context; events = record c.events { writes = false } })
        c
write_restored c w n =
    ap (λ z. record c { write = z; events = record c.events { writes = false } }) (sym n)
    ∙ ap (λ b. record c { events = record c.events { writes = b } }) (sym w)

-- What a waiter leaves in a context that had nothing.
abbrev emptied : Option ℕ → EventContext → EventContext
emptied none z = record z { home = none; fiber = none }
emptied (some f) z = elim z.fiber [
  | none ↦ record z { home = none; cb = none }
  | some p ↦ record z { home = none; fiber = none; cb = some f }
]

without-waiting :
    (c : FdContext) (ev : Event) (cb : Option ℕ) (cur : ℕ)
    → is_event ev ≡ true
    → covers c.events ev ≡ false
    → context_of c ev ≡ no_context
    → without (waiting c ev cb cur) ev ≡ c
without-waiting c no_event cb cur v w n = ground (v, arith)
without-waiting c read_event none cur v w n =
    ap (λ z. record c { read = emptied none z; events = record c.events { reads = false } }) n
    ∙ read_restored c w n
without-waiting c read_event (some f) cur v w n =
    ap (λ z. record c { read = emptied (some f) z; events = record c.events { reads = false } }) n
    ∙ read_restored c w n
without-waiting c write_event none cur v w n =
    ap (λ z. record c { write = emptied none z; events = record c.events { writes = false } }) n
    ∙ write_restored c w n
without-waiting c write_event (some f) cur v w n =
    ap (λ z. record c { write = emptied (some f) z; events = record c.events { writes = false } }) n
    ∙ write_restored c w n

-- Where an event does not wait yet on a descriptor of a sound table, the caller is running on a
-- thread of this scheduler, epoll_ctl accepts both times and the pipe can be written, `cancelEvent`
-- after `addEvent` restores the table and the count, and the waiter, the callback or else the
-- fiber, is scheduled once.
pub cancel_event-add_event :
    (k k' : Kernel) (fd : ℕ) (ev : Event) (cb : Option ℕ) (cur : ℕ) (c : FdContext) (io : IoManager)
    → IsSound io
    → get_elem? io.contexts fd ≡ some c
    → is_event ev ≡ true
    → covers c.events ev ≡ false
    → is_exec (io.scheduler.fibers cur).state ≡ true
    → k.ctl (add_op c.events) fd (join c.events ev) ≡ true
    → k'.ctl (take_op (join c.events ev) ev) fd (drop_event (join c.events ev) ev) ≡ true
    → k.current ≡ some 0
    → k'.pipe ≡ true
    → (io1 io2 : IoManager) × (add_event k fd ev cb cur io ≡ ok (io1, true))
      × (cancel_event k' fd ev io1 ≡ ok (io2, true))
      × (io2.contexts ≡ io.contexts)
      × (io2.pending ≡ io.pending)
      × (io2.scheduler ≡ (schedule (waking cb cur) io.scheduler).0)
cancel_event-add_event k k' fd ev cb cur c io s g v w x a a' t q =
    let c' : FdContext = waiting c ev cb cur in
    let tidy = All-get_elem? IsTidy io.contexts fd c s.tidy g in
    let idle = idle_context c ev tidy v w in
    let told : c'.events ≡ join c.events ev = waiting-events c ev cb cur in
    let io1 : IoManager = record {
      scheduler = io.scheduler;
      contexts = set io.contexts fd c';
      pending = io.pending + 1;
      calls = record { op = add_op c.events; fd = fd; mask = join c.events ev } ∷ io.calls;
    } in
    let there = get_elem?-set_same io.contexts fd c c' g in
    (
      io1,
      _,
      add_event_lem k fd ev cb cur c io g v w x a t,
      cancel_event_lem k' fd ev c' io1 there v (waiting-covers c ev cb cur v)
          (waiting-home c ev cb cur v)
          (ap (λ m. k'.ctl (take_op m ev) fd (drop_event m ev)) told ∙ a') q,
      set-set io.contexts fd c' (without c' ev)
          ∙ ap (set io.contexts fd) (without-waiting c ev cb cur v w idle)
          ∙ set-get_elem? io.contexts fd c g,
      omega arith,
      ap (λ k. (schedule k io.scheduler).0) (task_of-waiting c ev cb cur v idle),
    )
