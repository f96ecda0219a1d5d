-- ===== src/IoManager/Laws.antt =====
-- Adding, cancelling and waiting for events (tw/iomanager.cc).
use tw_server.Base.{
  ℕ, zero, suc, ◌+◌, ◌-◌, ◌≡◌, refl, ap, sym, Bool, true, false, List, [], ◌∷◌, Option, none, some,
  if◌then◌else◌, ltb, leb, ok, length, get_elem?, set, Option-cases, inl, inr, arith,
}
use tw_server.Fiber.{is_exec}
use tw_server.Scheduler.{Scheduler, Task, schedule}
use tw_server.IoManager.{
  Event, no_event, read_event, write_event, Mask, covers, join, drop_event, is_some_event,
  EventContext, FdContext, Op, ctl_add, ctl_mod, ctl_del, IoManager, Kernel, get_context,
  put_context, trigger_event, waiter, add_to_context, add_event, cancel_event, cancel_all,
}

-- The task that the waiter of an event becomes.
abbrev pub task_of : EventContext → Task
task_of e = elim e.fiber [
  | some p ↦ record { fiber = some p; cb = none }
  | none ↦ record { fiber = none; cb = e.cb }
]

abbrev pub is_event : Event → Bool
is_event no_event = false
is_event read_event = true
is_event write_event = true

abbrev pub context_of : FdContext → Event → EventContext
context_of c no_event = c.read
context_of c read_event = c.read
context_of c write_event = c.write

pub in_range {ℓ} :
    {A : Type ℓ} (l : List A) (i : ℕ) (c : A)
    → get_elem? l i ≡ some c
    → (ltb i (length l) ≡ true) × (leb (length l) i ≡ false)
in_range [] i c h = ground (h, arith)
in_range (x ∷ l) zero c h = (ground arith, ground arith)
in_range (x ∷ l) (suc i) c h =
    let r = in_range l i c h in (ground (r.0, arith), ground (r.1, arith))

pub get_elem?-set_same {ℓ} :
    {A : Type ℓ} (l : List A) (i : ℕ) (a b : A)
    → get_elem? l i ≡ some a
    → get_elem? (set l i b) i ≡ some b
get_elem?-set_same [] i a b h = ground (h, arith)
get_elem?-set_same (x ∷ l) zero a b h = refl
get_elem?-set_same (x ∷ l) (suc i) a b h = get_elem?-set_same l i a b h

pub set-set {ℓ} : {A : Type ℓ} (l : List A) (i : ℕ) (a b : A) → set (set l i a) i b ≡ set l i b
set-set [] i a b = refl
set-set (x ∷ l) zero a b = refl
set-set (x ∷ l) (suc i) a b = ap (λ t. x ∷ t) (set-set l i a b)

pub set-get_elem? {ℓ} :
    {A : Type ℓ} (l : List A) (i : ℕ) (a : A) → get_elem? l i ≡ some a → set l i a ≡ l
set-get_elem? [] i a h = refl
set-get_elem? (x ∷ l) zero a h = ap (λ o. elim o [ none ↦ x ∷ l | some b ↦ b ∷ l ]) (sym h)
set-get_elem? (x ∷ l) (suc i) a h = ap (λ t. x ∷ t) (set-get_elem? l i a h)

-- The call of epoll_ctl by which an event is taken from a descriptor.
abbrev pub take_op : Mask → Event → Op
take_op m ev = if is_some_event (drop_event m ev) then ctl_mod else ctl_del

-- A waiter of the event, a fiber or else a callback, becomes one task; the context has none.
abbrev pub without : FdContext → Event → FdContext
without c ev =
    put_context (record c { events = drop_event c.events ev }) ev
      (elim (context_of c ev).fiber [
        | some p ↦ record (context_of c ev) { home = none; fiber = none }
        | none ↦ record (context_of c ev) { home = none; cb = none }
      ])

trigger_event_lem :
    (c : FdContext) (ev : Event) (s : Scheduler)
    → is_event ev ≡ true
    → covers c.events ev ≡ true
    → (context_of c ev).home ≡ some 0
    → trigger_event c ev s
      ≡ ok (
        without c ev,
        (schedule (task_of (context_of c ev)) s).0,
        (schedule (task_of (context_of c ev)) s).1,
      )
unfolding trigger_event get_context
trigger_event_lem c no_event s h w q = ground (h, arith)
trigger_event_lem c read_event s h w q = elim (Option-cases c.read.fiber) [
  | inl e ↦ rw (w, q, e) refl
  | inr (p, e) ↦ rw (w, q, e) refl
]
trigger_event_lem c write_event s h w q = elim (Option-cases c.write.fiber) [
  | inl e ↦ rw (w, q, e) refl
  | inr (p, e) ↦ rw (w, q, e) refl
]

-- Where an event waits on a descriptor of the table, and epoll_ctl and the pipe accept,
-- `cancelEvent` succeeds: the waiter is scheduled, the event is no longer recorded, one event fewer
-- is pending, and the kernel was told the events that remain.
pub cancel_event_lem :
    (k : Kernel) (fd : ℕ) (ev : Event) (c : FdContext) (io : IoManager)
    → get_elem? io.contexts fd ≡ some c
    → is_event ev ≡ true
    → covers c.events ev ≡ true
    → (context_of c ev).home ≡ some 0
    → k.ctl (take_op c.events ev) fd (drop_event c.events ev) ≡ true
    → k.pipe ≡ true
    → cancel_event k fd ev io
      ≡ ok (
        record {
          scheduler = (schedule (task_of (context_of c ev)) io.scheduler).0;
          contexts = set io.contexts fd (without c ev);
          pending = io.pending - 1;
          calls =
              record { op = take_op c.events ev; fd = fd; mask = drop_event c.events ev }
              ∷ io.calls;
        },
        true,
      )
unfolding cancel_event
cancel_event_lem k fd ev c io g v w q a p =
    rw (p, (in_range io.contexts fd c g).1, g, a, trigger_event_lem c ev io.scheduler v w q, w) refl

-- Where no READ waits, `cancelAll` gives up and changes nothing, so a WRITE that waits on the same
-- descriptor is never woken.
cancel_all_keeps_write :
    (k : Kernel) (fd : ℕ) (c : FdContext) (io : IoManager)
    → get_elem? io.contexts fd ≡ some c
    → covers c.events read_event ≡ false
    → cancel_all k fd io ≡ ok (io, false)
unfolding cancel_all cancel_event
cancel_all_keeps_write k fd c io g w = rw ((in_range io.contexts fd c g).1, g, w) refl

-- What `addEvent` leaves in the context.
abbrev pub waiting : FdContext → Event → Option ℕ → ℕ → FdContext
waiting c ev cb cur =
    put_context (record c { events = join c.events ev }) ev
      (elim cb [
        | some f ↦ record (context_of c ev) { home = some 0; cb = some f }
        | none ↦ record (context_of c ev) { home = some 0; fiber = some cur }
      ])

abbrev pub add_op : Mask → Op
add_op m = if is_some_event m then ctl_mod else ctl_add

-- Where an event does not wait yet on a descriptor of the table, epoll_ctl accepts, and the current
-- fiber is running, `addEvent` succeeds: the callback, or without one the fiber, is the waiter, one
-- event more is pending, and the kernel was told all events of the descriptor.
pub add_event_lem :
    (k : Kernel) (fd : ℕ) (ev : Event) (cb : Option ℕ) (cur : ℕ) (c : FdContext) (io : IoManager)
    → get_elem? io.contexts fd ≡ some c
    → is_event ev ≡ true
    → covers c.events ev ≡ false
    → is_exec (io.scheduler.fibers cur).state ≡ true
    → k.ctl (add_op c.events) fd (join c.events ev) ≡ true
    → k.current ≡ some 0
    → add_event k fd ev cb cur io
      ≡ ok (
        record {
          scheduler = io.scheduler;
          contexts = set io.contexts fd (waiting c ev cb cur);
          pending = io.pending + 1;
          calls = record { op = add_op c.events; fd = fd; mask = join c.events ev } ∷ io.calls;
        },
        true,
      )
unfolding add_event add_to_context waiter get_context
add_event_lem k fd no_event cb cur c io g v w x a t = ground (v, arith)
add_event_lem k fd read_event none cur c io g v w x a t =
    rw ((in_range io.contexts fd c g).0, g, a, t, w, x) refl
add_event_lem k fd read_event (some f) cur c io g v w x a t =
    rw ((in_range io.contexts fd c g).0, g, a, t, w) refl
add_event_lem k fd write_event none cur c io g v w x a t =
    rw ((in_range io.contexts fd c g).0, g, a, t, w, x) refl
add_event_lem k fd write_event (some f) cur c io g v w x a t =
    rw ((in_range io.contexts fd c g).0, g, a, t, w) refl
