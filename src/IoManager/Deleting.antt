-- ===== src/IoManager/Deleting.antt =====
-- Deleting an event (tw/iomanager.cc, tw/fiber.cc).
use tw_server.Base.{
  ℕ, ◌≡◌, refl, true, false, Option, none, some, fail, Fault, get_elem?, arith, Bool-cases, inl,
  inr,
}
use tw_server.Fiber.{Fiber, at_rest, reset, has}
use tw_server.IoManager.{
  Event, no_event, read_event, write_event, covers, drop_event, FdContext, EventContext, IoManager,
  Kernel, del_event, get_context, reset_context,
}
use tw_server.IoManager.Laws.{is_event, context_of, take_op, in_range}

-- How resetContext fails on a waiter.
abbrev pub fault_of : EventContext → Fault
fault_of e = elim e.fiber [ none ↦ Fault.null_deref | some p ↦ Fault.assertion ]

-- The waiter is a callback, or a fiber that has not ended.
abbrev pub Alive : Option ℕ → (ℕ → Fiber) → Type 0
Alive none fs = Unit
Alive (some p) fs = at_rest (fs p).state ≡ false

reset_context_fails :
    (e : EventContext) (fs : ℕ → Fiber) → Alive e.fiber fs → reset_context e fs ≡ fail (fault_of e)
unfolding reset_context reset
reset_context_fails e fs u = by_fiber e.fiber refl u
  where
    by_fiber : (o : Option ℕ) → e.fiber ≡ o → Alive o fs → reset_context e fs ≡ fail (fault_of e)
    by_fiber none q u = rw (reset_context, q) refl
    by_fiber (some p) q u = elim (Bool-cases (has (fs p).stack_size)) [
      | inl a ↦ rw (reset_context, reset, q, a, u) refl
      | inr a ↦ rw (reset_context, reset, q, a) refl
    ]

-- Where an event waits on a descriptor of the table, epoll_ctl accepts, and the waiter is a
-- callback or a fiber that has not ended, `delEvent` never returns: it dereferences the null fiber
-- of a callback, or the assertion on the fiber's state fails.
pub del_event_fails :
    (k : Kernel) (fd : ℕ) (ev : Event) (c : FdContext) (io : IoManager)
    → get_elem? io.contexts fd ≡ some c
    → is_event ev ≡ true
    → covers c.events ev ≡ true
    → Alive (context_of c ev).fiber io.scheduler.fibers
    → k.ctl (take_op c.events ev) fd (drop_event c.events ev) ≡ true
    → del_event k fd ev io ≡ fail (fault_of (context_of c ev))
unfolding del_event get_context
del_event_fails k fd no_event c io g v w u a = ground (v, arith)
del_event_fails k fd read_event c io g v w u a =
    rw ((in_range io.contexts fd c g).1, g, w, a, reset_context_fails c.read io.scheduler.fibers u)
      refl
del_event_fails k fd write_event c io g v w u a =
    rw ((in_range io.contexts fd c g).1, g, w, a, reset_context_fails c.write io.scheduler.fibers u)
      refl
