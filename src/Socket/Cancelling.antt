-- ===== src/Socket/Cancelling.antt =====
-- cancelRead and its kin (tw/socket.cc) on the IO manager, as TcpServer::stop uses them
-- (tw/tcp_server.cc).
use tw_server.Base.{
  ℕ, ◌≡◌, refl, ap, ◌∙◌, Bool, true, false, not, [], ◌∷◌, Option, none, some, get_elem?, Outcome,
  ok, fail, Fault, ◌>>=◌, ◌&&◌,
}
use tw_server.Scheduler.{schedule}
use tw_server.IoManager.{
  IoManager, FdContext, Kernel, Event, read_event, write_event, covers, join, drop_event, add_event,
  cancel_event, cancel_all,
}
use tw_server.IoManager.Laws.{add_op, take_op, in_range}
use tw_server.IoManager.Sound.{IsSound}
use tw_server.IoManager.RoundTrip.{waking, cancel_event-add_event}
use tw_server.Fiber.{is_exec}
use tw_server.Socket.{Socket, closed, Done, close, is_valid}

-- Without a descriptor the table is indexed at -1.
abbrev pub at_descriptor : Option ℕ → (ℕ → Outcome (IoManager × Bool)) → Outcome (IoManager × Bool)
at_descriptor none f = fail Fault.past_end
at_descriptor (some fd) f = f fd

unfoldable pub cancel_read : Kernel → Socket → IoManager → Outcome (IoManager × Bool)
unfolding cancel_event
cancel_read k s io = at_descriptor s.sock (λ fd. cancel_event k fd read_event io)

unfoldable pub cancel_write : Kernel → Socket → IoManager → Outcome (IoManager × Bool)
unfolding cancel_event
cancel_write k s io = at_descriptor s.sock (λ fd. cancel_event k fd write_event io)

unfoldable pub cancel_accept : Kernel → Socket → IoManager → Outcome (IoManager × Bool)
unfolding cancel_read
cancel_accept k s io = cancel_read k s io

unfoldable pub cancel_all_events : Kernel → Socket → IoManager → Outcome (IoManager × Bool)
unfolding cancel_all
cancel_all_events k s io = at_descriptor s.sock (λ fd. cancel_all k fd io)

-- What the task of `TcpServer::stop` does with a socket.
unfoldable pub cancel_and_close : Kernel → Socket → IoManager → Outcome (IoManager × Done)
unfolding cancel_all_events close
cancel_and_close k s io = cancel_all_events k s io >>= λ r. ok (r.0, close s)

not_waiting :
    (k : Kernel) (fd : ℕ) (ev : Event) (c : FdContext) (io : IoManager)
    → get_elem? io.contexts fd ≡ some c
    → covers c.events ev ≡ false
    → cancel_event k fd ev io ≡ ok (io, false)
unfolding cancel_event
not_waiting k fd ev c io g w = rw ((in_range io.contexts fd c g).1, g, w) refl

not_closed : (b : Bool) → (not b && not true) ≡ false
not_closed true = refl
not_closed false = refl

close_open :
    (s : Socket) (fd : ℕ)
    → s.sock ≡ some fd
    → ((close s).socket.sock ≡ none) × ((close s).effects ≡ closed fd ∷ [])
unfolding close
close_open s fd f =
    let guarded : (not s.is_connected && not (is_valid s)) ≡ false =
      ap (λ o. not s.is_connected && not (elim o [ none ↦ false | some d ↦ true ])) f
      ∙ not_closed s.is_connected in
    (rw guarded refl, rw guarded (ap (λ o. elim o [ none ↦ [] | some d ↦ closed d ∷ [] ]) f))

-- Where a fiber of this scheduler waits to accept on a socket on which nothing else waits, and
-- epoll_ctl and the pipe accept, stopping the server wakes that fiber once, leaves no event behind
-- and closes the descriptor.
pub cancel_and_close-add_event :
    (k k' : Kernel) (s : Socket) (fd cur : ℕ) (c : FdContext) (io : IoManager)
    → s.sock ≡ some fd
    → IsSound io
    → get_elem? io.contexts fd ≡ some c
    → covers c.events read_event ≡ false
    → covers c.events write_event ≡ false
    → is_exec (io.scheduler.fibers cur).state ≡ true
    → k.ctl (add_op c.events) fd (join c.events read_event) ≡ true
    → k'.ctl
        (take_op (join c.events read_event) read_event)
        fd
        (drop_event (join c.events read_event) read_event)
      ≡ true
    → k.current ≡ some 0
    → k'.pipe ≡ true
    → (io1 io2 : IoManager) × (d : Done) × (add_event k fd read_event none cur io ≡ ok (io1, true))
      × (cancel_and_close k' s io1 ≡ ok (io2, d))
      × (io2.contexts ≡ io.contexts)
      × (io2.pending ≡ io.pending)
      × (io2.scheduler ≡ (schedule (waking none cur) io.scheduler).0)
      × (d.socket.sock ≡ none)
      × (d.effects ≡ closed fd ∷ [])
unfolding cancel_and_close cancel_all_events cancel_all
cancel_and_close-add_event k k' s fd cur c io f v g r w x a a' t p =
    let (io1, io2, added, cancelled, contexts, pending, woken) =
      cancel_event-add_event k k' fd read_event none cur c io v g refl r x a a' t p in
    let writes : cancel_event k' fd write_event io2 ≡ ok (io2, false) =
      not_waiting k' fd write_event c io2 (ap (λ l. get_elem? l fd) contexts ∙ g) w in
    (
      io1,
      io2,
      close s,
      added,
      rw (f, cancelled, writes) refl,
      contexts,
      pending,
      woken,
      (close_open s fd f).0,
      (close_open s fd f).1,
    )
