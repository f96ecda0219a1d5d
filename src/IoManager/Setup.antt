-- ===== src/IoManager/Setup.antt =====
-- The constructor and the destructor of the IO manager (tw/iomanager.cc).
mod Examples
use tw_server.Base.{
  ℕ, ◌+◌, ◌≤◌, ◌<◌, ◌≡◌, refl, ap, sym, ◌∙◌, Bool, true, false, List, [], ◌∷◌, ◌++◌, Option, none,
  some, if◌then◌else◌, ltb, ◌==◌, map, length, Outcome, ok, fail, Fault, guard, ◌>>=◌, ◌>>◌, arith,
}
use tw_server.Scheduler.{Scheduler}
use tw_server.Scheduler.Lifecycle.{Worker, Pool, construct, start, stop, stop_with}
use tw_server.Scheduler.Lifecycle.Joining.{stop-start}
use tw_server.IoManager.{IoManager, Ctl, fd_context_resize}
use tw_server.IoManager.Idle.{io_stopping}
use tw_server.IoManager.Sound.{IsSound}
use tw_server.IoManager.Reachable.{start-IsSound}

-- What the system answers; `none` and `false` are -1.
pub record SetupAnswers : Type 0 where
  pub epoll_create : Option ℕ
  pub pipe : Option (ℕ × ℕ)
  pub set_non_block : Bool
  pub add_pipe : Bool

-- The IO manager with its descriptors and its threads.
pub record Reactor : Type 0 where
  pub epfd : ℕ
  pub tickle_read : ℕ
  pub tickle_write : ℕ
  pub io : IoManager
  pub pool : Pool

abbrev pub asserted {ℓ} : {A : Type ℓ} → Option A → Outcome A
asserted none = fail Fault.assertion
asserted (some a) = ok a

-- `IOManager::IOManager`, up to `start`; `TW_ASSERT(m_epfd > 0)`.
unfoldable pub open_descriptors : SetupAnswers → Outcome (ℕ × ℕ × ℕ)
open_descriptors k = do
  epfd ← asserted k.epoll_create
  guard (ltb 0 epfd) Fault.assertion
  fds ← asserted k.pipe
  guard k.set_non_block Fault.assertion
  guard k.add_pipe Fault.assertion
  ok (epfd, fds.0, fds.1)

-- The whole constructor, on the thread `tid`.
unfoldable pub new_io_manager :
    SetupAnswers → ℕ → Bool → List ℕ → ℕ → Bool → (ℕ → Option (ℕ × ℕ)) → Scheduler → Outcome Reactor
unfolding open_descriptors construct start fd_context_resize
new_io_manager k tid bound name count use_caller create core = do
  pool ← construct tid bound name count use_caller core
  fds ← open_descriptors k
  pool' ← start create pool
  ok (record {
    epfd = fds.0;
    tickle_read = fds.1;
    tickle_write = fds.2;
    io = record {
      scheduler = pool'.core;
      contexts = fd_context_resize 32 [];
      pending = 0;
      calls = [];
    };
    pool = pool';
  })

-- `IOManager::~IOManager`, where `has_timer` is whether a timer is left: the descriptors that are
-- closed, in order, after the threads that are joined, and how many contexts are deleted.
unfoldable pub destroy_io_manager :
    Bool → (Scheduler → Outcome Scheduler) → (ℕ → Bool) → Reactor → Outcome (List ℕ × List ℕ × ℕ)
unfolding stop_with io_stopping
destroy_io_manager has_timer loop answer r =
    stop_with (λ core. io_stopping has_timer (record r.io { scheduler = core })) loop answer
      (record r.pool { core = r.io.scheduler })
    >>= λ z. ok (z.1, r.epfd ∷ r.tickle_read ∷ r.tickle_write ∷ [], length r.io.contexts)

-- Where the system calls, pthread_create and pthread_join succeed with threads that are not 0, the
-- loop that the caller runs quits, and no timer is left, the constructor succeeds and leaves a
-- table of 32 contexts in order with the descriptors that it opened; and the destructor joins each
-- thread that was started once, in order, closes epoll's descriptor and both ends of the pipe, and
-- deletes the 32 contexts.
pub destroy-new_io_manager :
    (epfd : ℕ) (ends : ℕ × ℕ) (tid : ℕ) (bound : Bool) (name : List ℕ) (count : ℕ)
    (use_caller : Bool) (core : Scheduler) (p : Pool) (create : ℕ → Option (ℕ × ℕ))
    (made : ℕ → ℕ × ℕ) (loop : Scheduler → Outcome Scheduler) (answer : ℕ → Bool)
    → 0 < epfd
    → construct tid bound name count use_caller core ≡ ok p
    → ((i : ℕ) → create i ≡ some (made i))
    → ((i : ℕ) → ((made i).0 == 0) ≡ false)
    → ((i : ℕ) → answer (made i).0 ≡ true)
    → ((q : Scheduler) → (c : Scheduler) × (loop q ≡ ok c))
    → (r : Reactor) × (new_io_manager
          (record {
            epoll_create = some epfd;
            pipe = some ends;
            set_non_block = true;
            add_pipe = true;
          })
          tid
          bound
          name
          count
          use_caller
          create
          core
        ≡ ok r)
      × IsSound r.io
      × (length r.io.contexts ≡ 32)
      × (destroy_io_manager false loop answer r
          ≡ ok (map (λ w. w.handle) r.pool.threads, epfd ∷ ends.0 ∷ ends.1 ∷ [], 32))
unfolding new_io_manager destroy_io_manager stop io_stopping
destroy-new_io_manager epfd ends tid bound name count use_caller core p create made loop answer pos
      e h k j quits =
    let (p1, p2, handles, ws, started, threads, ids, ran, s) =
      stop-start tid bound name count use_caller core p create made loop answer e h k j quits in
    let positive : ltb 0 epfd ≡ true = ground arith in
    let r : Reactor = record {
      epfd = epfd;
      tickle_read = ends.0;
      tickle_write = ends.1;
      io = record {
        scheduler = p1.core;
        contexts = fd_context_resize 32 [];
        pending = 0;
        calls = [];
      };
      pool = p1;
    } in
    (
      r,
      rw (e, positive, started) refl,
      start-IsSound p1.core,
      refl,
      rw ran (ap (λ l. ok (l, epfd ∷ ends.0 ∷ ends.1 ∷ [], 32)) s.joined),
    )
