-- ===== src/Scheduler/Lifecycle.antt =====
-- The construction, `start` and `stop` of a scheduler (tw/scheduler.cc). What pthread_create and
-- pthread_join answer, and what the caller's fiber does while `stop` calls it, are arguments.
pub mod Joining
pub mod Stopping
mod Examples
use tw_server.Base.{
  ℕ, zero, suc, ◌+◌, ◌-◌, Bool, true, false, not, ◌&&◌, ◌||◌, List, [], ◌∷◌, ◌++◌, Option, none,
  some, if◌then◌else◌, ◌==◌, ltb, Outcome, ok, fail, Fault, guard, ◌>>=◌, ◌>>◌,
}
use tw_server.Fiber.{State, init_state, term, is_init, is_term, has, new_fiber}
use tw_server.Http.Message.{to_decimal}
use tw_server.Scheduler.{Scheduler, Running, Round, again, quit, update, stopping}
use tw_server.Scheduler.Draining.{rounds}

-- A Thread of m_threads: its m_thread, of which 0 is none, and its name.
pub record Worker : Type 0 where
  pub handle : ℕ
  pub name : List ℕ

-- A scheduler with its threads; `schedule_fiber` is the state of m_scheduleFiber.
pub record Pool : Type 0 where
  pub core : Scheduler
  pub name : List ℕ
  pub thread_count : ℕ
  pub threads : List Worker
  pub thread_ids : List ℕ
  pub main_thread : ℕ
  pub schedule_fiber : Option State

-- The constructor on the thread `tid`, where `bound` says that t_scheduler is set.
unfoldable pub construct : ℕ → Bool → List ℕ → ℕ → Bool → Scheduler → Outcome Pool
construct tid bound name count use_caller core =
    guard (ltb 0 count) Fault.assertion
    >> (if use_caller
        then (guard (not bound) Fault.assertion
            >> ok (record {
              core = core;
              name = name;
              thread_count = count - 1;
              threads = [];
              thread_ids = tid ∷ [];
              main_thread = tid;
              schedule_fiber = some init_state;
            }))
        else ok (record {
          core = core;
          name = name;
          thread_count = count;
          threads = [];
          thread_ids = [];
          main_thread = 0;
          schedule_fiber = none;
        }))

abbrev pub no_threads : List Worker → Bool
no_threads [] = true
no_threads (w ∷ ws) = false

abbrev pub worker_name : List ℕ → ℕ → List ℕ
worker_name name i = name ++ (95 ∷ to_decimal i)

abbrev pub with_thread : Pool → ℕ → ℕ × ℕ → Pool
with_thread p i r = record p {
  threads = p.threads ++ record { handle = r.0; name = worker_name p.name i } ∷ [];
  thread_ids = p.thread_ids ++ r.1 ∷ [];
}

-- The loop of `start`. `create` gives the handle and the id of each new thread, or `none` where
-- pthread_create fails, which throws.
unfoldable pub start_loop : (ℕ → Option (ℕ × ℕ)) → ℕ → ℕ → Pool → Outcome Pool
start_loop create zero i p = ok p
start_loop create (suc left) i p = elim (create i) [
  | none ↦ fail Fault.logic_error
  | some r ↦ start_loop create left (i + 1) (with_thread p i r)
]

unfoldable pub start : (ℕ → Option (ℕ × ℕ)) → Pool → Outcome Pool
unfolding start_loop
start create p =
    guard (no_threads p.threads) Fault.assertion >> start_loop create p.thread_count 0 p

-- `Thread::join`: pthread_join of no thread is undefined, and a failure throws.
unfoldable pub join : (ℕ → Bool) → Worker → Outcome Worker
join answer w =
    if w.handle == 0
    then fail Fault.null_deref
    else if answer w.handle
    then ok (record w { handle = 0 })
    else fail Fault.logic_error

-- `Thread::~Thread`: whether the thread is detached.
unfoldable pub destroy_thread : Worker → Bool
destroy_thread w = not (w.handle == 0)

-- The handles that are joined, in order; the objects are destroyed when the vector goes.
unfoldable pub join_all : (ℕ → Bool) → List Worker → Outcome (List ℕ × List Worker)
unfolding join
join_all answer [] = ok ([], [])
join_all answer (w ∷ ws) = do
  w' ← join answer w
  r ← join_all answer ws
  ok (w.handle ∷ r.0, w' ∷ r.1)

abbrev pub at_rest : Option State → Bool
at_rest none = false
at_rest (some s) = is_init s || is_term s

-- `m_scheduleFiber->call()`: the caller's thread runs the loop until it quits.
unfoldable pub call_main : (Scheduler → Outcome Scheduler) → Option State → Pool → Outcome Pool
call_main loop none p = fail Fault.null_deref
call_main loop (some s) p =
    loop p.core >>= λ core. ok (record p { core = core; schedule_fiber = some term })

abbrev pub set_stopping : Pool → Pool
set_stopping p = record p { core = record p.core { is_stopping = true } }

-- `stop` with the virtual `stopping`: the scheduler afterwards, with the handles that were joined
-- and the threads that were.
unfoldable pub stop_with :
    (Scheduler → Bool)
    → (Scheduler → Outcome Scheduler)
    → (ℕ → Bool)
    → Pool
    → Outcome (Pool × List ℕ × List Worker)
unfolding call_main join_all
stop_with is_stopping loop answer p =
    let p1 = record p { core = record p.core { autostop = true } } in
    let p2 = set_stopping p1 in
    if has p1.schedule_fiber
      && (p1.thread_count == 0)
      && at_rest p1.schedule_fiber
      && is_stopping p2.core
    then ok (p2, [], [])
    else (do
      p3 ←
          if not (p2.main_thread == 0) && not (is_stopping p2.core)
          then call_main loop p2.schedule_fiber p2
          else ok p2
      r ← join_all answer p3.threads
      ok (record p3 { threads = [] }, r.0, r.1))

-- `stop` of a Scheduler that is no IOManager.
unfoldable pub stop :
    (Scheduler → Outcome Scheduler) → (ℕ → Bool) → Pool → Outcome (Pool × List ℕ × List Worker)
unfolding stop_with stopping
stop loop answer p = stop_with stopping loop answer p

-- The whole of `run` on the caller's thread: a new idle fiber, and rounds until the loop quits. The
-- rounds are as many as there are addresses; that they ran out counts as a fault.
unfoldable pub run : Running → ℕ → List ℕ → Scheduler → Outcome Scheduler
unfolding rounds new_fiber
run running idle addresses s =
    rounds running idle addresses none
      (record s { fibers = update s.fibers idle (new_fiber (some idle) false 32768) })
    >>= λ r. elim r [ again event s' ↦ fail Fault.stack_overflow | quit s' ↦ ok s' ]
