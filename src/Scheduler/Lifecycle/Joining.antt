-- ===== src/Scheduler/Lifecycle/Joining.antt =====
-- Which threads a scheduler starts and joins (tw/scheduler.cc).
use tw_server.Base.{
  ℕ, zero, suc, ◌+◌, ◌≡◌, refl, ap, sym, ◌∙◌, subst, Bool, true, false, not, ◌&&◌, List, [], ◌∷◌,
  ◌++◌, map, append_assoc, append-nil, Option, none, some, if◌then◌else◌, ◌==◌, length,
  length-append, All, Outcome, ok, Bool-cases, ◌⊎◌, inl, inr, arith,
}
use tw_server.Fiber.{State, term, has}
use tw_server.Scheduler.{Scheduler, stopping}
use tw_server.Scheduler.Lifecycle.{
  stop_with, Worker, Pool, construct, no_threads, worker_name, with_thread, start_loop, start,
  destroy_thread, join_all, at_rest, call_main, set_stopping, stop,
}

module _ (made : ℕ → ℕ × ℕ) (name : List ℕ) where
  -- The threads that are started, from the index `i`.
  abbrev pub workers : ℕ → ℕ → List Worker
  workers zero i = []
  workers (suc left) i =
      record { handle = (made i).0; name = worker_name name i } ∷ workers left (i + 1)

  abbrev pub ids : ℕ → ℕ → List ℕ
  ids zero i = []
  ids (suc left) i = (made i).1 ∷ ids left (i + 1)

  length-workers : (left i : ℕ) → length (workers left i) ≡ left
  length-workers zero i = refl
  length-workers (suc left) i = ap suc (length-workers left (i + 1))

  length-ids : (left i : ℕ) → length (ids left i) ≡ left
  length-ids zero i = refl
  length-ids (suc left) i = ap suc (length-ids left (i + 1))

abbrev started : (ℕ → ℕ × ℕ) → ℕ → ℕ → Pool → Pool
started made left i p = record p {
  threads = p.threads ++ workers made p.name left i;
  thread_ids = p.thread_ids ++ ids made p.name left i;
}

pool_path :
    (p : Pool) (t u : List Worker) (i j : List ℕ)
    → t ≡ u
    → i ≡ j
    → ◌≡◌ {A = Pool}
        (record p { threads = t; thread_ids = i })
        (record p { threads = u; thread_ids = j })
pool_path p t u i j e f = cc

start_loop_lem :
    (create : ℕ → Option (ℕ × ℕ)) (made : ℕ → ℕ × ℕ) (left i : ℕ) (p : Pool)
    → ((i : ℕ) → create i ≡ some (made i))
    → start_loop create left i p ≡ ok (started made left i p)
unfolding start_loop
start_loop_lem create made zero i p h =
    ap ok (pool_path p _ _ _ _ (sym (append-nil p.threads)) (sym (append-nil p.thread_ids)))
start_loop_lem create made (suc left) i p h =
    rw (h i, start_loop)
      (start_loop_lem create made left (i + 1) (with_thread p i (made i)) h
        ∙ ap ok (pool_path p _ _ _ _ (append_assoc p.threads _ _) (append_assoc p.thread_ids _ _)))

abbrev Joinable : (ℕ → Bool) → Worker → Type 0
Joinable answer w = ((w.handle == 0) ≡ false) × (answer w.handle ≡ true)

-- Every thread is joined once, in order, and none is left for its destructor.
join_all_lem :
    (answer : ℕ → Bool) (ws : List Worker)
    → All (Joinable answer) ws
    → (r : List Worker) × (join_all answer ws ≡ ok (map (λ w. w.handle) ws, r))
      × All (λ w. destroy_thread w ≡ false) r
unfolding join_all destroy_thread
join_all_lem answer [] h = ([], refl, tt)
join_all_lem answer (w ∷ ws) h =
    let (r, run, left) = join_all_lem answer ws h.1 in
    (record w { handle = 0 } ∷ r, rw (h.0.0, h.0.1, run) refl, (refl, left))

workers-Joinable :
    (answer : ℕ → Bool) (made : ℕ → ℕ × ℕ) (name : List ℕ) (left i : ℕ)
    → ((i : ℕ) → ((made i).0 == 0) ≡ false)
    → ((i : ℕ) → answer (made i).0 ≡ true)
    → All (Joinable answer) (workers made name left i)
workers-Joinable answer made name zero i h k = tt
workers-Joinable answer made name (suc left) i h k =
    ((h i, k i), workers-Joinable answer made name left (i + 1) h k)

-- What `construct` leaves: a pool of no threads.
pub record IsNew (count : ℕ) (use_caller : Bool) (p : Pool) : Type 0 where
  pub none_yet : p.threads ≡ []
  pub count_lem : p.thread_count + (if use_caller then 1 else 0) ≡ count
  pub caller_lem : (has p.schedule_fiber ≡ true) ⊎ (p.main_thread ≡ 0)
  pub ids_lem : length p.thread_ids ≡ (if use_caller then 1 else 0)

construct-IsNew :
    (tid : ℕ) (bound : Bool) (name : List ℕ) (count : ℕ) (use_caller : Bool) (core : Scheduler)
    (p : Pool)
    → construct tid bound name count use_caller core ≡ ok p
    → IsNew count use_caller p
unfolding construct
construct-IsNew tid bound name count use_caller core p e = ground arith

-- What stop did: it joined the threads that were there.
pub record IsStopped (p p' : Pool) (handles : List ℕ) (ws : List Worker) : Type 0 where
  pub joined : handles ≡ map (λ w. w.handle) p.threads
  pub gone : p'.threads ≡ []
  pub released : All (λ w. destroy_thread w ≡ false) ws

call_main_lem :
    (loop : Scheduler → Outcome Scheduler) (fiber : Option State) (p : Pool)
    → ((q : Scheduler) → (c : Scheduler) × (loop q ≡ ok c))
    → has fiber ≡ true
    → (c : Scheduler) × (call_main loop fiber p
        ≡ ok (record p { core = c; schedule_fiber = some term }))
unfolding call_main
call_main_lem loop none p h e = cc
call_main_lem loop (some s) p h e = let (c, ran) = h p.core in (c, rw ran refl)

-- The pool as `stop` has it when it joins.
abbrev stopped_core : Pool → Pool
stopped_core p = set_stopping (record p { core = record p.core { autostop = true } })

module _ (loop : Scheduler → Outcome Scheduler) (answer : ℕ → Bool) (p : Pool)
    (ends : (q : Scheduler) → (c : Scheduler) × (loop q ≡ ok c))
    (caller : (has p.schedule_fiber ≡ true) ⊎ (p.main_thread ≡ 0))
    (joinable : All (Joinable answer) p.threads) (empty : p.thread_count ≡ 0 → p.threads ≡ []) where
  abbrev Stopped : Type 0
  Stopped =
      (p' : Pool) × (handles : List ℕ) × (ws : List Worker) × (stop loop answer p
        ≡ ok (p', handles, ws))
      × IsStopped p p' handles ws

  abbrev early : Bool
  early =
      has p.schedule_fiber
      && (p.thread_count == 0)
      && at_rest p.schedule_fiber
      && stopping (stopped_core p).core

  abbrev calls : Bool
  calls = not ((stopped_core p).main_thread == 0) && not (stopping (stopped_core p).core)

  stop-IsStopped : Stopped
  unfolding stop stop_with
  stop-IsStopped = elim (Bool-cases early) [
    | inl e ↦
        let gone = empty (ground (arith, e)) in
        (
          stopped_core p,
          [],
          [],
          rw e refl,
          record { joined = rw gone refl; gone = gone; released = tt },
        )
    | inr e ↦
        let (ws, run, left) = join_all_lem answer p.threads joinable in
        elim (Bool-cases calls) [
          | inl c ↦
              let (core, ran) =
                call_main_lem loop p.schedule_fiber (stopped_core p) ends
                  (ground (arith, c, caller)) in
              (
                record (stopped_core p) { core = core; schedule_fiber = some term; threads = [] },
                _,
                ws,
                rw (e, c, ran, run) refl,
                record { joined = refl; gone = refl; released = left },
              )
          | inr c ↦ (
            record (stopped_core p) { threads = [] },
            _,
            ws,
            rw (e, c, run) refl,
            record { joined = refl; gone = refl; released = left },
          )
        ]
  ]

started-empty :
    (made : ℕ → ℕ × ℕ) (left i : ℕ) (p : Pool)
    → p.threads ≡ []
    → left ≡ 0
    → (started made left i p).threads ≡ []
started-empty made zero i p e h = ap (λ t. t ++ []) e
started-empty made (suc left) i p e h = absurd (omega arith)

-- Where the constructor succeeds, pthread_create and pthread_join succeed with threads that are not
-- 0, and the loop that the caller runs quits: start succeeds, the threads with the caller are as
-- many as were asked for, and as many ids are known; and stop joins each thread once, in the order
-- of their start, keeps none, and leaves none to be detached.
pub stop-start :
    (tid : ℕ) (bound : Bool) (name : List ℕ) (count : ℕ) (use_caller : Bool) (core : Scheduler)
    (p : Pool) (create : ℕ → Option (ℕ × ℕ)) (made : ℕ → ℕ × ℕ)
    (loop : Scheduler → Outcome Scheduler) (answer : ℕ → Bool)
    → construct tid bound name count use_caller core ≡ ok p
    → ((i : ℕ) → create i ≡ some (made i))
    → ((i : ℕ) → ((made i).0 == 0) ≡ false)
    → ((i : ℕ) → answer (made i).0 ≡ true)
    → ((q : Scheduler) → (c : Scheduler) × (loop q ≡ ok c))
    → (p1 : Pool) × (p2 : Pool) × (handles : List ℕ) × (ws : List Worker) × (start create p ≡ ok p1)
      × (length p1.threads + (if use_caller then 1 else 0) ≡ count)
      × (length p1.thread_ids ≡ count)
      × (stop loop answer p1 ≡ ok (p2, handles, ws))
      × IsStopped p1 p2 handles ws
unfolding start
stop-start tid bound name count use_caller core p create made loop answer e h k j ends =
    let n = construct-IsNew tid bound name count use_caller core p e in
    let p1 = started made p.thread_count 0 p in
    let list : p1.threads ≡ workers made p.name p.thread_count 0 =
      ap (λ t. t ++ workers made p.name p.thread_count 0) n.none_yet in
    let (p2, handles, ws, ran, s) =
      stop-IsStopped loop answer p1 ends n.caller_lem
        (subst (All (Joinable answer)) (sym list)
          (workers-Joinable answer made p.name p.thread_count 0 k j))
        (started-empty made p.thread_count 0 p n.none_yet) in
    (
      p1,
      p2,
      handles,
      ws,
      rw (ap no_threads n.none_yet) (start_loop_lem create made p.thread_count 0 p h),
      omega (arith, ap length list, length-workers made p.name p.thread_count 0, n.count_lem),
      omega (
        arith,
        length-append p.thread_ids (ids made p.name p.thread_count 0),
        length-ids made p.name p.thread_count 0,
        n.count_lem,
        n.ids_lem,
      ),
      ran,
      s,
    )
