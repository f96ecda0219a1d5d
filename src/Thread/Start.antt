-- ===== src/Thread/Start.antt =====
-- How a thread is started (tw/thread.cc): the constructor waits on the semaphore until the new
-- thread has taken what it needs out of the object. Each statement is a step of its thread, and the
-- two threads take their steps in any order.
pub mod Invariant
pub mod Handshake
use tw_server.Base.{
  ℕ, zero, suc, ◌+◌, ◌-◌, ◌≤◌, ◌<◌, ◌≡◌, ◌≢◌, ◌⊎◌, inl, inr, refl, ap, sym, ◌∙◌, Bool, true, false,
  List, [], ◌∷◌, ◌++◌, take, length, Option, none, some, min, ltb, if◌then◌else◌, length-take,
  arith, codes, replicate, Bool-cases,
}

-- Where the caller of `Thread::Thread` is.
pub data Creator : Type 0 where
  entered : Creator
  waiting : Creator
  returned : Creator
  threw : Creator

-- Where `Thread::run` is.
pub data Runner : Type 0 where
  absent : Runner
  started : Runner
  named : Runner
  identified : Runner
  titled : Runner
  swapped : Runner
  notified : Runner
  finished : Runner

-- The object, its semaphore, and what the new thread holds: t_thread_name, its callback, and the
-- name that the kernel shows.
pub record NewThread : Type 0 where
  pub creator : Creator
  pub runner : Runner
  pub name : List ℕ
  pub id : Option ℕ
  pub cb : Option ℕ
  pub sem : ℕ
  pub thread_name : List ℕ
  pub kernel_name : List ℕ
  pub local_cb : Option ℕ
  pub ran : List ℕ

abbrev pub unknow : List ℕ
unknow = codes "UNKNOW"

abbrev pub or_unknow : List ℕ → List ℕ
or_unknow [] = unknow
or_unknow (c ∷ cs) = c ∷ cs

-- The constructor up to pthread_create.
unfoldable pub construct : ℕ → List ℕ → NewThread
construct cb name = record {
  creator = entered;
  runner = absent;
  name = or_unknow name;
  id = none;
  cb = some cb;
  sem = 0;
  thread_name = [];
  kernel_name = [];
  local_cb = none;
  ran = [];
}

-- `Semaphore::wait` and the return, where the count allows it.
abbrev pub take_sem : ℕ → NewThread → NewThread
take_sem zero t = t
take_sem (suc n) t = record t { sem = n; creator = returned }

-- A step of the caller: `created` says whether pthread_create starts a thread.
unfoldable pub creator_step : Bool → Creator → NewThread → NewThread
creator_step created entered t =
    if created
    then record t { creator = waiting; runner = started }
    else record t { creator = threw }
creator_step created waiting t = take_sem t.sem t
creator_step created returned t = t
creator_step created threw t = t

-- `Semaphore::wait` throws where sem_wait fails; elsewhere the caller goes on.
unfoldable pub interrupt_step : Creator → NewThread → NewThread
interrupt_step entered t = t
interrupt_step waiting t = record t { creator = threw }
interrupt_step returned t = t
interrupt_step threw t = t

abbrev pub call : Option ℕ → NewThread → NewThread
call none t = t
call (some cb) t = record t { ran = cb ∷ t.ran }

-- A step of the new thread, whose kernel id is `tid`.
unfoldable pub runner_step : ℕ → Runner → NewThread → NewThread
runner_step tid absent t = t
runner_step tid started t = record t { runner = named; thread_name = t.name }
runner_step tid named t = record t { runner = identified; id = some tid }
runner_step tid identified t = record t { runner = titled; kernel_name = take 15 t.name }
runner_step tid titled t = record t { runner = swapped; local_cb = t.cb; cb = none }
runner_step tid swapped t = record t { runner = notified; sem = t.sem + 1 }
runner_step tid notified t = call t.local_cb (record t { runner = finished })
runner_step tid finished t = t

-- `interrupted` is a step of the caller in which sem_wait fails.
pub data Who : Type 0 where
  caller : Who
  interrupted : Who
  thread : Who

unfoldable pub run : Bool → ℕ → List Who → NewThread → NewThread
unfolding creator_step interrupt_step runner_step
run created tid [] t = t
run created tid (caller ∷ w) t = run created tid w (creator_step created t.creator t)
run created tid (interrupted ∷ w) t = run created tid w (interrupt_step t.creator t)
run created tid (thread ∷ w) t = run created tid w (runner_step tid t.runner t)
