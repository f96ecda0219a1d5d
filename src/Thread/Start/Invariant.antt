-- ===== src/Thread/Start/Invariant.antt =====
-- What has happened at each stage of the start of a thread (tw/thread.cc).
use tw_server.Base.{
  ℕ, zero, suc, ◌+◌, ◌≤◌, ◌<◌, ◌≡◌, ◌⊎◌, refl, ◌∙◌, Bool, List, [], ◌∷◌, take, Option, none, some,
  min, arith, replicate,
}
use tw_server.Thread.Start.{
  Creator, entered, waiting, returned, threw, Runner, absent, started, named, identified, titled,
  swapped, notified, finished, NewThread, or_unknow, construct, take_sem, creator_step, call,
  runner_step, interrupt_step, Who, caller, interrupted, thread, run,
}

-- How far the new thread is.
abbrev pub stage : Runner → ℕ
stage absent = 0
stage started = 1
stage named = 2
stage identified = 3
stage titled = 4
stage swapped = 5
stage notified = 6
stage finished = 7

-- What has happened by a stage.
pub record IsStarting (cb tid : ℕ) (name : List ℕ) (t : NewThread) : Type 0 where
  pub name_same : t.name ≡ name
  pub present : t.creator ≡ entered → t.runner ≡ absent
  pub running : t.creator ≡ waiting → 1 ≤ stage t.runner
  pub posted : t.creator ≡ waiting → 6 ≤ stage t.runner → 0 < t.sem
  pub signal : (t.sem ≡ 0) ⊎ (6 ≤ stage t.runner)
  pub returns : t.creator ≡ returned → 6 ≤ stage t.runner
  pub id_lem : 3 ≤ stage t.runner → t.id ≡ some tid
  pub titled_lem : 4 ≤ stage t.runner → t.kernel_name ≡ take 15 name
  pub cb_before : stage t.runner ≤ 4 → t.cb ≡ some cb
  pub cb_after : 5 ≤ stage t.runner → (t.cb ≡ none) × (t.local_cb ≡ some cb)
  pub ran_before : stage t.runner ≤ 6 → t.ran ≡ []
  pub ran_after : 7 ≤ stage t.runner → t.ran ≡ cb ∷ []

pub construct-IsStarting :
    (cb tid : ℕ) (name : List ℕ) → IsStarting cb tid (or_unknow name) (construct cb name)
unfolding construct
construct-IsStarting cb tid name = ground arith

module _ (created : Bool) (cb tid : ℕ) (name : List ℕ) where
  take_sem-IsStarting :
      (n : ℕ) (t : NewThread)
      → t.sem ≡ n
      → IsStarting cb tid name t
      → IsStarting cb tid name (take_sem n t)
  take_sem-IsStarting zero t e h = h
  take_sem-IsStarting (suc n) t e h = grind arith

  pub creator_step-IsStarting :
      (c : Creator) (t : NewThread)
      → t.creator ≡ c
      → IsStarting cb tid name t
      → IsStarting cb tid name (creator_step created c t)
  unfolding creator_step
  creator_step-IsStarting entered t e h = grind (arith, h.present e)
  creator_step-IsStarting waiting t e h = take_sem-IsStarting t.sem t refl h
  creator_step-IsStarting returned t e h = h
  creator_step-IsStarting threw t e h = h

  interrupt_step-IsStarting :
      (c : Creator) (t : NewThread)
      → t.creator ≡ c
      → IsStarting cb tid name t
      → IsStarting cb tid name (interrupt_step c t)
  unfolding interrupt_step
  interrupt_step-IsStarting entered t e h = h
  interrupt_step-IsStarting waiting t e h = grind arith
  interrupt_step-IsStarting returned t e h = h
  interrupt_step-IsStarting threw t e h = h

  runner_step-IsStarting :
      (r : Runner) (t : NewThread)
      → t.runner ≡ r
      → IsStarting cb tid name t
      → IsStarting cb tid name (runner_step tid r t)
  unfolding runner_step
  runner_step-IsStarting absent t e h = h
  runner_step-IsStarting started t e h = grind arith
  runner_step-IsStarting finished t e h = h
  runner_step-IsStarting r t e h = grind arith

  pub run-IsStarting :
      (w : List Who) (t : NewThread)
      → IsStarting cb tid name t
      → IsStarting cb tid name (run created tid w t)
  unfolding run
  run-IsStarting [] t h = h
  run-IsStarting (caller ∷ w) t h =
      run-IsStarting w (creator_step created t.creator t)
        (creator_step-IsStarting t.creator t refl h)
  run-IsStarting (interrupted ∷ w) t h =
      run-IsStarting w (interrupt_step t.creator t) (interrupt_step-IsStarting t.creator t refl h)
  run-IsStarting (thread ∷ w) t h =
      run-IsStarting w (runner_step tid t.runner t) (runner_step-IsStarting t.runner t refl h)

  -- Steps of the new thread alone.
  runner_stage :
      (r : Runner) (t : NewThread)
      → t.runner ≡ r
      → 1 ≤ stage t.runner
      → ((runner_step tid r t).creator ≡ t.creator)
        × (min 6 (stage t.runner + 1) ≤ stage (runner_step tid r t).runner)
  unfolding runner_step
  runner_stage finished t e h = (refl, ground (arith, e))
  runner_stage notified t e h = called t.local_cb
    where
      called :
          (o : Option ℕ)
          → ((call o (record t { runner = finished })).creator ≡ t.creator)
            × (min 6 (stage t.runner + 1) ≤ stage (call o (record t { runner = finished })).runner)
      called none = (refl, ground (arith, e))
      called (some c) = (refl, ground (arith, e))
  runner_stage r t e h = ground (arith, e)

  pub runner_stages :
      (n : ℕ) (t : NewThread)
      → 1 ≤ stage t.runner
      → ((run created tid (replicate n thread) t).creator ≡ t.creator)
        × (min 6 (stage t.runner + n) ≤ stage (run created tid (replicate n thread) t).runner)
  unfolding run
  runner_stages zero t h = (refl, omega arith)
  runner_stages (suc n) t h =
      let (same, on) = runner_stage t.runner t refl h in
      let t' = runner_step tid t.runner t in
      let (same', on') = runner_stages n t' (omega arith) in (same' ∙ same, omega arith)
