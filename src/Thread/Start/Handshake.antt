-- ===== src/Thread/Start/Handshake.antt =====
-- What the constructor of Thread gives when it returns, and that it does (tw/thread.cc).
use tw_server.Base.{
  ℕ, zero, suc, ◌≤◌, ◌<◌, ◌≡◌, ◌≢◌, ◌⊎◌, inl, inr, refl, ap, sym, ◌∙◌, Bool, true, List, [], ◌∷◌,
  ◌++◌, take, length, Option, none, some, ltb, length-take, arith, replicate, Bool-cases,
}
use tw_server.Thread.Start.{
  Creator, entered, waiting, returned, threw, Runner, notified, finished, NewThread, or_unknow,
  construct, take_sem, creator_step, call, runner_step, interrupt_step, Who, caller, interrupted,
  thread, run,
}
use tw_server.Thread.Start.Invariant.{
  stage, IsStarting, construct-IsStarting, creator_step-IsStarting, run-IsStarting, runner_stages,
}

new_ok : (cb : ℕ) (name : List ℕ) → (construct cb name).creator ≢ threw
unfolding construct
new_ok cb name = λ e. cc

-- The two threads one behind the other.
run-append :
    (created : Bool) (tid : ℕ) (w w' : List Who) (t : NewThread)
    → run created tid (w ++ w') t ≡ run created tid w' (run created tid w t)
unfolding run
run-append created tid [] w' t = refl
run-append created tid (caller ∷ w) w' t =
    run-append created tid w w' (creator_step created t.creator t)
run-append created tid (interrupted ∷ w) w' t =
    run-append created tid w w' (interrupt_step t.creator t)
run-append created tid (thread ∷ w) w' t = run-append created tid w w' (runner_step tid t.runner t)

-- In every order of steps, when the constructor has returned the object has the kernel's id of the
-- new thread, its callback is with the new thread and was called at most once, and the kernel shows
-- at most fifteen characters of the name, which is UNKNOW for an empty one.
pub construct_returned :
    (created : Bool) (cb tid : ℕ) (name : List ℕ) (w : List Who)
    → (run created tid w (construct cb name)).creator ≡ returned
    → let t = run created tid w (construct cb name) in
      (t.id ≡ some tid)
      × (t.cb ≡ none)
      × (t.local_cb ≡ some cb)
      × (t.name ≡ or_unknow name)
      × (t.kernel_name ≡ take 15 (or_unknow name))
      × (length t.kernel_name ≤ 15)
      × ((t.ran ≡ []) ⊎ (t.ran ≡ cb ∷ []))
construct_returned created cb tid name w e =
    let t = run created tid w (construct cb name) in
    let h =
      run-IsStarting created cb tid (or_unknow name) w (construct cb name)
        (construct-IsStarting cb tid name) in
    let far = h.returns e in
    let (gone, here) = h.cb_after (omega arith) in
    let title = h.titled_lem (omega arith) in
    (
      h.id_lem (omega arith),
      gone,
      here,
      h.name_same,
      title,
      omega (arith, ap length title, length-take 15 (or_unknow name)),
      ran_once t h,
    )
  where
    ran_once :
        (t : NewThread) → IsStarting cb tid (or_unknow name) t → (t.ran ≡ []) ⊎ (t.ran ≡ cb ∷ [])
    ran_once t h = elim (Bool-cases (ltb 6 (stage t.runner))) [
      | inl late ↦ inr (h.ran_after (ground (arith, late)))
      | inr early ↦ inl (h.ran_before (ground (arith, early)))
    ]

abbrev pub settling : List Who
settling = caller ∷ (replicate 6 thread ++ caller ∷ [])

caller_returns :
    (tid : ℕ) (t : NewThread)
    → (t.creator ≡ returned) ⊎ ((t.creator ≡ waiting) × (0 < t.sem))
    → (run true tid (caller ∷ []) t).creator ≡ returned
unfolding run creator_step
caller_returns tid t (inl e) = ap (λ c. (creator_step true c t).creator) e ∙ e
caller_returns tid t (inr h) = taken t.sem refl
  where
    taken : (n : ℕ) → t.sem ≡ n → (creator_step true t.creator t).creator ≡ returned
    taken zero e = absurd (omega (arith, h.1))
    taken (suc n) e = rw (h.0, e) refl

-- pthread_create succeeds.
creator_goes_on :
    (t : NewThread)
    → t.creator ≢ threw
    → ((creator_step true t.creator t).creator ≡ waiting)
      ⊎ ((creator_step true t.creator t).creator ≡ returned)
unfolding creator_step
creator_goes_on t h = by_place t.creator refl
  where
    kept :
        (n : ℕ)
        → t.creator ≡ waiting
        → ((take_sem n t).creator ≡ waiting) ⊎ ((take_sem n t).creator ≡ returned)
    kept zero e = inl e
    kept (suc n) e = inr refl

    by_place :
        (c : Creator)
        → t.creator ≡ c
        → ((creator_step true c t).creator ≡ waiting) ⊎ ((creator_step true c t).creator ≡ returned)
    by_place entered e = inl refl
    by_place waiting e = kept t.sem e
    by_place returned e = inr e
    by_place threw e = absurd (h e)

runner_keeps : (tid : ℕ) (r : Runner) (t : NewThread) → (runner_step tid r t).creator ≡ t.creator
unfolding runner_step
runner_keeps tid notified t = called t.local_cb
  where
    called : (o : Option ℕ) → (call o (record t { runner = finished })).creator ≡ t.creator
    called none = refl
    called (some c) = refl
runner_keeps tid finished t = refl
runner_keeps tid r t = refl

-- No call of sem_wait fails.
abbrev pub Undisturbed : List Who → Type 0
Undisturbed [] = Unit
Undisturbed (caller ∷ w) = Undisturbed w
Undisturbed (interrupted ∷ w) = ⊥
Undisturbed (thread ∷ w) = Undisturbed w

never_threw :
    (tid : ℕ) (w : List Who) (t : NewThread)
    → Undisturbed w
    → t.creator ≢ threw
    → (run true tid w t).creator ≢ threw
unfolding run
never_threw tid [] t u h = h
never_threw tid (caller ∷ w) t u h =
    never_threw tid w (creator_step true t.creator t) u (goes (creator_goes_on t h))
  where
    goes :
        ((creator_step true t.creator t).creator ≡ waiting)
          ⊎ ((creator_step true t.creator t).creator ≡ returned)
        → (creator_step true t.creator t).creator ≢ threw
    goes (inl e) = λ x. cc
    goes (inr e) = λ x. cc
never_threw tid (interrupted ∷ w) t u h = absurd u
never_threw tid (thread ∷ w) t u h =
    never_threw tid w (runner_step tid t.runner t) u
      (λ e. h (sym (runner_keeps tid t.runner t) ∙ e))

settles :
    (cb tid : ℕ) (name : List ℕ) (t : NewThread)
    → IsStarting cb tid name t
    → (t.creator ≡ waiting) ⊎ (t.creator ≡ returned)
    → (run true tid (replicate 6 thread ++ caller ∷ []) t).creator ≡ returned
settles cb tid name t h at =
    let w = replicate 6 thread in
    let t' = run true tid w t in
    let (same, far) = runner_stages true cb tid name 6 t (begun at) in
    let h' = run-IsStarting true cb tid name w t h in
    ap (λ r. r.creator) (run-append true tid w (caller ∷ []) t)
    ∙ caller_returns tid t' (now at same (omega arith) h')
  where
    begun : (t.creator ≡ waiting) ⊎ (t.creator ≡ returned) → 1 ≤ stage t.runner
    begun (inl e) = h.running e
    begun (inr e) = omega (arith, h.returns e)

    now :
        (t.creator ≡ waiting) ⊎ (t.creator ≡ returned)
        → (run true tid (replicate 6 thread) t).creator ≡ t.creator
        → 6 ≤ stage (run true tid (replicate 6 thread) t).runner
        → IsStarting cb tid name (run true tid (replicate 6 thread) t)
        → ((run true tid (replicate 6 thread) t).creator ≡ returned)
          ⊎ (((run true tid (replicate 6 thread) t).creator ≡ waiting)
              × (0 < (run true tid (replicate 6 thread) t).sem))
    now (inl e) same far h' = inr (same ∙ e, h'.posted (same ∙ e) far)
    now (inr e) same far h' = inl (same ∙ e)

-- Where pthread_create succeeds and no call of sem_wait fails the constructor returns: whatever
-- steps the two threads have taken, one more of the caller, six of the new thread and one of the
-- caller bring it there.
pub construct_returns :
    (cb tid : ℕ) (name : List ℕ) (w : List Who)
    → Undisturbed w
    → (run true tid (w ++ settling) (construct cb name)).creator ≡ returned
unfolding run
construct_returns cb tid name w u =
    let t = run true tid w (construct cb name) in
    let h =
      run-IsStarting true cb tid (or_unknow name) w (construct cb name)
        (construct-IsStarting cb tid name) in
    let ok = never_threw tid w (construct cb name) u (new_ok cb name) in
    ap (λ r. r.creator) (run-append true tid w settling (construct cb name))
    ∙ settles cb tid (or_unknow name) (creator_step true t.creator t)
        (creator_step-IsStarting true cb tid (or_unknow name) t.creator t refl h)
        (creator_goes_on t ok)
