-- ===== src/Fiber/Laws.antt =====
-- A fiber's life and the thread's pointers (tw/fiber.cc).
use tw_server.Base.{ℕ, ◌≡◌, refl, Bool, false, Option, none, some, ok, ◌>>=◌}
use tw_server.Fiber.{
  Fiber, Thread, Ending, exec, term, returned, thrown, new_fiber, return_func, run_callback, reset,
  destroy, swap_in, swap_out, call, back, set_state,
}

-- A fiber that its callback has left, also by an exception, is in TERM, so its next `reset` and its
-- destruction pass their assertions, and after that `reset` it is as INIT with the new callback.
-- The callback itself is dropped only where it returned.
return_func-reset :
    (e : Ending) (cb old : Option ℕ) (use_caller : Bool) (size : ℕ)
    → let f = return_func e (set_state exec (new_fiber old use_caller size)) in
      (f.state ≡ term)
      × (reset cb f ≡ ok (new_fiber cb false size))
      × (destroy f ≡ ok tt)
      × (f.cb ≡ elim e [ returned ↦ none | thrown ↦ old ])
unfolding return_func run_callback reset destroy set_state new_fiber
return_func-reset returned cb old use_caller size = (refl, refl, refl, refl)
return_func-reset thrown cb old use_caller size = (refl, refl, refl, refl)

-- From a scheduler fiber, `swapIn` of a fiber and its `swapOut` leave the thread's pointer on the
-- scheduler fiber. With `call` and `back` it stays on the fiber that was left.
swap_in-swap_out :
    (p s m : ℕ) (f : Fiber)
    → let t : Thread = record { fiber = some s; main = some m; scheduler_fiber = some s } in
      (swap_out ((swap_in p (t, f)).0) ≡ t)
      × ((call p (t, f) >>= λ r. back (r.0)) ≡ ok (record t { fiber = some p }))
unfolding swap_in swap_out call back set_state
swap_in-swap_out p s m f = (refl, refl)
