-- ===== src/Timer/Resetting.antt =====
-- `reset` (tw/timer.cc).
use tw_server.Base.{ℕ, ◌≡◌, refl, true, if◌then◌else◌, ◌==◌, ◌∙◌, Bool, Bool-cases, inl, inr, arith}
use tw_server.Timer.{TimerManager, reset, new_start, add, has_cb}
use tw_server.Timer.Order.{mem}
use tw_server.Timer.Invariant.{IsValid}
use tw_server.Timer.Operations.{found, mem-replace, replaced-IsValid}

-- `reset` succeeds exactly where the timer has a callback. It keeps the members of the set and
-- their order, gives the timer the new period, and moves it by that period from now or from its
-- last start; without a callback the timer stays as it is.
reset_lem :
    (now p ms : ℕ) (from_now : Bool) (m : TimerManager)
    → IsValid m
    → let t = m.heap p in
      let m' = (reset now p ms from_now m).0 in
      ((reset now p ms from_now m).1 ≡ has_cb t.cb)
      × IsValid m'
      × ((q : ℕ) → mem q m'.timers ≡ mem q m.timers)
      × ((m'.heap p).ms ≡ (if has_cb t.cb then ms else t.ms))
      × ((m'.heap p).next ≡ (if has_cb t.cb then new_start now t ms from_now else t.next))
unfolding reset add
reset_lem now p ms from_now m v = elim (Bool-cases (has_cb (m.heap p).cb)) [
  | inl e ↦
      rw (e, found m p v e)
        (
          refl,
          replaced-IsValid m p _ _ v e refl,
          λ q. mem-replace m p q _ v (v.armed p ∙ e),
          rw (self p),
          rw (self p),
        )
  | inr e ↦ rw e (refl, v, λ q. refl, refl, refl)
]
  where
    self : (p : ℕ) → (p == p) ≡ true
    self p = ground arith
