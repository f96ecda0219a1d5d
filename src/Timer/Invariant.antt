-- ===== src/Timer/Invariant.antt =====
-- The timers in the manager's set are those that still have a callback (tw/timer.cc).
use tw_server.Base.{ℕ, ◌≡◌}
use tw_server.Timer.{TimerManager, has_cb}
use tw_server.Timer.Order.{Sorted, mem}

pub record IsValid (m : TimerManager) : Type 0 where
  pub sorted : Sorted m.heap m.timers
  pub armed : (p : ℕ) → mem p m.timers ≡ has_cb (m.heap p).cb
