-- ===== src/Timer/Firing.antt =====
-- The loop of `listExpiredCb` over the expired timers (tw/timer.cc).
use tw_server.Base.{ℕ, ◌+◌, ◌≡◌, Bool, true, false, ◌||◌, List, [], ◌∷◌, Option}
use tw_server.Timer.{Timer, TimerManager, has_cb, wrap64}
use tw_server.Timer.Order.{Sorted, mem}

-- Between the rounds of the loop: `pending` are the expired timers that are still to come.
pub record Firing (pending : List ℕ) (m : TimerManager) : Type 0 where
  pub sorted : Sorted m.heap m.timers
  pub armed : (p : ℕ) → has_cb (m.heap p).cb ≡ (mem p pending || mem p m.timers)
  pub apart : (p : ℕ) → mem p pending ≡ true → mem p m.timers ≡ false

abbrev pub Distinct : List ℕ → Type 0
Distinct [] = Unit {0}
Distinct (p ∷ l) = (mem p l ≡ false) × Distinct l

abbrev again : ℕ → ℕ → Timer → Timer
again now p t = record t { next = wrap64 (now + t.ms) }

abbrev pub callbacks : (ℕ → Timer) → List ℕ → List (Option ℕ)
callbacks h [] = []
callbacks h (p ∷ l) = (h p).cb ∷ callbacks h l
