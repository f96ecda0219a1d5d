-- ===== src/IoManager/Wakeup.antt =====
-- How a thread that waits in epoll_wait is woken (tw/iomanager.cc): the pipe, and the timeout.
use tw_server.Base.{
  ℕ, ◌+◌, ◌%◌, ◌^◌, ◌≤◌, ◌<◌, ◌≡◌, refl, Bool, true, false, ◌&&◌, List, [], ◌∷◌, ◌++◌, Option, none,
  some, if◌then◌else◌, ltb, ◌==◌, Outcome, ok, Fault, guard, ◌>>=◌, ◌>>◌, Bool-cases, ◌⊎◌, ◌||◌,
  inl, inr, arith,
}
use tw_server.Fiber.{has}
use tw_server.Scheduler.{Scheduler, Task, schedule, schedule_all, is_empty}
use tw_server.Timer.{TimerManager, add_timer, no_timeout}

-- The scheduler with the bytes in the pipe that no thread has read.
pub record Waker : Type 0 where
  pub core : Scheduler
  pub pipe : ℕ

-- `tickle`: `written` is whether the write to the pipe succeeds.
unfoldable pub tickle : Bool → Waker → Outcome Waker
tickle written w =
    if ltb 0 w.core.idle
    then ok w
    else guard written Fault.assertion >> ok (record w { pipe = w.pipe + 1 })

abbrev pub tickle_if : Bool → Bool → Waker → Outcome Waker
tickle_if true written w = tickle written w
tickle_if false written w = ok w

-- `schedule(f)` and `schedule(begin, end)`, whose `tickle` is that of the IO manager.
unfoldable pub schedule_waking : Bool → Task → Waker → Outcome Waker
unfolding schedule tickle
schedule_waking written t w =
    let r : Scheduler × Bool = schedule t w.core in
    tickle_if (r.1) written (record w { core = r.0 })

unfoldable pub schedule_all_waking : Bool → List Task → Waker → Outcome Waker
unfolding schedule_all tickle
schedule_all_waking written l w =
    let r : Scheduler × Bool = schedule_all l w.core in
    tickle_if (r.1) written (record w { core = r.0 })

-- `addTimer`, whose `addTimerFront` is that of the IO manager.
unfoldable pub add_timer_waking :
    Bool → ℕ → ℕ → ℕ → Option ℕ → Bool → TimerManager → Waker → Outcome (TimerManager × Waker)
unfolding add_timer tickle
add_timer_waking written now p ms cb recurring m w =
    let r : TimerManager × Bool = add_timer now p ms cb recurring m in
    tickle_if (r.1) written w >>= λ w'. ok (r.0, w')

-- `while(read(m_tickleFds[0], &buf, 1) == 1);`
unfoldable pub drain_pipe : Waker → Waker
drain_pipe w = record w { pipe = 0 }

-- `(int)nexttime`, of which `none` is negative.
abbrev pub as_int : ℕ → Option ℕ
as_int n = if ltb (n % 2 ^ 32) (2 ^ 31) then some (n % 2 ^ 32) else none

abbrev pub limited : Option ℕ → Option ℕ
limited none = none
limited (some n) = some (if ltb 3000 n then 3000 else n)

-- The timeout of epoll_wait; `none` is negative, which waits without an end.
unfoldable pub wait_time : ℕ → Option ℕ
wait_time nexttime = if nexttime == no_timeout then some 3000 else limited (as_int nexttime)

-- When epoll_wait returns with nothing but the pipe and the timeout: `some 0` is at once.
unfoldable pub returns_after : ℕ → Waker → Option ℕ
unfolding wait_time
returns_after nexttime w = if ltb 0 w.pipe then some 0 else wait_time nexttime

abbrev one_if : Bool → ℕ
one_if true = 1
one_if false = 0

tickle_lem :
    (w : Waker) (b : Bool)
    → tickle_if b true w ≡ ok (record w { pipe = w.pipe + one_if (b && (w.core.idle == 0)) })
unfolding tickle
tickle_lem w b = ground arith

-- A task with something to run is put behind the others, and a byte goes to the pipe exactly where
-- no task waited and no thread is idle.
schedule_waking_lem :
    (t : Task) (w : Waker)
    → (has t.cb || has t.fiber) ≡ true
    → schedule_waking true t w
      ≡ ok (record w {
        core = record w.core { tasks = w.core.tasks ++ t ∷ [] };
        pipe = w.pipe + one_if (is_empty w.core.tasks && (w.core.idle == 0));
      })
unfolding schedule_waking
schedule_waking_lem t w h = rw h (
    tickle_lem (record w { core = record w.core { tasks = w.core.tasks ++ t ∷ [] } })
      (is_empty w.core.tasks))

tickle_idle : (b written : Bool) (w : Waker) → 0 < w.core.idle → tickle_if b written w ≡ ok w
unfolding tickle
tickle_idle b written w h = ground arith

schedule_idle : (t : Task) (s : Scheduler) → (schedule t s).0.idle ≡ s.idle
unfolding schedule
schedule_idle t s = ground arith

-- A next timer less than 2^31 ms away, or none, makes epoll_wait return within three seconds and
-- not after that timer is due.
pub wait_time_bounds :
    (nexttime : ℕ)
    → (nexttime < 2 ^ 31) ⊎ (nexttime ≡ no_timeout)
    → (n : ℕ) × (wait_time nexttime ≡ some n) × (n ≤ 3000) × (n ≤ nexttime)
unfolding wait_time
wait_time_bounds nexttime (inl h) = elim (Bool-cases (ltb 3000 nexttime)) [
  | inl e ↦
      let own : nexttime % 2 ^ 32 ≡ nexttime = omega arith in
      let a : (nexttime == no_timeout) ≡ false = ground arith in
      let b : ltb nexttime (2 ^ 31) ≡ true = ground arith in
      (3000, rw (a, own, b, e) refl, omega arith, ground (arith, e))
  | inr e ↦
      let own : nexttime % 2 ^ 32 ≡ nexttime = omega arith in
      let a : (nexttime == no_timeout) ≡ false = ground arith in
      let b : ltb nexttime (2 ^ 31) ≡ true = ground arith in
      (nexttime, rw (a, own, b, e) refl, ground (arith, e), omega arith)
]
wait_time_bounds nexttime (inr e) = (3000, rw e refl, omega arith, omega arith)

-- A timer that is due between 2^31 and 2^32 ms from now makes epoll_wait wait without an end.
wait_time_endless :
    (nexttime : ℕ) → 2 ^ 31 ≤ nexttime → nexttime < 2 ^ 32 → wait_time nexttime ≡ none
unfolding wait_time
wait_time_endless nexttime lo hi = ground arith
