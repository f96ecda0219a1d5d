-- ===== src/Timer.antt =====
-- tw/timer.h and tw/timer.cc: timers on a heap, and the manager's ordered set of pointers to them.
-- A pointer and a callback are numbers; the time that GetCurrentMS gives is an argument. The locks
-- make each operation one step; the virtual addTimerFront is a Boolean of the result.
pub mod Order
pub mod Invariant
pub mod Operations
pub mod Resetting
pub mod Expiry
pub mod Firing
mod Examples
use tw_server.Base.{
  ℕ, ◌+◌, ◌-◌, ◌%◌, ◌^◌, Bool, true, false, not, ◌&&◌, ◌||◌, List, [], ◌∷◌, ◌++◌, Option, none,
  some, ltb, ◌==◌, leb, if◌then◌else◌, Outcome, ok, fail, Fault,
}

pub record Timer : Type 0 where
  pub recurring : Bool
  pub ms : ℕ
  pub next : ℕ
  pub cb : Option ℕ

pub record TimerManager : Type 0 where
  pub heap : ℕ → Timer
  pub timers : List ℕ
  pub previous_time : ℕ
  pub flag : Bool

abbrev pub wrap64 : ℕ → ℕ
wrap64 x = x % 2 ^ 64

-- Timer::Comparator on pointers that are not null.
unfoldable pub less : (ℕ → Timer) → ℕ → ℕ → Bool
less h l r =
    if ltb (h l).next (h r).next then true else if ltb (h r).next (h l).next then false else ltb l r

abbrev pub update : (ℕ → Timer) → ℕ → Timer → ℕ → Timer
update h p t q = if q == p then t else h q

-- std::set, as its elements in order.
unfoldable pub insert : (ℕ → Timer) → ℕ → List ℕ → List ℕ
insert h p [] = p ∷ []
insert h p (q ∷ l) =
    if less h q p then q ∷ insert h p l else if less h p q then p ∷ q ∷ l else q ∷ l

unfoldable pub find : (ℕ → Timer) → ℕ → List ℕ → Bool
find h p [] = false
find h p (q ∷ l) = if less h q p then find h p l else not (less h p q)

unfoldable pub erase : (ℕ → Timer) → ℕ → List ℕ → List ℕ
erase h p [] = []
erase h p (q ∷ l) = if less h q p then q ∷ erase h p l else l

abbrev pub is_begin : ℕ → List ℕ → Bool
is_begin p [] = false
is_begin p (q ∷ l) = p == q

-- `addTimer(timer, lock)`: whether addTimerFront is called, and the manager after it.
unfoldable pub add : ℕ → TimerManager → TimerManager × Bool
add p m =
    let timers = insert m.heap p m.timers in
    let at_front_flag = is_begin p timers && not m.flag in
    (record m { timers = timers; flag = if at_front_flag then true else m.flag }, at_front_flag)

-- `addTimer(ms, cb, recurring)`, whose function may be empty, with the new timer at the address
-- `p`.
unfoldable pub add_timer : ℕ → ℕ → ℕ → Option ℕ → Bool → TimerManager → TimerManager × Bool
unfolding add
add_timer now p ms cb recurring m =
    let t : Timer = record { recurring = recurring; ms = ms; next = wrap64 (ms + now); cb = cb } in
    add p (record m { heap = update m.heap p t })

abbrev pub has_cb : Option ℕ → Bool
has_cb none = false
has_cb (some c) = true

-- `erase(find(...))` on an iterator that is end() is undefined.
unfoldable pub cancel : ℕ → TimerManager → Outcome (TimerManager × Bool)
cancel p m =
    let h = update m.heap p (record (m.heap p) { cb = none }) in
    if has_cb (m.heap p).cb
    then (if find h p m.timers
        then ok (record m { heap = h; timers = erase h p m.timers }, true)
        else fail Fault.past_end)
    else ok (m, false)

unfoldable pub refresh : ℕ → ℕ → TimerManager → TimerManager × Bool
refresh now p m =
    let t = m.heap p in
    let h = update m.heap p (record t { next = wrap64 (t.ms + now) }) in
    if not (has_cb t.cb)
    then (m, false)
    else if not (find m.heap p m.timers)
    then (m, false)
    else (record m { heap = h; timers = insert h p (erase m.heap p m.timers) }, true)

-- The new start of `reset`, in uint64_t.
abbrev pub new_start : ℕ → Timer → ℕ → Bool → ℕ
new_start now t ms from_now =
    if from_now then wrap64 (now + ms) else wrap64 (wrap64 (t.next + 2 ^ 64 - t.ms) + ms)

-- The two results are that of `reset` and whether addTimerFront is called.
unfoldable pub reset : ℕ → ℕ → ℕ → Bool → TimerManager → TimerManager × Bool × Bool
unfolding add
reset now p ms from_now m =
    let t = m.heap p in
    let h = update m.heap p (record t { ms = ms; next = new_start now t ms from_now }) in
    let (m', front) = add p (record m { heap = h; timers = erase m.heap p m.timers }) in
    if not (has_cb t.cb)
    then (m, false, false)
    else if not (find m.heap p m.timers)
    then (m, false, false)
    else (m', true, front)

abbrev pub no_timeout : ℕ
no_timeout = 2 ^ 64 - 1

abbrev pub until_first : (ℕ → Timer) → ℕ → List ℕ → ℕ
until_first h now [] = no_timeout
until_first h now (p ∷ l) = if leb (h p).next now then 0 else (h p).next - now

unfoldable pub get_next_time : ℕ → TimerManager → TimerManager × ℕ
get_next_time now m = (record m { flag = false }, until_first m.heap now m.timers)

-- The timers before `lower_bound` of a new timer at the address `key`, and those from there on.
unfoldable pub lower_bound : (ℕ → Timer) → ℕ → ℕ → List ℕ → List ℕ × List ℕ
lower_bound h now key [] = ([], [])
lower_bound h now key (p ∷ l) =
    let (before, behind) = lower_bound h now key l in
    if ltb (h p).next now || ((h p).next == now && ltb p key)
    then (p ∷ before, behind)
    else ([], p ∷ l)

-- `while (it != end() && (*it)->m_next == now_ms) ++it`
unfoldable pub skip_equal : (ℕ → Timer) → ℕ → List ℕ → List ℕ × List ℕ
skip_equal h now [] = ([], [])
skip_equal h now (p ∷ l) =
    let (equal, behind) = skip_equal h now l in
    if (h p).next == now then (p ∷ equal, behind) else ([], p ∷ l)

unfoldable pub split_expired : (ℕ → Timer) → ℕ → ℕ → List ℕ → List ℕ × List ℕ
split_expired h now key l =
    let (before, rest) = lower_bound h now key l in
    let (equal, behind) = skip_equal h now rest in (before ++ equal, behind)

-- The loop over the expired timers: a recurring one goes back with its new time.
unfoldable pub fire : ℕ → List ℕ → TimerManager → TimerManager × List (Option ℕ)
fire now [] m = (m, [])
fire now (p ∷ l) m =
    let t = m.heap p in
    let h_again = update m.heap p (record t { next = wrap64 (now + t.ms) }) in
    let m' =
      if t.recurring
      then record m { heap = h_again; timers = insert h_again p m.timers }
      else record m { heap = update m.heap p (record t { cb = none }) } in
    let (m'', cbs) = fire now l m' in (m'', t.cb ∷ cbs)

abbrev pub is_empty : List ℕ → Bool
is_empty [] = true
is_empty (p ∷ l) = false

unfoldable pub list_expired_cb : ℕ → ℕ → TimerManager → TimerManager × List (Option ℕ)
list_expired_cb now key m =
    let (expired, kept) = split_expired m.heap now key m.timers in
    if is_empty m.timers
    then (m, [])
    else fire now expired (record m { timers = kept; previous_time = now })

unfoldable pub has_timer : TimerManager → Bool
has_timer m = not (is_empty m.timers)
