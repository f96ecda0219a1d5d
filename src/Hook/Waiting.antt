-- ===== src/Hook/Waiting.antt =====
-- A hooked call that waits (tw/hook.cc): the timeout's path through timers, events and scheduler.
use tw_server.Base.{
  ℕ, ◌≡◌, refl, ap, ◌∙◌, true, false, List, ◌∷◌, none, some, Outcome, ok, get_elem?, ◌==◌, inl, inr,
  Bool-cases,
}
use tw_server.Fiber.{is_exec, set_state, exec}
use tw_server.Scheduler.{Scheduler, schedule, update}
use tw_server.Timer.{TimerManager, cancel, has_cb}
use tw_server.FdManager.{minus_one}
use tw_server.IoManager.{
  IoManager, FdContext, Kernel, covers, join, drop_event, add_event, cancel_event,
}
use tw_server.IoManager.Laws.{is_event, add_op, take_op}
use tw_server.IoManager.Sound.{IsSound}
use tw_server.IoManager.RoundTrip.{waking, cancel_event-add_event}
use tw_server.Hook.{
  etimedout, eagain, Answer, failed, World, Turn, Call, Finished, on_timeout, start_timer,
  stop_timer, set_exec, resume, wait, take_turn, turns,
}

pub start_timer_keeps :
    (c : Call) (t : Turn) (w : World)
    → ((start_timer c t w).io ≡ w.io) × ((start_timer c t w).is_cancelled ≡ w.is_cancelled)
unfolding start_timer
start_timer_keeps c t w = elim (Bool-cases (c.timeout == minus_one)) [
  | inl e ↦ (rw e refl, rw e refl)
  | inr e ↦ (rw e refl, rw e refl)
]

-- A timer that has fired is cancelled without effect.
stop_timer_fired :
    (c : Call) (t : Turn) (w : World)
    → has_cb (w.timers.heap t.timer).cb ≡ false
    → stop_timer c t w ≡ ok w
unfolding stop_timer cancel
stop_timer_fired c t w h = elim (Bool-cases (c.timeout == minus_one)) [
  | inl e ↦ rw e refl
  | inr e ↦ rw (e, h) refl
]

on_timeout_lem :
    (k : Kernel) (c : Call) (w : World) (io : IoManager)
    → w.is_cancelled ≡ false
    → cancel_event k c.fd c.event w.io ≡ ok (io, true)
    → on_timeout k c w ≡ ok (record w { io = io; is_cancelled = true })
unfolding on_timeout
on_timeout_lem k c w io f e = rw (f, e) refl

resume_lem :
    (c : Call) (t : Turn) (again : World → Outcome Finished) (w : World)
    → w.is_cancelled ≡ true
    → has_cb (w.timers.heap t.timer).cb ≡ false
    → resume c t again w ≡ ok (some (failed etimedout, set_exec c.fiber w))
unfolding resume
resume_lem c t again w f h = rw (stop_timer_fired c t (set_exec c.fiber w) h, f) refl

wait_lem :
    (c : Call) (t : Turn) (again : World → Outcome Finished) (w : World) (io : IoManager)
    → add_event t.kernel c.fd c.event none c.fiber (start_timer c t w).io ≡ ok (io, true)
    → wait c t again w ≡ resume c t again (t.meanwhile (record (start_timer c t w) { io = io }))
unfolding wait
wait_lem c t again w io e = rw e refl

take_turn_waits :
    (c : Call) (t : Turn) (again : World → Outcome Finished) (a : Answer) (w : World)
    → a ≡ failed eagain
    → take_turn c t again a w ≡ wait c t again w
unfolding take_turn
take_turn_waits c t again a w e = rw e refl

-- The world when the fiber is resumed: the timers are `m`, and the scheduler went on by `during`.
abbrev pub later : TimerManager → (Scheduler → Scheduler) → World → World
later m during v = record v { timers = m; io = record v.io { scheduler = during v.io.scheduler } }

-- The scheduler once the fiber `p` is back in EXEC.
abbrev pub running : ℕ → Scheduler → Scheduler
running p s = record s { fibers = update s.fibers p (set_state exec (s.fibers p)) }

-- Where the wrapped function would block on a thread of this scheduler, the event can be added and
-- the pipe written, and what happens while the fiber is suspended is that the callback of its timer
-- runs, and then the scheduler goes on in whatever way and the timers become any in which that
-- timer has fired, the call gives ETIMEDOUT. The event no longer waits, and the scheduler went on
-- from the state in which the fiber was scheduled once.
pub turns_timeout :
    (k : Kernel) (c : Call) (t : Turn) (l : List Turn) (x : FdContext) (w : World)
    (m : TimerManager) (during : Scheduler → Scheduler)
    → IsSound w.io
    → get_elem? w.io.contexts c.fd ≡ some x
    → is_event c.event ≡ true
    → covers x.events c.event ≡ false
    → is_exec (w.io.scheduler.fibers c.fiber).state ≡ true
    → t.kernel.ctl (add_op x.events) c.fd (join x.events c.event) ≡ true
    → k.ctl
        (take_op (join x.events c.event) c.event)
        c.fd
        (drop_event (join x.events c.event) c.event)
      ≡ true
    → t.kernel.current ≡ some 0
    → k.pipe ≡ true
    → w.is_cancelled ≡ false
    → t.answer ≡ failed eagain
    → has_cb (m.heap t.timer).cb ≡ false
    → ((u v : World) → on_timeout k c u ≡ ok v → t.meanwhile u ≡ later m during v)
    → (v : World) × (turns c (t ∷ l) w ≡ ok (some (failed etimedout, v)))
      × (v.io.contexts ≡ w.io.contexts)
      × (v.io.pending ≡ w.io.pending)
      × (v.io.scheduler
          ≡ running c.fiber (during (schedule (waking none c.fiber) w.io.scheduler).0))
unfolding turns
turns_timeout k c t l x w m during s g v f e a a' here p nc ans fired passes =
    let (io1, io2, added, cancelled, same, count, woken) =
      cancel_event-add_event t.kernel k c.fd c.event none c.fiber x w.io s g v f e a a' here p in
    let (keep, flag) = start_timer_keeps c t w in
    let u : World = record (start_timer c t w) { io = io1 } in
    let u' : World = later m during (record u { io = io2; is_cancelled = true }) in
    let fires : t.meanwhile u ≡ u' =
      passes u (record u { io = io2; is_cancelled = true })
        (on_timeout_lem k c u io2 (flag ∙ nc) cancelled) in
    (
      set_exec c.fiber u',
      take_turn_waits c t (turns c l) t.answer w ans
          ∙ wait_lem c t (turns c l) w io1
              (ap (add_event t.kernel c.fd c.event none c.fiber) keep ∙ added)
          ∙ ap (resume c t (turns c l)) fires
          ∙ resume_lem c t (turns c l) u' refl fired,
      same,
      count,
      ap (λ s. running c.fiber (during s)) woken,
    )
