-- ===== src/Hook/Refused.antt =====
-- connect_with_timeout where epoll_ctl refuses the event (tw/hook.cc).
use tw_server.Base.{
  ℕ, ◌≡◌, refl, sym, ap, ◌∙◌, Bool, true, false, Option, none, some, ok, fail, Fault, ◌==◌,
  if◌then◌else◌, get_elem?, inl, inr, Bool-cases, ◌>>=◌, subst,
}
use tw_server.FdManager.{FdCtx, minus_one}
use tw_server.Timer.{TimerManager, add_timer, has_cb}
use tw_server.Timer.Invariant.{IsValid}
use tw_server.Timer.Operations.{add_timer-IsValid, cancel_lem}
use tw_server.IoManager.{
  IoManager, FdContext, Kernel, Event, write_event, covers, join, add_event, add_to_context,
}
use tw_server.IoManager.Laws.{in_range, add_op}
use tw_server.Hook.{einprogress, Answer, failed, World, Turn, Call, start_timer, stop_timer}
use tw_server.Hook.Waiting.{start_timer_keeps}
use tw_server.Hook.Connect.{
  SoError, check_error, Connected, cancel_timer, await_connection, after_connect,
  connect_with_timeout,
}

add_event_refused :
    (k : Kernel) (fd : ℕ) (ev : Event) (cb : Option ℕ) (cur : ℕ) (c : FdContext) (io : IoManager)
    → get_elem? io.contexts fd ≡ some c
    → covers c.events ev ≡ false
    → k.ctl (add_op c.events) fd (join c.events ev) ≡ false
    → add_event k fd ev cb cur io ≡ ok (io, false)
unfolding add_event add_to_context
add_event_refused k fd ev cb cur c io g w a = rw ((in_range io.contexts fd c g).0, g, a, w) refl

-- The timer that was just started can be cancelled.
cancel_timer_started :
    (c : Call) (t : Turn) (w : World)
    → IsValid w.timers
    → has_cb (w.timers.heap t.timer).cb ≡ false
    → (v : World) × (cancel_timer c t (start_timer c t w)
        ≡ (if c.timeout == minus_one then fail Fault.null_deref else ok v))
      × (v.io ≡ w.io)
unfolding cancel_timer start_timer stop_timer
cancel_timer_started c t w v fresh = elim (Bool-cases (c.timeout == minus_one)) [
  | inl e ↦ (w, rw e refl, refl)
  | inr e ↦
      let m : TimerManager =
        (add_timer t.now t.timer c.timeout (some c.on_time) false w.timers).0 in
      let (m', ran, _, _) =
        cancel_lem t.timer m
          (add_timer-IsValid t.now t.timer c.timeout c.on_time false w.timers v fresh) in
      (record w { timers = m' }, rw (e, ran) refl, refl)
]

after_connect_waits :
    (c : Call) (t : Turn) (e : SoError) (a : Answer) (w : World)
    → a ≡ failed einprogress
    → after_connect c t e a w ≡ await_connection c t e w
unfolding after_connect
after_connect_waits c t e a w h = rw h refl

await_refused :
    (c : Call) (t : Turn) (e : SoError) (w : World)
    → add_event t.kernel c.fd write_event none c.fiber (start_timer c t w).io
      ≡ ok ((start_timer c t w).io, false)
    → await_connection c t e w
      ≡ ◌>>=◌ {B = Connected} (cancel_timer c t (start_timer c t w)) (λ v. ok (check_error e, v))
unfolding await_connection
await_refused c t e w h = rw h refl

bind_if :
    (b : Bool) (v : World) (a : Answer)
    → ◌>>=◌ {B = Connected} (if b then fail Fault.null_deref else ok v) (λ u. ok (a, u))
      ≡ (if b then fail Fault.null_deref else ok (a, v))
bind_if true v a = refl
bind_if false v a = refl

-- On an open socket whose connection is in progress, where epoll_ctl refuses the event and the new
-- timer's address is fresh: without a timeout the null timer is dereferenced, and with one the call
-- does not wait but gives at once what SO_ERROR says, which is success while there is no error yet.
pub connect_refused :
    (x : FdCtx) (c : Call) (t : Turn) (e : SoError) (y : FdContext) (w : World)
    → x.is_closed ≡ false
    → x.is_socket ≡ true
    → x.usr_non_block ≡ false
    → t.answer ≡ failed einprogress
    → IsValid w.timers
    → has_cb (w.timers.heap t.timer).cb ≡ false
    → get_elem? w.io.contexts c.fd ≡ some y
    → covers y.events write_event ≡ false
    → t.kernel.ctl (add_op y.events) c.fd (join y.events write_event) ≡ false
    → (v : World) × (connect_with_timeout true (some x) c t e w
        ≡ (if c.timeout == minus_one then fail Fault.null_deref else ok (check_error e, v)))
      × (v.io ≡ w.io)
unfolding connect_with_timeout
connect_refused x c t e y w is_open sock blocks ans valid fresh g free refused =
    let w0 : World = record w { is_cancelled = false } in
    let (v, stopped, same) = cancel_timer_started c t w0 valid fresh in
    let keep : (start_timer c t w0).io ≡ w.io = (start_timer_keeps c t w0).0 in
    let not_added : add_event t.kernel c.fd write_event none c.fiber (start_timer c t w0).io
        ≡ ok ((start_timer c t w0).io, false) =
      subst (λ i. add_event t.kernel c.fd write_event none c.fiber i ≡ ok (i, false)) (sym keep)
        (add_event_refused t.kernel c.fd write_event none c.fiber y w.io g free refused) in
    let result : after_connect c t e t.answer w0
        ≡ (if c.timeout == minus_one then fail Fault.null_deref else ok (check_error e, v)) =
      after_connect_waits c t e t.answer w0 ans
      ∙ await_refused c t e w0 not_added
      ∙ ap (λ o. ◌>>=◌ {B = Connected} o (λ u. ok (check_error e, u))) stopped
      ∙ bind_if (c.timeout == minus_one) v (check_error e) in
    (v, rw (is_open, sock, blocks) result, same)
