-- ===== src/Hook/Blocking.antt =====
-- What the callers of a hooked call get from its loop (tw/hook.cc).
use tw_server.Base.{
  ◌≡◌, refl, ◌∙◌, Bool, true, false, List, [], ◌∷◌, ◌++◌, none, some, Outcome, ok, fail, ◌>>=◌,
  if◌then◌else◌, All, subst, not,
}
use tw_server.IoManager.{add_event}
use tw_server.Hook.{
  Errno, eintr, eagain, ebadf, etimedout, einprogress, other_errno, Answer, returned, failed, World,
  Turn, Call, Finished, start_timer, stop_timer, set_exec, resume, wait, take_turn, turns,
}

-- EINTR and EAGAIN.
abbrev pub is_retry : Errno → Bool
is_retry eintr = true
is_retry eagain = true
is_retry e = false

abbrev pub is_retry_answer : Answer → Bool
is_retry_answer (returned n) = false
is_retry_answer (failed e) = is_retry e

-- A result is not one that asks to be tried again.
abbrev IsFinal : Outcome Finished → Type 0
IsFinal (ok (some (a, w))) = is_retry_answer a ≡ false
IsFinal (ok none) = Unit
IsFinal (fail f) = Unit

bind-IsFinal {ℓ} :
    {A : Type ℓ} (o : Outcome A) (f : A → Outcome Finished)
    → ((a : A) → IsFinal (f a))
    → IsFinal (o >>= f)
bind-IsFinal (ok a) f h = h a
bind-IsFinal (fail e) f h = tt

if-IsFinal :
    (b : Bool) (o p : Outcome Finished) → IsFinal o → IsFinal p → IsFinal (if b then o else p)
if-IsFinal true o p h k = h
if-IsFinal false o p h k = k

resume-IsFinal :
    (c : Call) (t : Turn) (again : World → Outcome Finished) (w : World)
    → ((v : World) → IsFinal (again v))
    → IsFinal (resume c t again w)
unfolding resume
resume-IsFinal c t again w h =
    bind-IsFinal (stop_timer c t (set_exec c.fiber w)) _
      (λ v. if-IsFinal v.is_cancelled _ (again v) refl (h v))

wait-IsFinal :
    (c : Call) (t : Turn) (again : World → Outcome Finished) (w : World)
    → is_retry t.refusal ≡ false
    → ((v : World) → IsFinal (again v))
    → IsFinal (wait c t again w)
unfolding wait
wait-IsFinal c t again w r h =
    bind-IsFinal (add_event t.kernel c.fd c.event none c.fiber (start_timer c t w).io) _ (λ x.
      if-IsFinal (not (x.1)) _ _ (bind-IsFinal (stop_timer c t _) _ (λ v. r))
        (resume-IsFinal c t again (t.meanwhile (record (start_timer c t w) { io = x.0 })) h))

take_turn-IsFinal :
    (c : Call) (t : Turn) (again : World → Outcome Finished) (a : Answer) (w : World)
    → is_retry t.refusal ≡ false
    → ((v : World) → IsFinal (again v))
    → IsFinal (take_turn c t again a w)
unfolding take_turn
take_turn-IsFinal c t again (returned n) w r h = refl
take_turn-IsFinal c t again (failed eintr) w r h = h w
take_turn-IsFinal c t again (failed eagain) w r h = wait-IsFinal c t again w r h
take_turn-IsFinal c t again (failed ebadf) w r h = refl
take_turn-IsFinal c t again (failed etimedout) w r h = refl
take_turn-IsFinal c t again (failed einprogress) w r h = refl
take_turn-IsFinal c t again (failed (other_errno n)) w r h = refl

turns-IsFinal :
    (c : Call) (l : List Turn) (w : World)
    → All (λ t. is_retry t.refusal ≡ false) l
    → IsFinal (turns c l w)
unfolding turns
turns-IsFinal c [] w h = tt
turns-IsFinal c (t ∷ l) w h =
    take_turn-IsFinal c t (turns c l) t.answer w h.0 (λ v. turns-IsFinal c l v h.1)

-- Where epoll_ctl does not refuse with EINTR or EAGAIN, the loop of a hooked call never gives its
-- caller EINTR or EAGAIN.
pub turns_never_retry :
    (c : Call) (l : List Turn) (w v : World) (a : Answer)
    → All (λ t. is_retry t.refusal ≡ false) l
    → turns c l w ≡ ok (some (a, v))
    → is_retry_answer a ≡ false
turns_never_retry c l w v a h e = subst IsFinal e (turns-IsFinal c l w h)

take_turn-final :
    (c : Call) (t : Turn) (again : World → Outcome Finished) (a : Answer) (w : World)
    → is_retry_answer a ≡ false
    → take_turn c t again a w ≡ ok (some (a, w))
unfolding take_turn
take_turn-final c t again (returned n) w f = refl
take_turn-final c t again (failed eintr) w f = cc
take_turn-final c t again (failed eagain) w f = cc
take_turn-final c t again (failed ebadf) w f = refl
take_turn-final c t again (failed etimedout) w f = refl
take_turn-final c t again (failed einprogress) w f = refl
take_turn-final c t again (failed (other_errno n)) w f = refl

take_turn-eintr :
    (c : Call) (t : Turn) (again : World → Outcome Finished) (a : Answer) (w : World)
    → a ≡ failed eintr
    → take_turn c t again a w ≡ again w
unfolding take_turn
take_turn-eintr c t again a w e = rw e refl

-- Calls that signals interrupt, however many, are made again; what the first call gives that fails
-- with neither EINTR nor EAGAIN is the result, and the managers are as before.
pub turns-interrupted :
    (c : Call) (interrupted : List Turn) (t : Turn) (l : List Turn) (w : World)
    → All (λ t. t.answer ≡ failed eintr) interrupted
    → is_retry_answer t.answer ≡ false
    → turns c (interrupted ++ t ∷ l) w ≡ ok (some (t.answer, w))
unfolding turns
turns-interrupted c [] t l w h f = take_turn-final c t (turns c l) t.answer w f
turns-interrupted c (i ∷ is) t l w h f =
    take_turn-eintr c i (turns c (is ++ t ∷ l)) i.answer w h.0 ∙ turns-interrupted c is t l w h.1 f
