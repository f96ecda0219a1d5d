-- ===== src/Hook/Descriptors.antt =====
-- Descriptors that the hooks make, configure and close (tw/hook.cc).
use tw_server.Base.{
  ℕ, ◌+◌, ◌*◌, ◌/◌, ◌≤◌, ◌≡◌, refl, ap, ◌∙◌, Bool, true, false, Option, none, some, ok, length,
  if◌then◌else◌, ◌==◌, inl, inr, Bool-cases, arith,
}
use tw_server.FdManager.{
  FdCtx, Fds, Sys, TimeoutType, rcvtimeo, sndtimeo, get_timeout, set_timeout, new_ctx, init,
  minus_one,
}
use tw_server.FdManager.Invariant.{entry, get_create, get_look, del_lem}
use tw_server.IoManager.{IoManager, Kernel, read_event, write_event, cancel_all}
use tw_server.IoManager.Sound.{IsSound}
use tw_server.IoManager.Reachable.{cancel_event-IsSound}
use tw_server.Hook.Sockets.{Timeval, timeout_option, keep_timeout, enter, socket, setsockopt, close}

abbrev pub limit_of : Option FdCtx → TimeoutType → Option ℕ
limit_of none ty = none
limit_of (some x) ty = some (get_timeout x ty)

fresh_timeout : (k : Sys) (fd : ℕ) (ty : TimeoutType) → get_timeout (new_ctx k fd) ty ≡ minus_one
unfolding get_timeout new_ctx init
fresh_timeout k fd rcvtimeo = refl
fresh_timeout k fd sndtimeo = refl

kept_timeout :
    (x : FdCtx) (ty : TimeoutType) (v : Timeval)
    → get_timeout (keep_timeout x ty v) ty ≡ v.tv_sec * 1000 + v.tv_usec / 1000
unfolding get_timeout set_timeout
kept_timeout x rcvtimeo v = refl
kept_timeout x sndtimeo v = refl

limit_of-setsockopt :
    (hooked : Bool) (k : Sys) (fd : ℕ) (ty : TimeoutType) (v : Timeval) (o : Option FdCtx)
    → o ≡ some (new_ctx k fd)
    → limit_of (setsockopt hooked (timeout_option ty v) o) ty
      ≡ some (if hooked then minus_one else v.tv_sec * 1000 + v.tv_usec / 1000)
unfolding setsockopt
limit_of-setsockopt true k fd ty v o e = ap (λ c. limit_of c ty) e ∙ ap some (fresh_timeout k fd ty)
limit_of-setsockopt false k fd ty v o e =
    ap (λ c. limit_of (setsockopt false (timeout_option ty v) c) ty) e
    ∙ ap some (kept_timeout (new_ctx k fd) ty v)

-- A new descriptor is entered in the table by the hooked `socket`. A timeout that is then set for
-- it limits the later calls only if it is set with the hooks off: with the hooks on, where it is
-- the hooked calls that the limit is for, there is none.
socket_timeout :
    (hooked : Bool) (k : Sys) (fd : ℕ) (ty : TimeoutType) (v : Timeval) (l : Fds)
    → 64 ≤ length l
    → entry l fd ≡ none
    → (l' : Fds) × (socket k true (some fd) l ≡ ok (l', some fd))
      × (limit_of (setsockopt hooked (timeout_option ty v) (entry l' fd)) ty
          ≡ some (if hooked then minus_one else v.tv_sec * 1000 + v.tv_usec / 1000))
unfolding socket enter
socket_timeout hooked k fd ty v l long new =
    let (l', run, _, at) = get_create k fd l long in
    let self : (fd == fd) ≡ true = ground arith in
    let made : entry l' fd ≡ some (new_ctx k fd) = at fd ∙ rw (self, new) refl in
    (l', rw run refl, limit_of-setsockopt hooked k fd ty v (entry l' fd) made)

cancel_all-IsSound :
    (k : Kernel) (fd : ℕ) (io : IoManager)
    → k.pipe ≡ true
    → IsSound io
    → (r : IoManager × Bool) × (cancel_all k fd io ≡ ok r) × IsSound (r.0)
unfolding cancel_all
cancel_all-IsSound k fd io p s =
    let (r, e, s1) = cancel_event-IsSound k fd read_event io refl p s in
    let (r', e', s2) = cancel_event-IsSound k fd write_event (r.0) refl p s1 in
    elim (Bool-cases (r.1)) [
      | inr f ↦ (r, rw (e, f) refl, s1)
      | inl f ↦ elim (Bool-cases (r'.1)) [
        | inr g ↦ (r', rw (e, f, e', g) refl, s2)
        | inl g ↦ ((r'.0, true), rw (e, f, e', g) refl, s2)
      ]
    ]

-- Where the events are in order and the pipe can be written, the hooked `close` of a descriptor
-- that the table knows never faults: the events stay in order, and the descriptor and no other is
-- taken out of the table.
pub close_lem :
    (k : Kernel) (sys : Sys) (fd : ℕ) (x : FdCtx) (io : IoManager) (l : Fds)
    → k.pipe ≡ true
    → IsSound io
    → entry l fd ≡ some x
    → (io' : IoManager) × (l' : Fds) × (close k sys true fd (some io) l ≡ ok (some io', l'))
      × IsSound io'
      × ((j : ℕ) → entry l' j ≡ (if fd == j then none else entry l j))
unfolding close
close_lem k sys fd x io l p s there =
    let (r, cancelled, s') = cancel_all-IsSound k fd io p s in
    let (l', gone, _, at) = del_lem fd l in
    (r.0, l', rw (get_look sys fd l, there, cancelled, gone) refl, s', at)
