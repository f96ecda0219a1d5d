-- ===== src/TcpServer/Laws.antt =====
-- Binding, accepting and serving (tw/tcp_server.cc, tw/http/http_server.cc).
use tw_server.Base.{
  ℕ, ◌≡◌, refl, ap, sym, ◌∙◌, Bool, true, false, ◌&&◌, List, [], ◌∷◌, ◌++◌, Option, none, some,
  if◌then◌else◌, append_assoc, append-nil, Bool-cases, inl, inr,
}
use tw_server.TcpServer.{
  TcpServer, Kernel, Task, handle, AcceptEvent, stopped, client, error, bind_loop, bind,
  start_accept, handle_client, is_nil,
}

-- Where both bind and listen succeed, and where one fails.
abbrev pub good : Kernel → List ℕ → List ℕ
good k [] = []
good k (a ∷ l) = if k.binds a && k.listens a then k.socket_of a ∷ good k l else good k l

abbrev pub bad : Kernel → List ℕ → List ℕ
bad k [] = []
bad k (a ∷ l) = if k.binds a && k.listens a then bad k l else a ∷ bad k l

bind_loop_lem :
    (k : Kernel) (addrs socks fails : List ℕ)
    → bind_loop k addrs socks fails ≡ (socks ++ good k addrs, fails ++ bad k addrs)
unfolding bind_loop
bind_loop_lem k [] socks fails = rw (append-nil socks, append-nil fails)
bind_loop_lem k (a ∷ l) socks fails = elim (Bool-cases (k.binds a && k.listens a)) [
  | inl e ↦
      rw (e, bind_loop_lem k l (socks ++ k.socket_of a ∷ []) fails)
        (ap (λ t. (t, fails ++ bad k l)) (append_assoc socks (k.socket_of a ∷ []) (good k l)))
  | inr e ↦
      rw (e, bind_loop_lem k l socks (fails ++ a ∷ []))
        (ap (λ t. (socks ++ good k l, t)) (append_assoc fails (a ∷ []) (bad k l)))
]

-- `bind` reports the addresses where bind or listen fails, in order, and succeeds exactly where
-- there is none; then it has a socket for each address. Otherwise it gives up every socket that the
-- server had, those of earlier calls too.
bind_lem :
    (k : Kernel) (addrs : List ℕ) (s : TcpServer)
    → let (s', fails, done) = bind k addrs [] s in
      (fails ≡ bad k addrs)
      × (done ≡ is_nil (bad k addrs))
      × (s'.socks ≡ (if is_nil (bad k addrs) then s.socks ++ good k addrs else []))
      × (s'.is_stop ≡ s.is_stop)
unfolding bind
bind_lem k addrs s =
    rw (bind_loop_lem k addrs s.socks []) (by_fails (bad k addrs) (s.socks ++ good k addrs))
  where
    by_fails :
        (fails socks : List ℕ)
        → let r : TcpServer × List ℕ × Bool =
            (if is_nil fails
              then (record s { socks = socks }, fails, true)
              else (record s { socks = [] }, fails, false)) in
          (r.1 ≡ fails)
          × (r.2 ≡ is_nil fails)
          × (r.0.socks ≡ (if is_nil fails then socks else []))
          × (r.0.is_stop ≡ s.is_stop)
    by_fails [] socks = (refl, refl, refl, refl)
    by_fails (a ∷ fails) socks = (refl, refl, refl, refl)

-- The clients that are accepted before the stop.
abbrev pub accepted : List AcceptEvent → List ℕ
accepted [] = []
accepted (stopped ∷ es) = []
accepted (client c ∷ es) = c ∷ accepted es
accepted (error ∷ es) = accepted es

abbrev pub handles : List ℕ → List Task
handles [] = []
handles (c ∷ cs) = handle c ∷ handles cs

-- Each client that is accepted before the stop gets one task, in order; a failed accept adds none.
start_accept_lem :
    (es : List AcceptEvent) (worker : List Task)
    → start_accept es worker ≡ worker ++ handles (accepted es)
unfolding start_accept
start_accept_lem [] worker = sym (append-nil worker)
start_accept_lem (stopped ∷ es) worker = sym (append-nil worker)
start_accept_lem (client c ∷ es) worker =
    start_accept_lem es (worker ++ handle c ∷ [])
    ∙ append_assoc worker (handle c ∷ []) (handles (accepted es))
start_accept_lem (error ∷ es) worker = start_accept_lem es worker

-- The requests up to the first null.
abbrev pub served : List (Option (ℕ × Bool)) → List (ℕ × Bool)
served [] = []
served (none ∷ rs) = []
served (some r ∷ rs) = r ∷ served rs

abbrev pub closing : List (ℕ × Bool) → List (ℕ × Bool)
closing [] = []
closing (r ∷ rs) = (r.0, true) ∷ []

-- With keep-alive every request up to the first null is answered with its own close flag, also
-- behind an answer that says close. Without it the first request alone is answered, with close.
handle_client_lem :
    (rs : List (Option (ℕ × Bool)))
    → (handle_client true rs ≡ served rs) × (handle_client false rs ≡ closing (served rs))
unfolding handle_client
handle_client_lem rs = (alive rs, once rs)
  where
    alive : (rs : List (Option (ℕ × Bool))) → handle_client true rs ≡ served rs
    alive [] = refl
    alive (none ∷ rs) = refl
    alive (some (v, true) ∷ rs) = ap (λ t. (v, true) ∷ t) (alive rs)
    alive (some (v, false) ∷ rs) = ap (λ t. (v, false) ∷ t) (alive rs)

    once : (rs : List (Option (ℕ × Bool))) → handle_client false rs ≡ closing (served rs)
    once [] = refl
    once (none ∷ rs) = refl
    once (some (v, true) ∷ rs) = refl
    once (some (v, false) ∷ rs) = refl
