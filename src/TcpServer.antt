-- ===== src/TcpServer.antt =====
-- tw/tcp_server.h, tw/tcp_server.cc and the client loop of tw/http/http_server.cc. Addresses,
-- sockets and clients are numbers. What the kernel answers to bind, listen and accept is a
-- parameter; work for an IOManager is a list of tasks.
pub mod Laws
mod Examples
use tw_server.Base.{
  ℕ, zero, suc, Bool, true, false, not, ◌||◌, ◌&&◌, List, [], ◌∷◌, ◌++◌, Option, none, some,
  if◌then◌else◌,
}

pub data Task : Type 0 where
  accept_loop : ℕ → Task
  close_all : Task
  handle : ℕ → Task

pub record TcpServer : Type 0 where
  pub socks : List ℕ
  pub is_stop : Bool
  pub recv_timeout : ℕ
  pub worker : List Task
  pub accept_worker : List Task

-- 60 * 1000 * 2
abbrev pub read_timeout : ℕ
read_timeout = 120000

unfoldable pub init : TcpServer
init = record {
  socks = [];
  is_stop = true;
  recv_timeout = read_timeout;
  worker = [];
  accept_worker = [];
}

-- The socket that is made for an address, and whether bind and listen succeed on it.
pub record Kernel : Type 0 where
  pub socket_of : ℕ → ℕ
  pub binds : ℕ → Bool
  pub listens : ℕ → Bool

unfoldable pub bind_loop : Kernel → List ℕ → List ℕ → List ℕ → List ℕ × List ℕ
bind_loop k [] socks fails = (socks, fails)
bind_loop k (addr ∷ addrs) socks fails =
    bind_loop k addrs
      (if k.binds addr && k.listens addr then socks ++ k.socket_of addr ∷ [] else socks)
      (if k.binds addr && k.listens addr then fails else fails ++ addr ∷ [])

abbrev pub is_nil : List ℕ → Bool
is_nil [] = true
is_nil (x ∷ l) = false

-- The result, the failed addresses and the server after `bind(addrs, fails)`.
unfoldable pub bind : Kernel → List ℕ → List ℕ → TcpServer → TcpServer × List ℕ × Bool
unfolding bind_loop
bind k addrs fails s =
    let (socks, fails') = bind_loop k addrs s.socks fails in
    if is_nil fails'
    then (record s { socks = socks }, fails', true)
    else (record s { socks = [] }, fails', false)

unfoldable pub bind_one : Kernel → ℕ → TcpServer → TcpServer × Bool
unfolding bind
bind_one k addr s = let (s', fails, done) = bind k (addr ∷ []) [] s in (s', done)

abbrev pub accept_loops : List ℕ → List Task
accept_loops [] = []
accept_loops (sock ∷ socks) = accept_loop sock ∷ accept_loops socks

unfoldable pub start : TcpServer → TcpServer × Bool
start s = if not s.is_stop then (s, true) else (
  record s { is_stop = false; accept_worker = s.accept_worker ++ accept_loops s.socks },
  true,
)

unfoldable pub stop : TcpServer → TcpServer
stop s = record s { is_stop = true; accept_worker = s.accept_worker ++ close_all ∷ [] }

-- The task that `stop` schedules: the sockets closed, and the server after it.
unfoldable pub run_close_all : TcpServer → TcpServer × List ℕ
run_close_all s = (record s { socks = [] }, s.socks)

-- One round of `startAccept`: what the flag m_isStop is when it is tested, and what accept gives.
pub data AcceptEvent : Type 0 where
  stopped : AcceptEvent
  client : ℕ → AcceptEvent
  error : AcceptEvent

unfoldable pub start_accept : List AcceptEvent → List Task → List Task
start_accept [] worker = worker
start_accept (stopped ∷ es) worker = worker
start_accept (client c ∷ es) worker = start_accept es (worker ++ handle c ∷ [])
start_accept (error ∷ es) worker = start_accept es worker

-- HttpServer::handleClient: each request's version and close flag as `recvRequest` gives it, `none`
-- for null; the version and the close flag of each response that is sent. It ends with `close`.
unfoldable pub handle_client : Bool → List (Option (ℕ × Bool)) → List (ℕ × Bool)
handle_client keepalive [] = []
handle_client keepalive (none ∷ rs) = []
handle_client keepalive (some (version, is_close) ∷ rs) =
    (version, is_close || not keepalive) ∷ (if keepalive then handle_client keepalive rs else [])
