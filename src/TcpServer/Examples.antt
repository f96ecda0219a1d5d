-- ===== src/TcpServer/Examples.antt =====
-- Runs of a server with two addresses (tw/tcp_server.cc, tw/http/http_server.cc).
use tw_server.Base.{◌+◌, ◌==◌, true, [], ◌∷◌, not}
use tw_server.TcpServer.{TcpServer, Kernel}

-- Port 80 is taken.
abbrev kernel : Kernel
kernel = record { socket_of = λ a. a + 1000; binds = λ a. not (a == 80); listens = λ a. true }

abbrev server : TcpServer
server = record {
  socks = 5 ∷ [];
  is_stop = true;
  recv_timeout = 120000;
  worker = [];
  accept_worker = [];
}
