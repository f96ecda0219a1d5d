-- ===== src/FdManager/Examples.antt =====
-- Runs on the new table (tw/fd_manager.cc).
use tw_server.Base.{true, none, replicate}
use tw_server.FdManager.{Sys, Fds}

abbrev sockets : Sys
sockets = record { fstat_ok = λ fd. true; is_sock = λ fd. true }

abbrev empty_table : Fds
empty_table = replicate 64 none
