-- ===== src/Http/Serving.antt =====
-- HttpSession::sendRespond (tw/http/http_session.cc) and HttpServer::handleClient
-- (tw/http/http_server.cc): a client is served with what its socket reads and writes.
pub mod Sent
pub mod Laws
pub mod Pipelined
mod Examples
use tw_server.Base.{
  ℕ, Bool, not, ◌||◌, List, [], ◌∷◌, ◌++◌, length, take, drop, codes, Fault, if◌then◌else◌,
}
use tw_server.Stream.{Transfer, Fixed, whole, zero_result, blocked, write_fix_size}
use tw_server.Http.Message.{HttpRequest, HttpRespond, new_respond, dump_respond}
use tw_server.Http.Session.{
  Machine, Received, closed, head_only, with_body, waiting, fault, recv_request,
}

-- `sendRespond`: the pieces are the places of the printed response that the socket took.
unfoldable pub send_respond : HttpRespond → List Transfer → Fixed
unfolding write_fix_size dump_respond
send_respond res script = write_fix_size script 0 (length (dump_respond res)) []

-- The bytes that the pieces stand for.
abbrev pub on_wire : List ℕ → List (ℕ × List ℕ) → List ℕ
on_wire text [] = []
on_wire text ((offset, bytes) ∷ l) = take (length bytes) (drop offset text) ++ on_wire text l

unfoldable pub hello : ℕ → Bool → HttpRespond
unfolding new_respond
hello version close = record (new_respond version close) { body = codes "hello tw" }

-- The response to a request of this version and close flag.
abbrev pub respond_to : Bool → ℕ × Bool → HttpRespond
respond_to keepalive (version, close) = hello version (close || not keepalive)

-- What one round of the loop reads and writes.
pub record Exchange : Type 0 where
  pub reads : List Transfer
  pub writes : List Transfer

-- How it ends: with `close`, in a call that waits, or by a fault of the language.
pub data Ending : Type 0 where
  session_closed : Ending
  session_waits : Ending
  session_fails : Fault → Ending

-- What was sent, a response a list of bytes; one that is not finished does not count.
pub record Served : Type 0 where
  pub sent : List (List ℕ)
  pub ending : Ending

abbrev pub ended : Ending → Served
ended e = record { sent = []; ending = e }

-- The result of `sendRespond` is not looked at.
abbrev pub after_send : List ℕ → Fixed → Served → Served
after_send text (whole pieces) next = record next { sent = on_wire text pieces ∷ next.sent }
after_send text (zero_result pieces) next = record next { sent = on_wire text pieces ∷ next.sent }
after_send text blocked next = ended session_waits

-- One response, and what comes after it.
abbrev pub answer : Bool → ℕ × Bool → List Transfer → Served → Served
answer keepalive r script next =
    let res = respond_to keepalive r in
    after_send (dump_respond res) (send_respond res script)
      (if keepalive then next else ended session_closed)

-- `get_data` is the request that the callbacks of the machine have filled.
module _ (m : Machine) (get_data : m.State → HttpRequest) where
  abbrev pub version_and_close : m.State → ℕ × Bool
  version_and_close p = ((get_data p).version, (get_data p).close)

  -- One round with what `recvRequest` gives; a body is only logged.
  abbrev pub serve : Bool → Received m.State → List Transfer → Served → Served
  serve keepalive closed script next = ended session_closed
  serve keepalive (head_only p) script next = answer keepalive (version_and_close p) script next
  serve keepalive (with_body p front pieces) script next =
      answer keepalive (version_and_close p) script next
  serve keepalive waiting script next = ended session_waits
  serve keepalive (fault f) script next = ended (session_fails f)

  unfoldable pub handle_client : Bool → List Exchange → Served
  unfolding recv_request send_respond hello
  handle_client keepalive [] = ended session_waits
  handle_client keepalive (x ∷ xs) =
      serve keepalive (recv_request m x.reads) x.writes (handle_client keepalive xs)
