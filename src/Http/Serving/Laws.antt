-- ===== src/Http/Serving/Laws.antt =====
-- What a client of HttpServer gets (tw/http/http_server.cc, tw/http/http_session.cc).
use tw_server.Base.{
  ℕ, ◌^◌, ◌<◌, ◌≡◌, refl, Bool, true, false, List, [], ◌∷◌, Option, none, some, length, map, All,
  if◌then◌else◌,
}
use tw_server.Stream.{Transfer}
use tw_server.Stream.Laws.{Delivers, transfers}
use tw_server.Http.Message.{HttpRequest, dump_respond}
use tw_server.Http.Session.{
  Machine, Received, closed, head_only, with_body, waiting, fault, recv_request,
}
use tw_server.Http.Serving.{
  Exchange, Served, hello, respond_to, answer, serve, version_and_close, handle_client,
}
use tw_server.Http.Serving.Sent.{send_respond_lem}
use tw_server.TcpServer

-- The printed response of this version and close flag.
abbrev pub printed : ℕ × Bool → List ℕ
printed r = dump_respond (hello (r.0) (r.1))

-- The writes take the response to a request, if there is one: each a byte or more, and together
-- all.
abbrev pub Taken : Bool → Option (ℕ × Bool) → List Transfer → Type 0
Taken keepalive none script = Unit
Taken keepalive (some r) script =
    (l : List (List ℕ)) × (script ≡ transfers l)
    × (length (dump_respond (respond_to keepalive r)) < 2 ^ 64)
    × Delivers l (length (dump_respond (respond_to keepalive r)))

answer_lem :
    (keepalive : Bool) (r : ℕ × Bool) (script : List Transfer) (next : Served)
    (rest : List (List ℕ))
    → Taken keepalive (some r) script
    → next.sent ≡ rest
    → (answer keepalive r script next).sent
      ≡ dump_respond (respond_to keepalive r) ∷ (if keepalive then rest else [])
answer_lem true r script next rest (l, e, h, d) same =
    let (pieces, sent, wire) = send_respond_lem (respond_to true r) l h d in
    rw (e, sent, wire, same) refl
answer_lem false r script next rest (l, e, h, d) same =
    let (pieces, sent, wire) = send_respond_lem (respond_to false r) l h d in
    rw (e, sent, wire) refl

module _ (m : Machine) (get_data : m.State → HttpRequest) where
  -- The version and the close flag of the request that `recvRequest` gives, if it gives one.
  abbrev pub request_of : Received m.State → Option (ℕ × Bool)
  request_of closed = none
  request_of (head_only p) = some (version_and_close m get_data p)
  request_of (with_body p front pieces) = some (version_and_close m get_data p)
  request_of waiting = none
  request_of (fault f) = none

  abbrev pub requests : List Exchange → List (Option (ℕ × Bool))
  requests [] = []
  requests (x ∷ xs) = request_of (recv_request m x.reads) ∷ requests xs

  abbrev pub IsTaken : Bool → Exchange → Type 0
  IsTaken keepalive x = Taken keepalive (request_of (recv_request m x.reads)) x.writes

  answered :
      (keepalive : Bool) (p : m.State) (script : List Transfer) (next : Served)
      (rs : List (Option (ℕ × Bool)))
      → Taken keepalive (some (version_and_close m get_data p)) script
      → next.sent ≡ map printed (TcpServer.handle_client keepalive rs)
      → (answer keepalive (version_and_close m get_data p) script next).sent
        ≡ map printed
            (TcpServer.handle_client keepalive (some (version_and_close m get_data p) ∷ rs))
  unfolding TcpServer.handle_client
  answered true p script next rs h e =
      answer_lem true (version_and_close m get_data p) script next _ h e
  answered false p script next rs h e =
      answer_lem false (version_and_close m get_data p) script next _ h e

  serve_lem :
      (keepalive : Bool) (r : Received m.State) (script : List Transfer) (next : Served)
      (rs : List (Option (ℕ × Bool)))
      → Taken keepalive (request_of r) script
      → next.sent ≡ map printed (TcpServer.handle_client keepalive rs)
      → (serve m get_data keepalive r script next).sent
        ≡ map printed (TcpServer.handle_client keepalive (request_of r ∷ rs))
  unfolding TcpServer.handle_client
  serve_lem keepalive closed script next rs h e = refl
  serve_lem keepalive (head_only p) script next rs h e = answered keepalive p script next rs h e
  serve_lem keepalive (with_body p front pieces) script next rs h e =
      answered keepalive p script next rs h e
  serve_lem keepalive waiting script next rs h e = refl
  serve_lem keepalive (fault f) script next rs h e = refl

  -- Where the writes take each response, however they cut it, the client gets one printed response
  -- for each request that recvRequest gives, in order: up to the first that it does not give where
  -- connections are kept, and of the first alone, with close, where they are not.
  pub sent-handle_client :
      (keepalive : Bool) (xs : List Exchange)
      → All (IsTaken keepalive) xs
      → (handle_client m get_data keepalive xs).sent
        ≡ map printed (TcpServer.handle_client keepalive (requests xs))
  unfolding handle_client TcpServer.handle_client
  sent-handle_client keepalive [] h = refl
  sent-handle_client keepalive (x ∷ xs) h =
      serve_lem keepalive (recv_request m x.reads) x.writes (handle_client m get_data keepalive xs)
        (requests xs) (h.0) (sent-handle_client keepalive xs (h.1))
