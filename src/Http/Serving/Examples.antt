-- ===== src/Http/Serving/Examples.antt =====
-- Two requests of a client, with a machine that takes each line for a request.
use tw_server.Base.{
  drop, All, ℕ, ◌+◌, ◌≡◌, ◌==◌, refl, Bool, true, false, List, [], ◌∷◌, ◌++◌, length, map, codes,
  if◌then◌else◌, some, arith, take,
}
use tw_server.Stream.{moved, nothing}
use tw_server.Stream.Laws.{transfers}
use tw_server.Http.Message.{
  new_request, dump_respond, dump_version, to_decimal, connection_line, dump_body, dump_headers,
  HttpRequest,
}
use tw_server.Http.Tables.{http_status_to_string}
use tw_server.Http.Session.{Machine, recv_request, recv_head, recv_body}
use tw_server.Http.Serving.{Exchange, hello, respond_to, handle_client}
use tw_server.Http.Serving.Laws.{Taken, IsTaken, printed, requests, sent-handle_client}
use tw_server.Http.Serving.Pipelined.{TakesFront, pipelined_lost}
use tw_server.TcpServer

-- How many bytes there are up to the end of the first line.
abbrev first_line : List ℕ → ℕ
first_line [] = 0
first_line (c ∷ l) = let rest = 1 + first_line l in if c == 10 then 1 else rest

abbrev toy : Machine
toy = record {
  State = Bool;
  start = false;
  run = λ p bytes. (true, first_line bytes);
  has_error = λ p. false;
  is_finished = λ p. p;
  content_length = λ p. 0;
}

abbrev reply : List ℕ
reply = codes "HTTP/1.1 200 OK\r\nconnection: keep-alive\r\ncontent-length: 8\r\n\r\nhello tw"

reply_lem : dump_respond (respond_to true (17, false)) ≡ reply
unfolding dump_respond hello dump_version to_decimal http_status_to_string dump_headers
    connection_line dump_body
reply_lem = refl

reply_size : length (dump_respond (respond_to true (17, false))) ≡ 70
reply_size = rw reply_lem refl

abbrev get_data : Bool → HttpRequest
get_data p = new_request 17 false

-- The client sends a line, takes the response in two parts, and closes.
abbrev conversation : List Exchange
conversation =
    record {
      reads = moved (codes "a\n") ∷ [];
      writes = transfers (take 20 reply ∷ drop 20 reply ∷ []);
    }
    ∷ record { reads = nothing ∷ []; writes = [] }
    ∷ []

reply-Taken : Taken true (some (17, false)) (transfers (take 20 reply ∷ drop 20 reply ∷ []))
reply-Taken = (
  take 20 reply ∷ drop 20 reply ∷ [],
  refl,
  omega (arith, reply_size),
  (
    omega arith,
    omega (arith, reply_size),
    (omega arith, omega (arith, reply_size), omega (arith, reply_size)),
  ),
)

conversation-IsTaken : All (IsTaken toy get_data true) conversation
unfolding recv_request recv_head recv_body new_request
conversation-IsTaken = (reply-Taken, (tt, tt))

sent-handle_client_example :
    (handle_client toy get_data true conversation).sent
    ≡ map printed (TcpServer.handle_client true (requests toy get_data conversation))
sent-handle_client_example = sent-handle_client toy get_data true conversation conversation-IsTaken

takes_line : (b : List ℕ) → TakesFront toy true (codes "a\n") b
takes_line b = record { runs = refl; accepts = refl; ends = refl; no_body = refl }

-- The second of two lines in one read is lost.
pipelined_lost_example :
    handle_client toy get_data true
      (record { reads = moved (codes "a\n" ++ codes "b\n") ∷ []; writes = [] } ∷ conversation)
    ≡ handle_client toy get_data true
        (record { reads = moved (codes "a\n") ∷ []; writes = [] } ∷ conversation)
pipelined_lost_example =
    pipelined_lost toy get_data true true (codes "a\n") (codes "b\n") [] [] conversation
      (takes_line (codes "b\n")) (takes_line []) (omega arith) (omega arith)
