-- ===== src/Http/Examples.antt =====
-- Runs on small messages (tw/http/http.cc, tw/http/http_parser.cc).
use tw_server.Base.{ℕ, false, ◌≡◌, refl, true, [], ◌∷◌, codes, arith}
use tw_server.Http.Session.{Machine, recv_body, with_body}
use tw_server.Http.Session.Laws.{recv_body_lem}
use tw_server.Stream.Laws.{transfers, pieces_from}
use tw_server.Http.Headers.{Map}

-- A machine whose state is the length of the body.
abbrev toy : Machine
toy = record {
  State = ℕ;
  start = 5;
  run = λ p bytes. (p, 0);
  has_error = λ p. false;
  is_finished = λ p. true;
  content_length = λ p. p;
}

recv_body_lem_example :
    recv_body toy 5 (codes "he") (transfers (codes "l" ∷ codes "lo" ∷ []))
    ≡ with_body 5 (codes "he") (pieces_from 2 (codes "l" ∷ codes "lo" ∷ []))
recv_body_lem_example =
    recv_body_lem toy 5 (codes "he") (codes "l" ∷ codes "lo" ∷ []) (omega arith) (omega arith)
      (omega arith) (omega arith, omega arith, (omega arith, omega arith, refl))

abbrev two_headers : Map
two_headers = (codes "Accept", codes "a") ∷ (codes "host", codes "h") ∷ []
