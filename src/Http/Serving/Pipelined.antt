-- ===== src/Http/Serving/Pipelined.antt =====
-- Requests that come in one read (tw/http/http_session.cc, tw/http/http_server.cc).
use tw_server.Base.{
  ℕ, ◌≤◌, ◌<◌, ◌≡◌, refl, ap, sym, ◌∙◌, Bool, true, false, List, [], ◌∷◌, ◌++◌, length, drop, ltb,
  ◌==◌, length-append, append-nil, arith,
}
use tw_server.Stream.{Transfer, moved}
use tw_server.Http.Message.{HttpRequest}
use tw_server.Http.Session.{Machine, head_only, recv_request, recv_head, recv_body, buffer_size}
use tw_server.Http.Serving.{Exchange, serve, handle_client}

drop-append : (a b : List ℕ) → drop (length a) (a ++ b) ≡ b
drop-append [] b = refl
drop-append (x ∷ a) b = drop-append a b

-- The machine takes the request at the front of the bytes, which has no body, and no more.
pub record TakesFront (m : Machine) (p : m.State) (a b : List ℕ) : Type 0 where
  pub runs : m.run m.start (a ++ b) ≡ (p, length a)
  pub accepts : m.has_error p ≡ false
  pub ends : m.is_finished p ≡ true
  pub no_body : m.content_length p ≡ 0

recv_front :
    (m : Machine) (p : m.State) (a b : List ℕ) (script : List Transfer)
    → TakesFront m p a b
    → 0 < length a
    → length (a ++ b) ≤ buffer_size
    → recv_request m (moved (a ++ b) ∷ script) ≡ head_only p
unfolding recv_request recv_head recv_body
recv_front m p a b script t pos fits =
    let enough : ltb (length (a ++ b)) (length a) ≡ false = ground (arith, length-append a b) in
    let room : (length b == buffer_size) ≡ false = ground (arith, length-append a b) in
    rw (t.runs, enough, t.accepts, drop-append a b, room, t.ends, t.no_body) refl

-- Where a request without a body and further bytes come in one read, the client is answered as if
-- the further bytes had never come: a second request among them is lost, on a connection that is
-- kept too.
pub pipelined_lost :
    (m : Machine) (get_data : m.State → HttpRequest) (keepalive : Bool) (p : m.State) (a b : List ℕ)
    (script writes : List Transfer) (xs : List Exchange)
    → TakesFront m p a b
    → TakesFront m p a []
    → 0 < length a
    → length (a ++ b) ≤ buffer_size
    → handle_client m get_data keepalive
        (record { reads = moved (a ++ b) ∷ script; writes = writes } ∷ xs)
      ≡ handle_client m get_data keepalive
          (record { reads = moved a ∷ script; writes = writes } ∷ xs)
unfolding handle_client
pipelined_lost m get_data keepalive p a b script writes xs t u pos fits =
    let rest = handle_client m get_data keepalive xs in
    let alone : recv_request m (moved a ∷ script) ≡ head_only p =
      ap (λ bytes. recv_request m (moved bytes ∷ script)) (sym (append-nil a))
      ∙ recv_front m p a [] script u pos
          (omega (arith, length-append a b, ap length (append-nil a), fits)) in
    ap (λ r. serve m get_data keepalive r writes rest)
      (recv_front m p a b script t pos fits ∙ sym alone)
