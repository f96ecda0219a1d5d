-- ===== src/Http/Message/Connection.antt =====
-- The connection line of a printed message (tw/http/http.cc).
use tw_server.Base.{ℕ, ◌≡◌, true, false, List, [], ◌∷◌, codes, Bool-cases, inl, inr}
use tw_server.Http.Headers.{Map, insert, key_less}
use tw_server.Http.Headers.Laws.{key_less_left, key_less_right}
use tw_server.Http.Message.{
  HttpRequest, HttpRespond, set_header, set_respond_header, dump_headers, dump_request,
  dump_respond, is_connection,
}

same_connection :
    (k j : List ℕ)
    → key_less j k ≡ false
    → key_less k j ≡ false
    → is_connection k ≡ true
    → is_connection j ≡ true
same_connection k j p q h =
    rw (key_less_left j k (codes "connection") p q, key_less_right j k (codes "connection") p q) h

dump_headers-insert :
    (k v : List ℕ) (m : Map) → is_connection k ≡ true → dump_headers (insert k v m) ≡ dump_headers m
unfolding dump_headers insert
dump_headers-insert k v [] h = rw h
dump_headers-insert k v ((j, w) ∷ m) h = elim (Bool-cases (key_less j k)) [
  | inl e ↦ rw (e, dump_headers-insert k v m h)
  | inr e ↦ elim (Bool-cases (key_less k j)) [
    | inl f ↦ rw (e, f, h)
    | inr f ↦ rw (e, f, same_connection k j e f h)
  ]
]

-- A connection header, however it is spelled, never reaches the printed message: that line comes
-- from the flag alone.
dump-set_header :
    (k v : List ℕ) (r : HttpRequest) (s : HttpRespond)
    → is_connection k ≡ true
    → (dump_request (set_header k v r) ≡ dump_request r)
      × (dump_respond (set_respond_header k v s) ≡ dump_respond s)
unfolding dump_request dump_respond set_header set_respond_header
dump-set_header k v r s h =
    (rw (dump_headers-insert k v r.headers h), rw (dump_headers-insert k v s.headers h))
