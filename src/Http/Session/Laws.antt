-- ===== src/Http/Session/Laws.antt =====
-- The body of a request (tw/http/http_session.cc).
use tw_server.Base.{
  ℕ, ◌-◌, ◌^◌, ◌<◌, ◌≡◌, refl, ◌∙◌, ap, sym, subst, ◌∷◌, Bool-cases, inl, inr, true, false, List,
  [], length, take, take_all, ltb, leb, ◌==◌, arith,
}
use tw_server.Stream.Laws.{Delivers, transfers, pieces_from, read_pieces}
use tw_server.Http.Session.{
  Machine, with_body, from_buffer, finish_body, is_positive_int, recv_body,
}

from_buffer_lem : (size : ℕ) (buffered : List ℕ) → from_buffer size buffered ≡ take size buffered
from_buffer_lem size buffered = elim (Bool-cases (leb (length buffered) size)) [
  | inl e ↦ rw e (sym (take_all size buffered (ground arith)))
  | inr e ↦ rw e refl
]

nothing_left : (l : List (List ℕ)) → Delivers l 0 → l ≡ []
nothing_left [] d = refl
nothing_left (bytes ∷ l) d = absurd (omega (arith, d.0, d.1))

-- A body of a length within the int64_t range, of which less than 2^31 bytes are still to come, is
-- what the buffer still holds, up to that length, and behind it the rest as the transport delivers
-- it, where it does so in parts that are not empty. Bytes of the buffer behind the body are
-- dropped.
pub recv_body_lem :
    (m : Machine) (p : m.State) (buffered : List ℕ) (l : List (List ℕ))
    → 0 < m.content_length p
    → m.content_length p < 2 ^ 63
    → m.content_length p - length buffered < 2 ^ 31
    → Delivers l (m.content_length p - length buffered)
    → recv_body m p buffered (transfers l)
      ≡ with_body p (take (m.content_length p) buffered) (pieces_from (length buffered) l)
unfolding recv_body
recv_body_lem m p buffered l pos range rest d =
    let size = m.content_length p in
    let some_body : (size == 0) ≡ false = ground arith in
    let in_range : leb (2 ^ 63) size ≡ false = ground arith in
    elim (Bool-cases (ltb (length buffered) size)) [
      | inl e ↦
          let all_front : from_buffer size buffered ≡ buffered =
            from_buffer_lem size buffered ∙ take_all size buffered (ground arith) in
          let positive : is_positive_int (size - length buffered) ≡ true = ground (arith, e) in
          rw (some_body, in_range, e, all_front, take_all size buffered (ground arith))
            (ap (finish_body p buffered (size - length buffered))
                (read_pieces l (length buffered) (size - length buffered) [] (ground arith) d)
              ∙ rw positive refl)
      | inr e ↦
          let none_left : l ≡ [] = nothing_left l (subst (Delivers l) (ground arith) d) in
          rw (some_body, in_range, e, none_left)
            (ap (λ front. with_body p front []) (from_buffer_lem size buffered))
    ]
