-- ===== src/Http/Serving/Sent.antt =====
-- The bytes that the client gets from writeFixSize (tw/stream.cc, tw/http/http_session.cc).
use tw_server.Base.{
  ℕ, ◌+◌, ◌-◌, ◌^◌, ◌≤◌, ◌<◌, ◌≡◌, refl, ap, sym, ◌∙◌, List, [], ◌∷◌, ◌++◌, length, take, drop,
  drop_all, drop-drop, take-append_drop, arith, subst,
}
use tw_server.Stream.{Transfer, failed, nothing, moved, whole, read_fix_size, write_fix_size}
use tw_server.Stream.Laws.{Delivers, transfers, pieces_from, read_fix_size_whole}
use tw_server.Http.Message.{HttpRespond, dump_respond}
use tw_server.Http.Serving.{send_respond, on_wire}

-- The two loops on a void buffer are the same.
write-read :
    (script : List Transfer) (offset left : ℕ) (pieces : List (ℕ × List ℕ))
    → write_fix_size script offset left pieces ≡ read_fix_size script offset left pieces
unfolding write_fix_size read_fix_size
write-read [] offset left pieces = refl
write-read (failed ∷ script) offset left pieces = rw (write-read script _ _ pieces) refl
write-read (nothing ∷ script) offset left pieces = refl
write-read (moved bytes ∷ script) offset left pieces = rw (write-read script _ _ _) refl

wire_pieces :
    (l : List (List ℕ)) (offset : ℕ) (text : List ℕ)
    → offset ≤ length text
    → Delivers l (length text - offset)
    → on_wire text (pieces_from offset l) ≡ drop offset text
wire_pieces [] offset text h d = sym (drop_all offset text (omega (arith, d)))
wire_pieces (bytes ∷ l) offset text h d =
    ap (λ t. take (length bytes) (drop offset text) ++ t)
      (wire_pieces l (offset + length bytes) text (omega (arith, d.1))
          (subst (Delivers l) (omega arith) (d.2))
        ∙ sym (drop-drop (length bytes) offset text))
    ∙ take-append_drop (length bytes) (drop offset text)

-- However the writes cut a printed response up, where each takes at least a byte and together they
-- take all, sendRespond ends, and the client gets exactly the printed response.
pub send_respond_lem :
    (res : HttpRespond) (l : List (List ℕ))
    → length (dump_respond res) < 2 ^ 64
    → Delivers l (length (dump_respond res))
    → (pieces : List (ℕ × List ℕ)) × (send_respond res (transfers l) ≡ whole pieces)
      × (on_wire (dump_respond res) pieces ≡ dump_respond res)
unfolding send_respond
send_respond_lem res l h d =
    let text = dump_respond res in
    (
      pieces_from 0 l,
      write-read (transfers l) 0 (length text) [] ∙ read_fix_size_whole l (length text) h d,
      wire_pieces l 0 text (omega arith) (subst (Delivers l) (omega arith) d),
    )
