-- ===== src/SocketStream/Reading.antt =====
-- What readFixSize of a ByteArray leaves in it (tw/stream.cc, tw/socket_stream.cc).
use tw_server.Base.{
  ℕ, zero, suc, ◌+◌, ◌≡◌, refl, sym, ◌∙◌, true, List, [], ◌∷◌, Option, none, some, ◌==◌, Outcome,
  ok, fail, ◌>>=◌, Bool-cases, inl, inr, ltb, subst, arith,
}
use tw_server.Socket.{Socket, transfer}
use tw_server.ByteArray.{ByteArray}
use tw_server.ByteArray.Invariant.{IsValid, memory}
use tw_server.ByteArray.Seek.{set_position-At, set_position_too_far}
use tw_server.SocketStream.{
  Written, whole, zero_result, waiting, advance_by, after_write, read_array, read_fix_size_array,
}

-- A call that returns leaves the bytes of the object as they are.
abbrev Keeps : ByteArray → Outcome Written → Type 0
Keeps s (ok (whole s' out)) = memory s' ≡ memory s
Keeps s (ok (zero_result s' out)) = memory s' ≡ memory s
Keeps s (ok waiting) = Unit
Keeps s (fail f) = Unit

abbrev Next : Type 0
Next = ℕ → ByteArray → List ℕ → Outcome Written

Keeps-sym : (s s' : ByteArray) (o : Outcome Written) → memory s' ≡ memory s → Keeps s' o → Keeps s o
Keeps-sym s s' (ok (whole z out)) e k = k ∙ e
Keeps-sym s s' (ok (zero_result z out)) e k = k ∙ e
Keeps-sym s s' (ok waiting) e k = tt
Keeps-sym s s' (fail f) e k = tt

-- The position is moved, where it can be, and the loop goes on.
advance_by-Keeps :
    (answer : Option ℕ) (left : ℕ) (s : ByteArray) (again : Next)
    → IsValid s
    → ((n : ℕ) (s' : ByteArray) → IsValid s' → Keeps s' (again n s' []))
    → Keeps s (advance_by answer [] s >>= after_write again left [])
unfolding advance_by
advance_by-Keeps none left s again v h = h _ s v
advance_by-Keeps (some zero) left s again v h = refl
advance_by-Keeps (some (suc n)) left s again v h =
    elim (Bool-cases (ltb s.capacity (s.position + suc n))) [
      | inl e ↦
          subst
            (λ o. Keeps s ((o >>= λ s'. ok (s', some (suc n), [])) >>= after_write again left []))
            (sym (set_position_too_far (s.position + suc n) s e)) tt
      | inr e ↦
          let (s1, moved, at) = set_position-At (s.position + suc n) s v (ground (arith, e)) in
          subst
            (λ o. Keeps s ((o >>= λ s'. ok (s', some (suc n), [])) >>= after_write again left []))
            (sym moved) (Keeps-sym s s1 (again _ s1 []) at.memory_same (h _ s1 at.valid))
    ]

-- Whatever recvmsg answers, readFixSize of a valid ByteArray stores nothing: where it returns, with
-- the length too, the bytes of the object are those from before.
read_fix_size_array_stores_nothing :
    (sock : Socket) (script : List (Option ℕ)) (left : ℕ) (s : ByteArray)
    → sock.is_connected ≡ true
    → IsValid s
    → Keeps s (read_fix_size_array (some sock) script left s)
unfolding read_fix_size_array read_array transfer
read_fix_size_array_stores_nothing sock [] left s on v = elim (Bool-cases (left == 0)) [
  | inl e ↦ rw e refl
  | inr e ↦ rw e tt
]
read_fix_size_array_stores_nothing sock (a ∷ script) left s on v = elim (Bool-cases (left == 0)) [
  | inl e ↦ rw e refl
  | inr e ↦
      rw (e, on)
        (advance_by-Keeps _ left s (λ n s' out. read_fix_size_array (some sock) script n s') v
          (λ n s' v'. read_fix_size_array_stores_nothing sock script n s' on v'))
]
