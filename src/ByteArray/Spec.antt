-- ===== src/ByteArray/Spec.antt =====
-- What a ByteArray is for its users: a text and a place in it (tw/bytearray.h). Programs of writes,
-- reads, changes of position and clears run on it as on the blocks.
use tw_server.Base.{
  ℕ, ◌+◌, ◌≤◌, ◌<◌, ◌≡◌, refl, ap, sym, ◌∙◌, ◌&&◌, List, [], ◌∷◌, Option, none, some, length, take,
  leb, if◌then◌else◌, Bool-cases, of_some, inl, inr, subst, Outcome, ok, ◌>>=◌, arith, length-take,
}
use tw_server.ByteArray.Bytes.{slice}
use tw_server.ByteArray.{ByteArray, Allocator, write, read, set_position, clear}
use tw_server.ByteArray.Invariant.{IsValid, memory}
use tw_server.ByteArray.Room.{content, splice, HasRoom}
use tw_server.ByteArray.Capacity.{length-memory}
use tw_server.ByteArray.WriteLaws.{write-WroteAt}
use tw_server.ByteArray.ReadLaws.{read-ReadAt}
use tw_server.ByteArray.Seek.{set_position-At, clear_lem}

pub record Text : Type 0 where
  pub bytes : List ℕ
  pub place : ℕ

pub data Command : Type 0 where
  put : List ℕ → Command
  get : ℕ → Command
  move : ℕ → Command
  empty : Command

-- What a command does to a text and what it gives; `none` where the text does not allow it.
abbrev pub spec_step : Command → Text → Option (Text × List ℕ)
spec_step (put vs) t =
    some (record { bytes = splice t.place vs t.bytes; place = t.place + length vs }, [])
spec_step (get n) t =
    if leb 1 n && leb (t.place + n) (length t.bytes)
    then some (record t { place = t.place + n }, slice t.place n t.bytes)
    else none
spec_step (move v) t = if leb v (length t.bytes) then some (record t { place = v }, []) else none
spec_step empty t = some (record { bytes = []; place = 0 }, [])

abbrev pub with_out : List ℕ → Option (Text × List (List ℕ)) → Option (Text × List (List ℕ))
with_out out none = none
with_out out (some r) = some (r.0, out ∷ r.1)

abbrev pub and_then :
    Option (Text × List ℕ) → (Text → Option (Text × List (List ℕ))) → Option (Text × List (List ℕ))
and_then none f = none
and_then (some (t, out)) f = with_out out (f t)

abbrev pub spec_run : List Command → Text → Option (Text × List (List ℕ))
spec_run [] t = some (t, [])
spec_run (c ∷ cs) t = and_then (spec_step c t) (spec_run cs)

module _ (a : Allocator) where
  abbrev pub step : Command → ByteArray → Outcome (ByteArray × List ℕ)
  step (put vs) s = write a vs s >>= λ s'. ok (s', [])
  step (get n) s = read n s >>= λ r. ok (r.1, r.0)
  step (move v) s = set_position v s >>= λ s'. ok (s', [])
  step empty s = ok (clear s, [])

  abbrev pub run : List Command → ByteArray → Outcome (ByteArray × List (List ℕ))
  run [] s = ok (s, [])
  run (c ∷ cs) s = step c s >>= λ r. run cs (r.0) >>= λ r'. ok (r'.0, r.1 ∷ r'.1)

  abbrev pub RoomyStep : Command → ByteArray → Type 0
  RoomyStep (put vs) s = HasRoom s (length vs)
  RoomyStep c s = Unit

  -- Each write of a run has room.
  abbrev pub Roomy : List Command → ByteArray → Type 0
  Roomy [] s = Unit
  Roomy (c ∷ cs) s =
      RoomyStep c s × ((s' : ByteArray) (out : List ℕ) → step c s ≡ ok (s', out) → Roomy cs s')

-- The text of an object.
abbrev pub text : ByteArray → Text
text s = record { bytes = content s; place = s.position }

length-content : (s : ByteArray) → IsValid s → length (content s) ≡ s.size
length-content s v = omega (arith, length-take s.size (memory s), length-memory s v, v.size-le)

abbrev Simulated : Allocator → Command → ByteArray → Text × List ℕ → Type 0
Simulated a c s r = (s' : ByteArray) × (step a c s ≡ ok (s', r.1)) × IsValid s' × (text s' ≡ r.0)

text_path :
    (b c : List ℕ) (i j : ℕ)
    → b ≡ c
    → i ≡ j
    → ◌≡◌ {A = Text} (record { bytes = b; place = i }) (record { bytes = c; place = j })
text_path b c i j e f = cc

put-Simulated :
    (a : Allocator) (vs : List ℕ) (s : ByteArray)
    → IsValid s
    → HasRoom s (length vs)
    → Simulated a
        (put vs)
        s
        (record { bytes = splice s.position vs (content s); place = s.position + length vs }, [])
put-Simulated a vs s v room =
    let (s', w, k) = write-WroteAt a vs s v room in
    (s', rw w refl, k.valid, text_path _ _ _ _ k.content_lem k.position_lem)

get-Simulated :
    (a : Allocator) (n : ℕ) (s : ByteArray)
    → IsValid s
    → 0 < n
    → s.position + n ≤ s.size
    → Simulated a
        (get n)
        s
        (record { bytes = content s; place = s.position + n }, slice s.position n (content s))
get-Simulated a n s v pos fits =
    let (s', got, k) = read-ReadAt n s v pos fits in
    (s', rw got refl, k.valid, text_path _ _ _ _ k.content_same k.position_lem)

move-Simulated :
    (a : Allocator) (p : ℕ) (s : ByteArray)
    → IsValid s
    → p ≤ s.size
    → Simulated a (move p) s (record { bytes = content s; place = p }, [])
move-Simulated a p s v le =
    let (s', moved, k) = set_position-At p s v (omega (arith, v.size-le)) in
    let size : s'.size ≡ s.size = omega (arith, k.size_lem) in
    (
      s',
      rw moved refl,
      k.valid,
      text_path _ _ _ _ (ap (λ n. take n (memory s')) size ∙ ap (take s.size) k.memory_same)
          k.position_lem,
    )

empty-Simulated :
    (a : Allocator) (s : ByteArray)
    → IsValid s
    → Simulated a empty s (record { bytes = []; place = 0 }, [])
unfolding clear
empty-Simulated a s v =
    let (valid, none_left, len) = clear_lem s v in
    (clear s, refl, valid, text_path _ _ _ _ none_left refl)

step-spec_step :
    (a : Allocator) (c : Command) (s : ByteArray) (r : Text × List ℕ)
    → IsValid s
    → RoomyStep a c s
    → spec_step c (text s) ≡ some r
    → Simulated a c s r
step-spec_step a (put vs) s r v room e =
    subst (Simulated a (put vs) s) (of_some e) (put-Simulated a vs s v room)
step-spec_step a (get n) s r v room e =
    elim (Bool-cases (leb 1 n && leb (s.position + n) (length (content s)))) [
      | inl f ↦
          subst (Simulated a (get n) s) (of_some (rw f at e))
            (get-Simulated a n s v (ground (arith, f)) (ground (arith, f, length-content s v)))
      | inr f ↦ cc
    ]
step-spec_step a (move p) s r v room e = elim (Bool-cases (leb p (length (content s)))) [
  | inl f ↦
      subst (Simulated a (move p) s) (of_some (rw f at e))
        (move-Simulated a p s v (ground (arith, f, length-content s v)))
  | inr f ↦ cc
]
step-spec_step a empty s r v room e =
    subst (Simulated a empty s) (of_some e) (empty-Simulated a s v)

with_out-some :
    (out : List ℕ) (o : Option (Text × List (List ℕ))) (r : Text × List (List ℕ))
    → with_out out o ≡ some r
    → (r' : Text × List (List ℕ)) × (o ≡ some r') × (r ≡ (r'.0, out ∷ r'.1))
with_out-some out none r e = cc
with_out-some out (some r') r e = (r', refl, sym (of_some e))

and_then-some :
    (o : Option (Text × List ℕ)) (f : Text → Option (Text × List (List ℕ)))
    (r : Text × List (List ℕ))
    → and_then o f ≡ some r
    → (t : Text) × (out : List ℕ) × (r' : Text × List (List ℕ)) × (o ≡ some (t, out))
      × (f t ≡ some r')
      × (r ≡ (r'.0, out ∷ r'.1))
and_then-some none f r e = cc
and_then-some (some (t, out)) f r e =
    let (r', g, h) = with_out-some out (f t) r e in (t, out, r', refl, g, h)

-- Every program of writes, reads, changes of position and clears that the text of a valid object
-- allows runs on the object without a fault, where each write has room. It gives the same bytes and
-- leaves a valid object of the text that the program leaves.
pub run-spec_run :
    (a : Allocator) (cs : List Command) (s : ByteArray) (r : Text × List (List ℕ))
    → IsValid s
    → Roomy a cs s
    → spec_run cs (text s) ≡ some r
    → (s' : ByteArray) × (run a cs s ≡ ok (s', r.1)) × IsValid s' × (text s' ≡ r.0)
run-spec_run a [] s r v room e =
    (s, ap (λ o. ok (s, o.1)) (of_some e), v, ap (λ o. o.0) (of_some e))
run-spec_run a (c ∷ cs) s r v room e =
    let (t, out, r', first, later, all) = and_then-some (spec_step c (text s)) (spec_run cs) r e in
    let (s1, ran, v1, e1) = step-spec_step a c s (t, out) v room.0 first in
    let (s2, ran', v2, e2) =
      run-spec_run a cs s1 r' v1 (room.1 s1 out ran) (ap (spec_run cs) e1 ∙ later) in
    let both : run a (c ∷ cs) s ≡ ok (s2, out ∷ r'.1) = rw (ran, ran') refl in
    (s2, both ∙ ap (λ o. ok (s2, o.1)) (sym all), v2, e2 ∙ ap (λ o. o.0) (sym all))
