-- ===== src/Socket/Lifetime.antt =====
-- The descriptors of a socket over its life (tw/socket.cc).
use tw_server.Base.{
  ℕ, ◌≡◌, refl, sym, ◌∙◌, subst, Bool, true, false, not, List, [], ◌∷◌, ◌++◌, Option, none, some,
  if◌then◌else◌, Outcome, ok, fail, ◌>>=◌, inl, inr, Bool-cases, Option-cases,
}
use tw_server.Socket.{
  Family, Name, Socket, Answers, Effect, opened, closed, Done, new_socket, is_valid, fetch_name,
  get_local_address, get_remote_address, new_sock, ensure_valid, close, bind, connected, connect,
}

-- A descriptor is opened only while there is none, and the one that is closed is the one there is.
abbrev pub Balanced : Option ℕ → List Effect → Option ℕ → Type 0
Balanced o [] p = o ≡ p
Balanced o (opened fd ∷ l) p = (o ≡ none) × Balanced (some fd) l p
Balanced o (closed fd ∷ l) p = (o ≡ some fd) × Balanced none l p

Balanced-append :
    (o p q : Option ℕ) (l m : List Effect) → Balanced o l p → Balanced p m q → Balanced o (l ++ m) q
Balanced-append o p q [] m h k = subst (λ o. Balanced o m q) (sym h) k
Balanced-append o p q (opened fd ∷ l) m h k = (h.0, Balanced-append (some fd) p q l m h.1 k)
Balanced-append o p q (closed fd ∷ l) m h k = (h.0, Balanced-append none p q l m h.1 k)

-- A connected socket has a descriptor.
abbrev pub IsSound : Socket → Type 0
IsSound s = s.is_connected ≡ true → is_valid s ≡ true

abbrev pub IsKept : Socket → Done → Type 0
IsKept s d = Balanced s.sock d.effects d.socket.sock × IsSound d.socket

abbrev Holds : (Done → Type 0) → Outcome Done → Type 0
Holds P (ok d) = P d
Holds P (fail f) = Unit

if-Holds :
    (P : Done → Type 0) (b : Bool) (o p : Outcome Done)
    → Holds P o
    → Holds P p
    → Holds P (if b then o else p)
if-Holds P true o p h k = h
if-Holds P false o p h k = k

local-Holds :
    (P : Done → Type 0) (k : Answers) (s : Socket) (f : Socket → Outcome Done)
    → ((n : Option Name) → Holds P (f (record s { local_address = n })))
    → Holds P (get_local_address k s >>= f)
unfolding get_local_address
local-Holds P k s f h = go (fetch_name s.family k.getsockname s.local_address)
  where
    go :
        (o : Outcome (Option Name))
        → Holds P ((o >>= λ n. ok (record s { local_address = n })) >>= f)
    go (ok n) = h n
    go (fail e) = tt

remote-Holds :
    (P : Done → Type 0) (k : Answers) (s : Socket) (f : Socket → Outcome Done)
    → ((n : Option Name) → Holds P (f (record s { remote_address = n })))
    → Holds P (get_remote_address k s >>= f)
unfolding get_remote_address
remote-Holds P k s f h = go (fetch_name s.family k.getpeername s.remote_address)
  where
    go :
        (o : Outcome (Option Name))
        → Holds P ((o >>= λ n. ok (record s { remote_address = n })) >>= f)
    go (ok n) = h n
    go (fail e) = tt

no_sock : (o : Option ℕ) → (elim o [ none ↦ false | some fd ↦ true ]) ≡ false → o ≡ none
no_sock none e = refl
no_sock (some fd) e = cc

new_sock-IsKept :
    (k : Answers) (s : Socket) → is_valid s ≡ false → IsSound s → IsKept s (new_sock k s)
unfolding new_sock
new_sock-IsKept k s e h =
    let empty : s.sock ≡ none = no_sock s.sock e in
    elim (Option-cases k.socket) [
      | inl a ↦ rw a (empty, λ c. sym e ∙ h c)
      | inr (fd, a) ↦ rw a ((empty, refl), λ c. refl)
    ]

ensure_valid-IsKept : (k : Answers) (s : Socket) → IsSound s → IsKept s (ensure_valid k s)
unfolding ensure_valid
ensure_valid-IsKept k s h = elim (Bool-cases (is_valid s)) [
  | inl e ↦ rw e (refl, h)
  | inr e ↦ rw e (new_sock-IsKept k s e h)
]

close-IsKept : (s : Socket) → IsKept s (close s)
unfolding close
close-IsKept s = elim (Option-cases s.sock) [
  | inl e ↦ elim (Bool-cases s.is_connected) [
    | inl f ↦ rw (e, f) (refl, λ c. cc)
    | inr f ↦ rw (e, f) (refl, λ c. cc)
  ]
  | inr (fd, e) ↦ elim (Bool-cases s.is_connected) [
    | inl f ↦ rw (e, f) ((refl, refl), λ c. cc)
    | inr f ↦ rw (e, f) ((refl, refl), λ c. cc)
  ]
]

bind-IsKept : (k : Answers) (b : Bool) (s : Socket) → IsSound s → Holds (IsKept s) (bind k b s)
unfolding bind
bind-IsKept k b s h =
    let d = ensure_valid k s in
    let kept = ensure_valid-IsKept k s h in
    if-Holds (IsKept s) (not d.result) _ _ kept (
      if-Holds (IsKept s) (not b) _ _ kept (
        if-Holds (IsKept s) (not k.bind) _ _ kept (
          local-Holds (IsKept s) k d.socket (λ s'. ok (record d { socket = s'; result = true }))
            (λ n. kept))))

connected-IsKept :
    (k : Answers) (s : Socket) (d : Done)
    → IsKept s d
    → is_valid d.socket ≡ true
    → Holds (IsKept s) (connected k d)
unfolding connected
connected-IsKept k s d h v =
    let (shut, sound) = close-IsKept d.socket in
    if-Holds (IsKept s) (not k.connect) _ _
      (
        Balanced-append s.sock d.socket.sock (close d.socket).socket.sock d.effects
            (close d.socket).effects h.0 shut,
        sound,
      )
      (local-Holds (IsKept s) k (record d.socket { is_connected = true }) _
        (λ n.
          remote-Holds (IsKept s) k (record d.socket { is_connected = true; local_address = n }) _
            (λ m. (h.0, λ c. v))))

ensure_valid_lem :
    (k : Answers) (s : Socket) → (ensure_valid k s).result ≡ is_valid (ensure_valid k s).socket
unfolding ensure_valid new_sock
ensure_valid_lem k s = elim (Bool-cases (is_valid s)) [ inl e ↦ rw e (sym e) | inr e ↦ rw e refl ]

connect-IsKept :
    (k : Answers) (b : Bool) (s : Socket) → IsSound s → Holds (IsKept s) (connect k b s)
unfolding connect
connect-IsKept k b s h =
    let d = ensure_valid k s in
    let kept = ensure_valid-IsKept k s h in
    elim (Bool-cases d.result) [
      | inr e ↦ rw e kept
      | inl e ↦ rw e (
          if-Holds (IsKept s) (not b) _ (connected k d) kept
            (connected-IsKept k s d kept (sym (ensure_valid_lem k s) ∙ e)))
    ]

-- A life of a socket: binding, connecting and closing, whatever the system answers.
pub data Step (s : Socket) : Done → Type 0 where
  binds : (k : Answers) (b : Bool) (d : Done) → bind k b s ≡ ok d → Step s d
  connects : (k : Answers) (b : Bool) (d : Done) → connect k b s ≡ ok d → Step s d
  closes : Step s (close s)

-- With what has happened to descriptors so far.
pub data Life (f : Family) : List Effect → Socket → Type 0 where
  born : Life f [] (new_socket f)
  next :
      {l : List Effect} {s : Socket} {d : Done}
      → Life f l s
      → Step s d
      → Life f (l ++ d.effects) d.socket

Step-IsKept : {s : Socket} {d : Done} → Step s d → IsSound s → IsKept s d
Step-IsKept {s} (binds k b d e) h = subst (Holds (IsKept s)) e (bind-IsKept k b s h)
Step-IsKept {s} (connects k b d e) h = subst (Holds (IsKept s)) e (connect-IsKept k b s h)
Step-IsKept {s} closes h = close-IsKept s

Life-Balanced :
    {f : Family} {l : List Effect} {s : Socket} → Life f l s → Balanced none l s.sock × IsSound s
unfolding new_socket
Life-Balanced born = (refl, λ c. cc)
Life-Balanced (next {l} {s} {d} r st) =
    let (so_far, sound) = Life-Balanced r in
    let (kept, sound') = Step-IsKept st sound in
    (Balanced-append none s.sock d.socket.sock l d.effects so_far kept, sound')

close_empties : (s : Socket) → (close s).socket.sock ≡ none
unfolding close
close_empties s = elim (Option-cases s.sock) [
  | inl e ↦ elim (Bool-cases s.is_connected) [ inl f ↦ rw (e, f) refl | inr f ↦ rw (e, f) refl ]
  | inr (fd, e) ↦ elim (Bool-cases s.is_connected) [
    | inl f ↦ rw (e, f) refl
    | inr f ↦ rw (e, f) refl
  ]
]

-- Over the whole life of a socket, which its destructor ends with `close`, a descriptor is opened
-- only while there is none, every one that was opened is closed, and none twice.
pub Life-close :
    {f : Family} {l : List Effect} {s : Socket}
    → Life f l s
    → Balanced none (l ++ (close s).effects) none
Life-close {l = l} {s} r =
    let (so_far, _) = Life-Balanced r in
    let (kept, _) = close-IsKept s in
    Balanced-append none s.sock none l (close s).effects so_far
      (subst (Balanced s.sock (close s).effects) (close_empties s) kept)
