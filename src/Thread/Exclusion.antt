-- ===== src/Thread/Exclusion.antt =====
-- Mutual exclusion by the guards of tw/thread.h, in every interleaving of the threads that use
-- them.
use tw_server.Base.{
  All, if◌then◌else◌, ℕ, zero, suc, ◌+◌, ◌≤◌, ◌≡◌, ◌≢◌, ◌⊎◌, inl, refl, ap, sym, ◌∙◌, of_some, Bool,
  true, false, List, [], ◌∷◌, Option, none, some, get_elem?, arith,
}
use tw_server.Thread.{Call, rdlock, wrlock, Kind, scoped, reading, writing, Guard}
use tw_server.Thread.Guards.{
  Lock, Op, plan, reads, writes, total, Effect, nothing, reader_in, lock_in, writer_in, reader_out,
  writer_out, plan-Changes,
}

module _ (l : Lock) where
  open l use {State, readers, writers, refuses, perform, free}

  -- The result of a call is not looked at, so after an error the guard goes on as after success.
  perform_all : List Call → State → Option State
  perform_all [] m = some m
  perform_all (c ∷ cs) m =
      if refuses c m
      then perform_all cs m
      else elim (perform c m) [ none ↦ none | some m' ↦ perform_all cs m' ]

  -- No call is refused.
  abbrev AllAccepted : List Call → State → Type 0
  AllAccepted cs m = All (λ c. refuses c m ≡ false) cs

  -- An operation whose call has to wait changes nothing yet.
  settle : State × List Guard → List Guard → Option State → State × List Guard
  settle s gs none = s
  settle s gs (some m) = (m, gs)

  unfoldable pub step : Op → State × List Guard → State × List Guard
  unfolding perform_all settle plan
  step op s = settle s (plan op (s.1)).0 (perform_all (plan op (s.1)).1 (s.0))

  -- The operations of all threads, in the order in which they happen.
  unfoldable pub run : List Op → State × List Guard → State × List Guard
  unfolding step
  run [] s = s
  run (op ∷ ops) s = run ops (step op s)

  -- No operation has a call that the mutex refuses: of the calls that an operation makes, in the
  -- state in which it makes them.
  unfoldable pub IsAccepted : List Op → State × List Guard → Type 0
  unfolding run
  IsAccepted [] s = Unit
  IsAccepted (op ∷ ops) s = AllAccepted (plan op (s.1)).1 (s.0) × IsAccepted ops (step op s)

  -- The guards that are locked are those that hold the mutex, and a writer is alone.
  pub record IsHeld (s : State × List Guard) : Type 0 where
    pub readers_lem : readers (s.0) ≡ total reads (s.1)
    pub writers_lem : writers (s.0) ≡ total writes (s.1)
    pub alone : (total writes (s.1) ≡ 0) ⊎ ((total writes (s.1) ≡ 1) × (total reads (s.1) ≡ 0))

  through : (o : Option State) → elim o [ none ↦ none | some m' ↦ some m' ] ≡ o
  through none = refl
  through (some m) = refl

  unmoved : (m m' : State) → perform_all [] m ≡ some m' → m ≡ m'
  unfolding perform_all
  unmoved m m' e = of_some e

  single :
      (c : Call) (m m' : State)
      → AllAccepted (c ∷ []) m
      → perform_all (c ∷ []) m ≡ some m'
      → perform c m ≡ some m'
  unfolding perform_all
  single c m m' a e = let accepted = a.0 in sym (rw accepted (through (perform c m))) ∙ e

  Effect-IsHeld :
      (m m' : State) (gs gs' : List Guard) (cs : List Call)
      → IsHeld (m, gs)
      → AllAccepted cs m
      → perform_all cs m ≡ some m'
      → Effect (total reads gs) (total writes gs) (total reads gs') (total writes gs') cs
      → IsHeld (m', gs')
  Effect-IsHeld m m' gs gs' cs h a e (nothing p q) =
      let i = unmoved m m' e in
      let r = ap readers i in
      let w = ap writers i in ground (arith, r, w, h.readers_lem, h.writers_lem, h.alone)
  Effect-IsHeld m m' gs gs' cs h a e (reader_in p q) =
      let k = l.rdlock_lem m m' (single rdlock m m' a e) in
      ground (arith, h, k, h.readers_lem, h.writers_lem, h.alone)
  Effect-IsHeld m m' gs gs' cs h a e (lock_in p q) =
      let k = l.lock_lem m m' (single Call.lock m m' a e) in
      ground (arith, k, h.readers_lem, h.writers_lem, h.alone)
  Effect-IsHeld m m' gs gs' cs h a e (writer_in p q) =
      let k = l.wrlock_lem m m' (single wrlock m m' a e) in
      ground (arith, k, h.readers_lem, h.writers_lem, h.alone)
  Effect-IsHeld m m' gs gs' cs h a e (reader_out p q) =
      let k =
        l.unlock_reader m m' (single Call.unlock m m' a e)
          (ground (arith, h.writers_lem, h.alone)) in
      ground (arith, k, h.readers_lem, h.writers_lem, h.alone)
  Effect-IsHeld m m' gs gs' cs h a e (writer_out p q) =
      let k =
        l.unlock_writer m m' (single Call.unlock m m' a e)
          (ground (arith, h.writers_lem, h.alone)) in
      ground (arith, k, h.readers_lem, h.writers_lem, h.alone)

  settle-IsHeld :
      (s : State × List Guard) (gs' : List Guard) (cs : List Call) (o : Option State)
      → IsHeld s
      → AllAccepted cs (s.0)
      → perform_all cs (s.0) ≡ o
      → Effect (total reads (s.1)) (total writes (s.1)) (total reads gs') (total writes gs') cs
      → IsHeld (settle s gs' o)
  unfolding settle
  settle-IsHeld s gs' cs none h a e k = h
  settle-IsHeld s gs' cs (some m) h a e k = Effect-IsHeld (s.0) m (s.1) gs' cs h a e k

  step-IsHeld :
      (op : Op) (s : State × List Guard)
      → AllAccepted (plan op (s.1)).1 (s.0)
      → IsHeld s
      → IsHeld (step op s)
  unfolding step
  step-IsHeld op s a h =
      settle-IsHeld s (plan op (s.1)).0 (plan op (s.1)).1 _ h a refl (plan-Changes op (s.1))

  run-IsHeld :
      (ops : List Op) (s : State × List Guard) → IsAccepted ops s → IsHeld s → IsHeld (run ops s)
  unfolding run IsAccepted
  run-IsHeld [] s a h = h
  run-IsHeld (op ∷ ops) s a h = run-IsHeld ops (step op s) (a.1) (step-IsHeld op s (a.0) h)

  free-IsHeld : IsHeld (free, [])
  free-IsHeld = record { readers_lem = l.free_lem.0; writers_lem = l.free_lem.1; alone = inl refl }

total_one :
    (w : Guard → ℕ) (gs : List Guard) (i : ℕ) (g : Guard)
    → get_elem? gs i ≡ some g
    → w g ≤ total w gs
total_one w [] i g e = cc
total_one w (x ∷ gs) zero g e = omega (arith, ap w (of_some e))
total_one w (x ∷ gs) (suc i) g e = omega (arith, total_one w gs i g e)

-- Two guards at different places both count.
total_two :
    (w : Guard → ℕ) (gs : List Guard) (i j : ℕ) (g k : Guard)
    → get_elem? gs i ≡ some g
    → get_elem? gs j ≡ some k
    → i ≢ j
    → w g + w k ≤ total w gs
total_two w [] i j g k e f ne = cc
total_two w (x ∷ gs) zero zero g k e f ne = absurd (ne refl)
total_two w (x ∷ gs) zero (suc j) g k e f ne = omega (arith, ap w (of_some e), total_one w gs j k f)
total_two w (x ∷ gs) (suc i) zero g k e f ne = omega (arith, ap w (of_some f), total_one w gs i g e)
total_two w (x ∷ gs) (suc i) (suc j) g k e f ne =
    omega (arith, total_two w gs i j g k e f (λ h. ne (ap suc h)))

abbrev writer : Kind → Bool
writer reading = false
writer scoped = true
writer writing = true

locked_writes :
    (k : Kind) (b : Bool)
    → b ≡ true
    → writer k ≡ true
    → writes (record { kind = k; locked = b }) ≡ 1
locked_writes scoped b e f = rw e refl
locked_writes writing b e f = rw e refl
locked_writes reading b e f = cc

uncounted :
    (k : Kind) (b : Bool)
    → reads (record { kind = k; locked = b }) ≡ 0
    → writes (record { kind = k; locked = b }) ≡ 0
    → b ≡ false
uncounted k false r w = refl
uncounted scoped true r w = absurd (omega arith)
uncounted reading true r w = absurd (omega arith)
uncounted writing true r w = absurd (omega arith)

-- However the operations of the threads on guards of one mutex follow one another, while a
-- ScopedLock or a WriteLock on it is locked no other guard on it is, where none of their calls of
-- the mutex returns an error. The mutex is one whose other calls, where they do not wait, do what
-- the C library promises.
pub run_exclusive :
    (l : Lock) (ops : List Op) (i j : ℕ) (g k : Guard)
    → IsAccepted l ops (l.free, [])
    → get_elem? (run l ops (l.free, [])).1 i ≡ some g
    → get_elem? (run l ops (l.free, [])).1 j ≡ some k
    → i ≢ j
    → writer g.kind ≡ true
    → g.locked ≡ true
    → k.locked ≡ false
run_exclusive l ops i j g k accepted at at' ne w on =
    let gs = (run l ops (l.free, [])).1 in
    let h = run-IsHeld l ops (l.free, []) accepted (free-IsHeld l) in
    let one = locked_writes g.kind g.locked on w in
    let ws = total_two writes gs i j g k at at' ne in
    let rs = total_two reads gs i j g k at at' ne in
    let alone = h.alone in
    uncounted k.kind k.locked (ground (arith, one, ws, rs, alone))
      (ground (arith, one, ws, rs, alone))
