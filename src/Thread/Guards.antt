-- ===== src/Thread/Guards.antt =====
-- Guards of several threads on one mutex (tw/thread.h): who holds it, in every interleaving.
use tw_server.Base.{
  ℕ, zero, suc, ◌+◌, ◌-◌, ◌≡◌, refl, Bool, true, false, List, [], ◌∷◌, ◌++◌, Option, some, arith,
}
use tw_server.Thread.{
  Call, rdlock, wrlock, Kind, scoped, reading, writing, Guard, new_guard, lock_guard, unlock_guard,
  drop_guard,
}

-- A mutex of the C library: who holds it, when a call returns an error, which changes nothing, and
-- what the calls do that neither do this nor wait.
pub record Lock : Type 1 where
  pub State : Type 0
  pub readers : State → ℕ
  pub writers : State → ℕ
  pub refuses : Call → State → Bool
  pub perform : Call → State → Option State
  pub free : State
  pub free_lem : (readers free ≡ 0) × (writers free ≡ 0)
  pub rdlock_lem :
      (m m' : State)
      → perform rdlock m ≡ some m'
      → (writers m ≡ 0) × (readers m' ≡ readers m + 1) × (writers m' ≡ 0)
  pub lock_lem :
      (m m' : State)
      → perform Call.lock m ≡ some m'
      → (writers m ≡ 0) × (readers m ≡ 0) × (readers m' ≡ 0) × (writers m' ≡ 1)
  pub wrlock_lem :
      (m m' : State)
      → perform wrlock m ≡ some m'
      → (writers m ≡ 0) × (readers m ≡ 0) × (readers m' ≡ 0) × (writers m' ≡ 1)
  pub unlock_reader :
      (m m' : State)
      → perform Call.unlock m ≡ some m'
      → writers m ≡ 0
      → (readers m' ≡ readers m - 1) × (writers m' ≡ 0)
  pub unlock_writer :
      (m m' : State)
      → perform Call.unlock m ≡ some m'
      → writers m ≡ 1
      → (readers m' ≡ readers m) × (writers m' ≡ 0)

-- What a thread does with a guard.
pub data Op : Type 0 where
  create : Kind → Op
  relock : ℕ → Op
  release : ℕ → Op
  destroy : ℕ → Op

-- Replaces the guard at a place by what `f` leaves of it, with the calls of `f`.
unfoldable pub on_guard : (Guard → List Guard × List Call) → ℕ → List Guard → List Guard × List Call
on_guard f i [] = ([], [])
on_guard f zero (g ∷ gs) = ((f g).0 ++ gs, (f g).1)
on_guard f (suc i) (g ∷ gs) = let r = on_guard f i gs in (g ∷ r.0, r.1)

abbrev kept : (Guard → Guard × List Call) → Guard → List Guard × List Call
kept f g = ((f g).0 ∷ [], (f g).1)

-- The guards after an operation, and the calls that it makes.
unfoldable pub plan : Op → List Guard → List Guard × List Call
unfolding on_guard new_guard lock_guard unlock_guard drop_guard
plan (create k) gs = ((new_guard k).0 ∷ gs, (new_guard k).1)
plan (relock i) gs = on_guard (kept lock_guard) i gs
plan (release i) gs = on_guard (kept unlock_guard) i gs
plan (destroy i) gs = on_guard (λ g. ([], drop_guard g)) i gs

-- What a guard counts for among the readers and among the writers.
abbrev pub reads : Guard → ℕ
reads g = elim g.locked [
  | false ↦ 0
  | true ↦ elim g.kind [ reading ↦ 1 | scoped ↦ 0 | writing ↦ 0 ]
]

abbrev pub writes : Guard → ℕ
writes g = elim g.locked [
  | false ↦ 0
  | true ↦ elim g.kind [ reading ↦ 0 | scoped ↦ 1 | writing ↦ 1 ]
]

abbrev pub total : (Guard → ℕ) → List Guard → ℕ
total w [] = 0
total w (g ∷ gs) = w g + total w gs

-- What the calls of an operation mean for the guards that hold the mutex.
pub data Effect (r w r' w' : ℕ) : List Call → Type 0 where
  nothing : r' ≡ r → w' ≡ w → Effect r w r' w' []
  reader_in : r' ≡ r + 1 → w' ≡ w → Effect r w r' w' (rdlock ∷ [])
  lock_in : r' ≡ r → w' ≡ w + 1 → Effect r w r' w' (Call.lock ∷ [])
  writer_in : r' ≡ r → w' ≡ w + 1 → Effect r w r' w' (wrlock ∷ [])
  reader_out : r ≡ r' + 1 → w' ≡ w → Effect r w r' w' (Call.unlock ∷ [])
  writer_out : r' ≡ r → w ≡ w' + 1 → Effect r w r' w' (Call.unlock ∷ [])

-- The same seen among further guards.
more :
    (a b : ℕ) {r w r' w' : ℕ} (cs : List Call) (r1 w1 r2 w2 : ℕ)
    → r1 ≡ a + r
    → w1 ≡ b + w
    → r2 ≡ a + r'
    → w2 ≡ b + w'
    → Effect r w r' w' cs
    → Effect r1 w1 r2 w2 cs
more a b _ r1 w1 r2 w2 e f g h (nothing p q) = nothing (omega arith) (omega arith)
more a b _ r1 w1 r2 w2 e f g h (reader_in p q) = reader_in (omega arith) (omega arith)
more a b _ r1 w1 r2 w2 e f g h (lock_in p q) = lock_in (omega arith) (omega arith)
more a b _ r1 w1 r2 w2 e f g h (writer_in p q) = writer_in (omega arith) (omega arith)
more a b _ r1 w1 r2 w2 e f g h (reader_out p q) = reader_out (omega arith) (omega arith)
more a b _ r1 w1 r2 w2 e f g h (writer_out p q) = writer_out (omega arith) (omega arith)

total-append : (w : Guard → ℕ) (xs ys : List Guard) → total w (xs ++ ys) ≡ total w xs + total w ys
total-append w [] ys = omega arith
total-append w (g ∷ gs) ys = omega (arith, total-append w gs ys)

-- The effect of a list of guards that becomes another.
abbrev pub Changes : List Guard → List Guard × List Call → Type 0
Changes gs r = Effect (total reads gs) (total writes gs) (total reads r.0) (total writes r.0) r.1

on_guard-Changes :
    (f : Guard → List Guard × List Call) (i : ℕ) (gs : List Guard)
    → ((g : Guard) → Changes (g ∷ []) (f g))
    → Changes gs (on_guard f i gs)
unfolding on_guard
on_guard-Changes f i [] h = nothing refl refl
on_guard-Changes f zero (g ∷ gs) h =
    more (total reads gs) (total writes gs) _ _ _ _ _ (omega arith) (omega arith)
      (omega (arith, total-append reads (f g).0 gs)) (omega (arith, total-append writes (f g).0 gs))
      (h g)
on_guard-Changes f (suc i) (g ∷ gs) h =
    more (reads g) (writes g) _ _ _ _ _ refl refl refl refl (on_guard-Changes f i gs h)

-- The guards by their parts.
abbrev guard_of : Kind → Bool → Guard
guard_of k b = record { kind = k; locked = b }

lock-Changes : (k : Kind) (b : Bool) → Changes (guard_of k b ∷ []) (kept lock_guard (guard_of k b))
unfolding lock_guard
lock-Changes k true = nothing refl refl
lock-Changes scoped false = lock_in refl refl
lock-Changes reading false = reader_in refl refl
lock-Changes writing false = writer_in refl refl

unlock-Changes :
    (k : Kind) (b : Bool) → Changes (guard_of k b ∷ []) (kept unlock_guard (guard_of k b))
unfolding unlock_guard
unlock-Changes k false = nothing refl refl
unlock-Changes scoped true = writer_out refl refl
unlock-Changes reading true = reader_out refl refl
unlock-Changes writing true = writer_out refl refl

drop-Changes : (k : Kind) (b : Bool) → Changes (guard_of k b ∷ []) ([], drop_guard (guard_of k b))
unfolding drop_guard
drop-Changes k false = nothing refl refl
drop-Changes scoped true = writer_out refl refl
drop-Changes reading true = reader_out refl refl
drop-Changes writing true = writer_out refl refl

pub plan-Changes : (op : Op) (gs : List Guard) → Changes gs (plan op gs)
unfolding plan
plan-Changes (create k) gs = created k
  where
    created : (k : Kind) → Changes gs (plan (create k) gs)
    created scoped = lock_in (omega arith) (omega arith)
    created reading = reader_in (omega arith) (omega arith)
    created writing = writer_in (omega arith) (omega arith)
plan-Changes (relock i) gs =
    on_guard-Changes (kept lock_guard) i gs (λ g. lock-Changes g.kind g.locked)
plan-Changes (release i) gs =
    on_guard-Changes (kept unlock_guard) i gs (λ g. unlock-Changes g.kind g.locked)
plan-Changes (destroy i) gs =
    on_guard-Changes (λ g. ([], drop_guard g)) i gs (λ g. drop-Changes g.kind g.locked)
