-- ===== src/Thread/Examples.antt =====
-- Guards on a mutex, and a thread that is started (tw/thread.h, tw/thread.cc).
use tw_server.Base.{
  ℕ, zero, suc, ◌+◌, ◌-◌, ◌≡◌, ◌≤◌, ◌⊎◌, refl, true, false, List, [], ◌∷◌, ◌&&◌, ◌++◌, ◌==◌,
  if◌then◌else◌, Option, none, some, length, take, get_elem?, codes, arith,
}
use tw_server.Thread.{Call, rdlock, wrlock, reading, writing, Guard}
use tw_server.Thread.Guards.{Lock, Op, create, relock, release}
use tw_server.Thread.Exclusion.{IsAccepted, run, run_exclusive}
use tw_server.Thread.Start.{construct, returned, or_unknow, Who, caller, thread}
use tw_server.Thread.Start
use tw_server.Thread.Start.Handshake.{construct_returned, settling, construct_returns}

-- A mutex that counts its readers and its writers.
abbrev counted : Call → ℕ × ℕ → Option (ℕ × ℕ)
counted rdlock (r, w) = if w == 0 then some (r + 1, 0) else none
counted Call.lock (r, w) = if (w == 0) && (r == 0) then some (0, 1) else none
counted wrlock (r, w) = if (w == 0) && (r == 0) then some (0, 1) else none
counted Call.unlock (r, zero) = some (r - 1, 0)
counted Call.unlock (r, suc w) = some (r, 0)

counted_unlock :
    (m m' : ℕ × ℕ) → counted Call.unlock m ≡ some m' → m.1 ≡ 0 → (m'.0 ≡ m.0 - 1) × (m'.1 ≡ 0)
counted_unlock (r, zero) m' e z = ground arith
counted_unlock (r, suc w) m' e z = absurd (omega arith)

counted_unlock_writer :
    (m m' : ℕ × ℕ) → counted Call.unlock m ≡ some m' → m.1 ≡ 1 → (m'.0 ≡ m.0) × (m'.1 ≡ 0)
counted_unlock_writer (r, zero) m' e z = absurd (omega arith)
counted_unlock_writer (r, suc w) m' e z = ground arith

counted_rdlock :
    (m m' : ℕ × ℕ) → counted rdlock m ≡ some m' → (m.1 ≡ 0) × (m'.0 ≡ m.0 + 1) × (m'.1 ≡ 0)
counted_rdlock (r, w) m' e = ground arith

counted_lock :
    (m m' : ℕ × ℕ) → counted Call.lock m ≡ some m' → (m.1 ≡ 0) × (m.0 ≡ 0) × (m'.0 ≡ 0) × (m'.1 ≡ 1)
counted_lock (r, w) m' e = ground arith

abbrev counting : Lock
counting = record {
  State = ℕ × ℕ;
  readers = λ m. m.0;
  writers = λ m. m.1;
  refuses = λ c m. false;
  perform = counted;
  free = (0, 0);
  free_lem = (refl, refl);
  rdlock_lem = counted_rdlock;
  lock_lem = counted_lock;
  wrlock_lem = counted_lock;
  unlock_reader = counted_unlock;
  unlock_writer = counted_unlock_writer;
}

-- A reader comes and goes, and comes back behind a writer that has to wait for it.
abbrev ops : List Op
ops = create reading ∷ create writing ∷ release 0 ∷ create writing ∷ relock 1 ∷ []

abbrev unlocked_reader : Guard
unlocked_reader = record { kind = reading; locked = false }

abbrev locked_writer : Guard
locked_writer = record { kind = writing; locked = true }

at_end : (run counting ops ((0, 0), [])).1 ≡ locked_writer ∷ unlocked_reader ∷ []
unfolding run
at_end = refl

in_front : get_elem? (run counting ops ((0, 0), [])).1 0 ≡ some locked_writer
unfolding run
in_front = refl

behind : get_elem? (run counting ops ((0, 0), [])).1 1 ≡ some unlocked_reader
unfolding run
behind = refl

none_refused : IsAccepted counting ops ((0, 0), [])
unfolding IsAccepted
none_refused = ((refl, tt), ((refl, tt), ((refl, tt), ((refl, tt), ((refl, tt), tt)))))

run_exclusive_example : unlocked_reader.locked ≡ false
run_exclusive_example =
    run_exclusive counting ops 0 1 locked_writer unlocked_reader none_refused in_front behind
      (λ e. absurd (omega arith)) refl refl

-- The caller waits, and the new thread runs far enough for it to return.
abbrev order : List Who
order = caller ∷ thread ∷ thread ∷ caller ∷ thread ∷ thread ∷ thread ∷ caller ∷ []

abbrev worker : List ℕ
worker = codes "a_rather_long_name"

done : (Start.run true 77 order (construct 5 worker)).creator ≡ returned
unfolding Start.run construct
done = refl

construct_returned_example :
    let t = Start.run true 77 order (construct 5 worker) in
    (t.id ≡ some 77)
    × (t.cb ≡ none)
    × (t.local_cb ≡ some 5)
    × (t.name ≡ or_unknow worker)
    × (t.kernel_name ≡ take 15 (or_unknow worker))
    × (length t.kernel_name ≤ 15)
    × ((t.ran ≡ []) ⊎ (t.ran ≡ 5 ∷ []))
construct_returned_example = construct_returned true 5 77 worker order done

construct_returns_example :
    (Start.run true 77 (order ++ settling) (construct 5 worker)).creator ≡ returned
construct_returns_example = construct_returns 5 77 worker order tt
