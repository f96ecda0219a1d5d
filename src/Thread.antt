-- ===== src/Thread.antt =====
-- tw/thread.h: the locks that last as long as a scope, and their calls on the mutex below them.
pub mod Guards
pub mod Exclusion
pub mod Start
mod Examples
use tw_server.Base.{
  Bool, true, false, List, [], ◌∷◌, ◌++◌, if◌then◌else◌, ℕ, zero, suc, Option, none, some,
}

-- What a guard asks of its mutex: `lock` of Mutex and SpinMutex, `rdlock`, `wrlock` and `unlock` of
-- RWMutex.
pub data Call : Type 0 where
  lock : Call
  rdlock : Call
  wrlock : Call
  unlock : Call

-- ScopedLockImpl, ReadScopedLockImpl and WriteScopedLockImpl.
pub data Kind : Type 0 where
  scoped : Kind
  reading : Kind
  writing : Kind

-- The first call of the constructor and of `lock`.
unfoldable pub acquire : Kind → Call
acquire scoped = Call.lock
acquire reading = rdlock
acquire writing = wrlock

-- A guard with its `m_locked`.
pub record Guard : Type 0 where
  pub kind : Kind
  pub locked : Bool

-- The constructor.
unfoldable pub new_guard : Kind → Guard × List Call
unfolding acquire
new_guard k = (record { kind = k; locked = true }, acquire k ∷ [])

-- `lock()`.
unfoldable pub lock_guard : Guard → Guard × List Call
unfolding acquire
lock_guard g = if g.locked then (g, []) else (record g { locked = true }, acquire g.kind ∷ [])

-- `unlock()`.
unfoldable pub unlock_guard : Guard → Guard × List Call
unlock_guard g = if g.locked then (record g { locked = false }, Call.unlock ∷ []) else (g, [])

-- The destructor: the calls that it makes.
unfoldable pub drop_guard : Guard → List Call
unfolding unlock_guard
drop_guard g = (unlock_guard g).1
