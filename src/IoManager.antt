-- ===== src/IoManager.antt =====
-- tw/iomanager.h and tw/iomanager.cc: the events that wait on file descriptors. The set of events
-- of a descriptor is a pair of flags for READ and WRITE; a context belongs to its index in the
-- table. What epoll_ctl and the pipe answer is a parameter, and the calls that epoll_ctl accepts
-- are recorded.
pub mod Laws
pub mod Sound
pub mod Reachable
pub mod RoundTrip
pub mod Idle
pub mod Wakeup
pub mod Setup
pub mod Deleting
mod Examples
use tw_server.Base.{
  ℕ, zero, suc, ◌+◌, ◌-◌, ◌*◌, ◌/◌, ◌^◌, Bool, true, false, not, ◌&&◌, ◌||◌, List, [], ◌∷◌, ◌++◌,
  Option, none, some, if◌then◌else◌, ◌==◌, ltb, leb, Outcome, ok, fail, Fault, guard, ◌>>=◌, ◌>>◌,
  length, get_elem?, set, take, replicate,
}
use tw_server.Fiber.{Fiber, has, is_exec, reset}
use tw_server.Scheduler.{Scheduler, Task, schedule, schedule_all, stopping, update}

pub data Event : Type 0 where
  no_event : Event
  read_event : Event
  write_event : Event

pub record Mask : Type 0 where
  pub reads : Bool
  pub writes : Bool

abbrev pub no_events : Mask
no_events = record { reads = false; writes = false }

-- `events & ev`, `events | ev`, `events & ~ev` and the test of `events`.
abbrev pub covers : Mask → Event → Bool
covers m no_event = false
covers m read_event = m.reads
covers m write_event = m.writes

abbrev pub join : Mask → Event → Mask
join m no_event = m
join m read_event = record m { reads = true }
join m write_event = record m { writes = true }

abbrev pub drop_event : Mask → Event → Mask
drop_event m no_event = m
drop_event m read_event = record m { reads = false }
drop_event m write_event = record m { writes = false }

abbrev pub is_some_event : Mask → Bool
is_some_event m = m.reads || m.writes

-- `home` is the field scheduler: null, 0 for this manager, or another scheduler.
pub record EventContext : Type 0 where
  pub home : Option ℕ
  pub fiber : Option ℕ
  pub cb : Option ℕ

abbrev pub no_context : EventContext
no_context = record { home = none; fiber = none; cb = none }

pub record FdContext : Type 0 where
  pub read : EventContext
  pub write : EventContext
  pub events : Mask

unfoldable pub new_context : FdContext
new_context = record { read = no_context; write = no_context; events = no_events }

pub data Op : Type 0 where
  ctl_add : Op
  ctl_mod : Op
  ctl_del : Op

pub record Ctl : Type 0 where
  pub op : Op
  pub fd : ℕ
  pub mask : Mask

pub record IoManager : Type 0 where
  pub scheduler : Scheduler
  pub contexts : List FdContext
  pub pending : ℕ
  pub calls : List Ctl

-- `getContext`, and the change of what it refers to.
unfoldable pub get_context : FdContext → Event → Outcome EventContext
get_context c no_event = fail Fault.assertion
get_context c read_event = ok c.read
get_context c write_event = ok c.write

abbrev pub put_context : FdContext → Event → EventContext → FdContext
put_context c no_event e = c
put_context c read_event e = record c { read = e }
put_context c write_event e = record c { write = e }

-- `ctx.fiber->reset(nullptr)`: with the fibers after it.
unfoldable pub reset_context : EventContext → (ℕ → Fiber) → Outcome (EventContext × (ℕ → Fiber))
unfolding reset
reset_context e fs = elim e.fiber [
  | none ↦ fail Fault.null_deref
  | some p ↦ reset none (fs p) >>= λ f. ok (record e { home = none; cb = none }, update fs p f)
]

abbrev pub home_of : Option ℕ → Outcome ℕ
home_of none = fail Fault.null_deref
home_of (some n) = ok n

-- `ctx.scheduler->schedule(...)`: another scheduler than this manager is not part of the state.
abbrev pub hand_over : ℕ → Task → Scheduler → Scheduler × Bool
hand_over zero t s = schedule t s
hand_over (suc n) t s = (s, false)

-- `schedule(&ctx.fiber)` takes the fiber out of the context, `schedule(&ctx.cb)` the callback.
unfoldable pub trigger_event :
    FdContext → Event → Scheduler → Outcome (FdContext × Scheduler × Bool)
unfolding get_context schedule
trigger_event c ev s = guard (covers c.events ev) Fault.assertion >> get_context c ev >>= λ e.
    home_of e.home >>= λ n. elim e.fiber [
      | some p ↦
          let r : Scheduler × Bool = hand_over n (record { fiber = some p; cb = none }) s in
          ok (
            put_context (record c { events = drop_event c.events ev }) ev
                (record e { home = none; fiber = none }),
            r.0,
            r.1,
          )
      | none ↦
          let r : Scheduler × Bool = hand_over n (record { fiber = none; cb = e.cb }) s in
          ok (
            put_context (record c { events = drop_event c.events ev }) ev
                (record e { home = none; cb = none }),
            r.0,
            r.1,
          )
    ]

-- `fdContextResize`.
unfoldable pub fd_context_resize : ℕ → List FdContext → List FdContext
fd_context_resize n l =
    if ltb n (length l) then l else take n l ++ replicate (n - length l) new_context

-- What is around a call: whether epoll_ctl accepts, whether the write of `tickle` to the pipe
-- succeeds, and `Scheduler::GetThis()` of the thread, as in `home`.
pub record Kernel : Type 0 where
  pub ctl : Op → ℕ → Mask → Bool
  pub pipe : Bool
  pub current : Option ℕ

-- `tickle`, where `schedule` calls it: with no idle thread a byte is written to the pipe.
abbrev pub check_tickle : Kernel → Bool → Scheduler → Outcome (Unit {0})
check_tickle k need s = guard (k.pipe || not need || ltb 0 s.idle) Fault.assertion

abbrev pub record_call : Op → ℕ → Mask → IoManager → IoManager
record_call op fd m io = record io { calls = record { op = op; fd = fd; mask = m } ∷ io.calls }

-- The waiter that `addEvent` stores for a thread with the scheduler `home`: the callback, or else
-- the fiber that calls it.
unfoldable pub waiter : Option ℕ → Option ℕ → ℕ → EventContext → (ℕ → Fiber) → Outcome EventContext
waiter home (some cb) cur e fs = ok (record e { home = home; cb = some cb })
waiter home none cur e fs =
    guard (is_exec (fs cur).state) Fault.assertion
    >> ok (record e { home = home; fiber = some cur })

-- `addEvent` once it has the context.
unfoldable pub add_to_context :
    Kernel → ℕ → Event → Option ℕ → ℕ → FdContext → IoManager → Outcome (IoManager × Bool)
unfolding get_context waiter
add_to_context k fd ev cb cur c io =
    guard (not (covers c.events ev)) Fault.assertion
    >> let op = if is_some_event c.events then ctl_mod else ctl_add in
      let m : Mask = join c.events ev in
      if not (k.ctl op fd m)
      then ok (io, false)
      else get_context c ev >>= λ e. waiter k.current cb cur e io.scheduler.fibers >>= λ e'. ok (
        record (record_call op fd m io) {
          pending = io.pending + 1;
          contexts = set io.contexts fd (put_context (record c { events = m }) ev e');
        },
        true,
      )

-- A context of the table; an index past its end breaks a rule of the language.
abbrev pub at_index {ℓ} : {B : Type ℓ} → Option FdContext → (FdContext → Outcome B) → Outcome B
at_index none f = fail Fault.past_end
at_index (some c) f = f c

-- `addEvent(fd, ev, cb)` of a descriptor that is not negative, with `cur` the current fiber: `true`
-- stands for 0, `false` for -1.
unfoldable pub add_event :
    Kernel → ℕ → Event → Option ℕ → ℕ → IoManager → Outcome (IoManager × Bool)
unfolding add_to_context fd_context_resize
add_event k fd ev cb cur io =
    let l =
      if ltb fd (length io.contexts)
      then io.contexts
      else fd_context_resize (fd * 3 / 2) io.contexts in
    at_index (get_elem? l fd) (λ c. add_to_context k fd ev cb cur c (record io { contexts = l }))

-- `delEvent(fd, ev)`.
unfoldable pub del_event : Kernel → ℕ → Event → IoManager → Outcome (IoManager × Bool)
unfolding get_context reset_context
del_event k fd ev io =
    if leb (length io.contexts) fd
    then ok (io, false)
    else at_index (get_elem? io.contexts fd) (λ c.
      if not (covers c.events ev)
      then ok (io, false)
      else let m : Mask = drop_event c.events ev in
        let op = if is_some_event m then ctl_mod else ctl_del in
        if not (k.ctl op fd m)
        then ok (record io { contexts = set io.contexts fd (record c { events = m }) }, false)
        else get_context c ev >>= λ e. reset_context e io.scheduler.fibers >>= λ r. ok (
          record (record_call op fd m io) {
            pending = io.pending - 1;
            scheduler = record io.scheduler { fibers = r.1 };
            contexts = set io.contexts fd (put_context (record c { events = m }) ev (r.0));
          },
          true,
        ))

-- `cancelEvent(fd, ev)` of a descriptor that is not negative; a negative one passes the test of the
-- size and indexes in front of the table.
unfoldable pub cancel_event : Kernel → ℕ → Event → IoManager → Outcome (IoManager × Bool)
unfolding trigger_event
cancel_event k fd ev io =
    if leb (length io.contexts) fd
    then ok (io, false)
    else at_index (get_elem? io.contexts fd) (λ c.
      if not (covers c.events ev)
      then ok (io, false)
      else let m : Mask = drop_event c.events ev in
        let op = if is_some_event m then ctl_mod else ctl_del in
        if not (k.ctl op fd m)
        then ok (io, false)
        else trigger_event c ev io.scheduler >>= λ r.
            check_tickle k (r.2) (r.1)
            >> ok (
              record (record_call op fd m io) {
                pending = io.pending - 1;
                scheduler = r.1;
                contexts = set io.contexts fd (r.0);
              },
              true,
            ))

-- `cancelAll(fd)`.
unfoldable pub cancel_all : Kernel → ℕ → IoManager → Outcome (IoManager × Bool)
unfolding cancel_event
cancel_all k fd io = cancel_event k fd read_event io >>= λ r.
    if not r.1
    then ok r
    else cancel_event k fd write_event (r.0) >>= λ r'. if not r'.1 then ok r' else ok (r'.0, true)
