-- ===== src/Fiber.antt =====
-- tw/fiber.h and tw/fiber.cc: the states of a fiber and the thread's pointers to fibers. A fiber's
-- address and its callback are numbers. getcontext, makecontext and swapcontext are taken to
-- succeed, and which context runs is seen from the pointers.
pub mod Laws
use tw_server.Base.{
  ℕ, ◌+◌, ◌^◌, Bool, true, false, not, ◌&&◌, ◌||◌, Option, none, some, if◌then◌else◌, ◌==◌, ltb,
  Outcome, ok, fail, Fault, guard, ◌>>=◌, ◌>>◌,
}

pub data State : Type 0 where
  init_state : State
  hold : State
  exec : State
  term : State
  ready : State
  except : State

-- How uc_stack and the entry of makecontext are chosen.
pub data Entry : Type 0 where
  return_main_func : Entry
  return_scheduler_func : Entry

-- The main fiber has no stack and no entry.
pub record Fiber : Type 0 where
  pub state : State
  pub cb : Option ℕ
  pub stack_size : Option ℕ
  pub entry : Option Entry

abbrev pub max_stack : ℕ
max_stack = 131072

-- The private constructor, of a thread's main fiber.
unfoldable pub main_fiber : Fiber
main_fiber = record { state = exec; cb = none; stack_size = none; entry = none }

-- `Fiber(cb, use_caller, stackSize)`.
unfoldable pub new_fiber : Option ℕ → Bool → ℕ → Fiber
new_fiber cb use_caller stack_size = record {
  state = init_state;
  cb = cb;
  stack_size = some (if ltb stack_size max_stack then stack_size else max_stack);
  entry = some (if use_caller then return_main_func else return_scheduler_func);
}

abbrev pub is_term : State → Bool
is_term term = true
is_term s = false

abbrev pub is_except : State → Bool
is_except except = true
is_except s = false

abbrev pub is_exec : State → Bool
is_exec exec = true
is_exec s = false

abbrev pub is_init : State → Bool
is_init init_state = true
is_init s = false

-- The states in which a fiber may be given a new callback or be destroyed.
abbrev pub at_rest : State → Bool
at_rest s = is_init s || is_term s || is_except s

abbrev pub has {ℓ} : {A : Type ℓ} → Option A → Bool
has none = false
has (some a) = true

-- The assertions of the destructor.
unfoldable pub destroy : Fiber → Outcome (Unit {0})
destroy f =
    if has f.stack_size
    then guard (at_rest f.state) Fault.assertion
    else guard (not (has f.cb) && is_exec f.state) Fault.assertion

unfoldable pub reset : Option ℕ → Fiber → Outcome Fiber
reset cb f =
    guard (has f.stack_size) Fault.assertion
    >> guard (at_rest f.state) Fault.assertion
    >> ok (record f { cb = cb; entry = some return_scheduler_func; state = init_state })

-- t_fiber, t_main_fiber and t_scheduler_fiber.
pub record Thread : Type 0 where
  pub fiber : Option ℕ
  pub main : Option ℕ
  pub scheduler_fiber : Option ℕ

-- `GetThis`, with the address that a new main fiber gets.
unfoldable pub get_this : ℕ → Thread → Thread × ℕ
get_this p t = or_new t.fiber
  where
    or_new : Option ℕ → Thread × ℕ
    or_new (some q) = (t, q)
    or_new none = (record t { fiber = some p; main = some p }, p)

unfoldable pub set_state : State → Fiber → Fiber
set_state s f = record f { state = s }

-- `swapIn` and `call` up to the exchange of contexts.
unfoldable pub swap_in : ℕ → Thread × Fiber → Thread × Fiber
unfolding set_state
swap_in p (t, f) = (record t { fiber = some p }, set_state exec f)

unfoldable pub swap_out : Thread → Thread
swap_out t = record t { fiber = t.scheduler_fiber }

unfoldable pub call : ℕ → Thread × Fiber → Outcome (Thread × Fiber)
unfolding set_state
call p (t, f) =
    guard (has t.main) Fault.assertion >> ok (record t { fiber = some p }, set_state exec f)

unfoldable pub back : Thread → Outcome Thread
back t = guard (has t.main) Fault.assertion >> ok t

-- How a callback ends.
pub data Ending : Type 0 where
  returned : Ending
  thrown : Ending

-- The try block of ReturnScedulerFunc and of ReturnMainFunc.
unfoldable pub run_callback : Ending → Fiber → Fiber
run_callback returned f = record f { cb = none; state = term }
run_callback thrown f = record f { state = except }

-- The whole of both: `swapOut` or `back` follows it.
unfoldable pub return_func : Ending → Fiber → Fiber
unfolding run_callback
return_func e f = record (run_callback e f) { state = term }
