-- ===== src/Base/Fallible.antt =====
-- The result of code that may throw, fail an assertion or break a rule of the language.
use mathlib.Core.Bool.{Bool, true, false}
use mathlib.Core.Path.{◌≡◌, ap}

pub data Fault : Type 0 where
  out_of_range : Fault
  null_deref : Fault
  divide_by_zero : Fault
  assertion : Fault
  past_end : Fault
  stack_overflow : Fault
  overflow : Fault
  logic_error : Fault

pub data Outcome {ℓ} (A : Type ℓ) : Type ℓ where
  ok : A → Outcome A
  fail : Fault → Outcome A

infixl 5 ◌>>=◌ ◌>>◌
abbrev pub ◌>>=◌ {ℓ κ} : {A : Type ℓ} {B : Type κ} → Outcome A → (A → Outcome B) → Outcome B
ok a >>= f = f a
fail e >>= f = fail e

abbrev pub ◌>>◌ {ℓ} : {B : Type ℓ} → Outcome (Unit {0}) → Outcome B → Outcome B
m >> k = m >>= λ _. k

abbrev pub guard : Bool → Fault → Outcome (Unit {0})
guard true e = ok tt
guard false e = fail e

pub from_ok {ℓ} : {A : Type ℓ} {x y : A} → ok x ≡ ok y → x ≡ y
from_ok {x = x} e = ap (λ o. elim o [ ok z ↦ z | fail f ↦ x ]) e
