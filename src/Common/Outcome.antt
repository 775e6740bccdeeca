-- ===== src/Common/Outcome.antt =====
-- How a Go function ends: with a value, with an error, or in a run-time panic.
use mathlib.Core.Path.{◌≡◌}
use mathlib.Core.Bool.{Bool, true, false}
use mathlib.Core.Option.{Option, none, some}

-- The errors that the program returns. `malformed` stands for the count 0 of the parsers.
pub data Error : Type 0 where
  os_error malformed too_small bad_magic crc_mismatch not_mapped ring_error : Error

pub data Outcome {ℓ} (A : Type ℓ) : Type ℓ where
  ok : A → Outcome A
  fail : Error → Outcome A
  panic : Outcome A

infixl 5 ◌>>=◌ ◌>>◌
abbrev pub ◌>>=◌ {ℓ κ} : {A : Type ℓ} {B : Type κ} → Outcome A → (A → Outcome B) → Outcome B
ok a >>= f = f a
fail e >>= f = fail e
panic >>= f = panic

abbrev pub ◌>>◌ {ℓ} : {B : Type ℓ} → Outcome (Unit {0}) → Outcome B → Outcome B
m >> k = m >>= λ _. k

-- A reader's `n <= 0`.
abbrev pub or_malformed {ℓ} : {A : Type ℓ} → Option A → Outcome A
or_malformed none = fail malformed
or_malformed (some a) = ok a

-- An index out of range.
abbrev pub or_panic {ℓ} : {A : Type ℓ} → Option A → Outcome A
or_panic none = panic
or_panic (some a) = ok a

-- A system call that succeeds or returns an error.
abbrev pub call : Bool → Outcome (Unit {0})
call true = ok tt
call false = fail os_error

-- What comes after a step that gives a state and the error returned.
abbrev pub unless_failed {ℓ} :
    {A : Type ℓ} → A × Option Error → (A → Outcome (A × Option Error)) → Outcome (A × Option Error)
unless_failed (a, some e) next = ok (a, some e)
unless_failed (a, none) next = next a

-- A call whose error is handled.
abbrev pub on_fail {ℓ κ} :
    {A : Type ℓ} {B : Type κ} → Outcome A → (Error → Outcome B) → (A → Outcome B) → Outcome B
on_fail (ok a) handle next = next a
on_fail (fail e) handle next = handle e
on_fail panic handle next = panic

pub Outcome-eq_of_ok {ℓ} : {A : Type ℓ} (a b : A) → ok a ≡ ok b → a ≡ b
Outcome-eq_of_ok a b h = cc
