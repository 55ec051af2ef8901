-- ===== src/Base/Results.antt =====
-- An operation that returns a value or an error.
use mathlib.Core.Option.{Option, none, some}

pub data Result {ℓ} (E : Type 0) (A : Type ℓ) : Type ℓ where
  ok : A → Result E A
  err : E → Result E A

-- A lookup whose failure is an error.
abbrev pub or_err {ℓ} : {E : Type 0} {A : Type ℓ} → E → Option A → Result E A
or_err e none = err e
or_err e (some a) = ok a
