-- ===== src/Prelude/Outcome.antt =====
-- Runs of code that may touch memory that is not its own.
use mathlib.Core.Path.{◌≡◌}

-- `fault` is a read or write outside an allocation, or through a NULL pointer.
pub data Run {ℓ} (A : Type ℓ) : Type ℓ where
  ok : A → Run A
  fault : Run A

-- What follows a run that has not faulted.
infixl 5 ◌>>=◌
abbrev pub ◌>>=◌ {ℓ κ} : {A : Type ℓ} {B : Type κ} → Run A → (A → Run B) → Run B
fault >>= next = fault
ok a >>= next = next a

-- The run ends, without a fault, in a value that satisfies `P`.
abbrev pub Returns {ℓ κ} : {A : Type ℓ} → Run A → (A → Type κ) → Type (ℓ ⊔ κ)
Returns {A} run P = (result : A) × (run ≡ ok result) × P result
