-- ===== src/Tables.antt =====
-- The parsers under src/tables/ read a payload at computed offsets: `payload[i]`. A read behind the
-- bytes of the payload is `fault`.
pub mod Laws
pub mod Fields
pub mod Descriptors
pub mod Sdt
pub mod Pat
pub mod StreamType
pub mod Pmt
pub mod Nit
use demuxfs.Prelude.{ℕ, zero, suc, ◌+◌, List, [], ◌∷◌, Run, ok, fault, ◌>>=◌}
use demuxfs.Byteops.{convert_to_16}

-- `payload[i]`
unfoldable pub at : List ℕ → ℕ → Run ℕ
at [] i = fault
at (x ∷ xs) zero = ok x
at (x ∷ xs) (suc i) = at xs i

-- CONVERT_TO_16 of `payload[i]` and the byte behind it.
unfoldable pub at16 : List ℕ → ℕ → Run ℕ
at16 payload i = at payload i >>= λ a. at payload (i + 1) >>= λ b. ok (convert_to_16 a b)

-- What a loop over a payload ends in: what it has found; an error that it reports. `unfinished` is no
-- behaviour of the program: the model's count of rounds is used up.
pub data Parsed {ℓ} (A : Type ℓ) : Type ℓ where
  parsed : A → Parsed A
  refused : Parsed A
  unfinished : Parsed A

-- What follows a loop that has found something.
abbrev pub then_parse {ℓ κ} :
    {A : Type ℓ} {B : Type κ} → (A → Run (Parsed B)) → Parsed A → Run (Parsed B)
then_parse f (parsed a) = f a
then_parse f refused = ok refused
then_parse f unfinished = ok unfinished
