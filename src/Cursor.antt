-- ===== src/Cursor.antt =====
-- The reads of the parsers under src/dsm-cc/ and src/tables/: a pointer `buf`, and a local variable
-- `j` that runs over it. The state of a parser is the bytes that can still be read at `&buf[j]`, and
-- `j`. A read behind those bytes is `fault`; `j` may be moved past them.
-- The allocations of these parsers, whose results the code does not test, are taken to be granted.
pub mod Laws
pub mod Forward
use demuxfs.Prelude.{
  ℕ, zero, suc, ◌+◌, ◌-◌, List, [], ◌∷◌, length, take, drop, leb, ltb, ◌^◌, if◌then◌else◌, Run, ok,
  fault, ◌>>=◌,
}
use demuxfs.Byteops.{convert_to_16, convert_to_24, convert_to_32, convert_to_64}

pub record Cursor : Type 0 where
  pub left : List ℕ
  pub j : ℕ

abbrev pub cursor : List ℕ → ℕ → Cursor
cursor left j = record { left = left; j = j }

-- A parser that may fault.
abbrev pub Parse {ℓ} : Type ℓ → Type ℓ
Parse A = Cursor → Run (A × Cursor)

infixl 5 ◌>>-◌
abbrev pub ◌>>-◌ {ℓ κ} : {A : Type ℓ} {B : Type κ} → Parse A → (A → Parse B) → Parse B
◌>>-◌ m f c = m c >>= λ r. f r.0 r.1

abbrev pub give {ℓ} : {A : Type ℓ} → A → Parse A
give a c = ok (a, c)

-- `j += n`
abbrev pub skip : ℕ → Parse (Unit {0})
skip n c = ok (tt, cursor (drop n c.left) (c.j + n))

-- `buf[j]`, and `j += 1`; and the macros on more bytes.
abbrev pub u8_of : List ℕ → ℕ → Run (ℕ × Cursor)
u8_of (a ∷ s) j = ok (a, cursor s (j + 1))
u8_of _ j = fault

abbrev pub u16_of : List ℕ → ℕ → Run (ℕ × Cursor)
u16_of (a ∷ b ∷ s) j = ok (convert_to_16 a b, cursor s (j + 2))
u16_of _ j = fault

abbrev pub u24_of : List ℕ → ℕ → Run (ℕ × Cursor)
u24_of (a ∷ b ∷ c ∷ s) j = ok (convert_to_24 a b c, cursor s (j + 3))
u24_of _ j = fault

abbrev pub u32_of : List ℕ → ℕ → Run (ℕ × Cursor)
u32_of (a ∷ b ∷ c ∷ d ∷ s) j = ok (convert_to_32 a b c d, cursor s (j + 4))
u32_of _ j = fault

abbrev pub u64_of : List ℕ → ℕ → Run (ℕ × Cursor)
u64_of (a ∷ b ∷ c ∷ d ∷ e ∷ f ∷ g ∷ h ∷ s) j = ok (convert_to_64 a b c d e f g h, cursor s (j + 8))
u64_of _ j = fault

unfoldable pub u8 : Parse ℕ
u8 c = u8_of c.left c.j

unfoldable pub u16 : Parse ℕ
u16 c = u16_of c.left c.j

unfoldable pub u24 : Parse ℕ
u24 c = u24_of c.left c.j

unfoldable pub u32 : Parse ℕ
u32 c = u32_of c.left c.j

unfoldable pub u64 : Parse ℕ
u64 c = u64_of c.left c.j

-- `memcpy(dst, &buf[j], n); j += n`
unfoldable pub bytes : ℕ → Parse (List ℕ)
bytes n c =
    if leb n (length c.left) then ok (take n c.left, cursor (drop n c.left) (c.j + n)) else fault

-- `n` rounds of a loop, whose results are collected.
unfoldable pub repeat {ℓ} : {A : Type ℓ} → ℕ → Parse A → Parse (List A)
repeat zero p = give []
repeat (suc n) p = p >>- λ a. repeat n p >>- λ rest. give (a ∷ rest)

-- The local `j` of a function is an int: where it comes to 2 ^ 31, it overflows, or what is read next is read in
-- front of the buffer. Either is a fault.
unfoldable pub as_int {ℓ} : {A : Type ℓ} → Parse A → Parse A
as_int p c = p c >>= λ r. if ltb (r.1.j - c.j) (2 ^ 31) then ok r else fault
