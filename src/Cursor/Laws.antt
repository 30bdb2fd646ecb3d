-- ===== src/Cursor/Laws.antt =====
-- Reading what stands at the cursor.
use demuxfs.Prelude.{
  ℕ, zero, suc, ◌+◌, ◌-◌, ◌/◌, ◌%◌, ◌^◌, ◌<◌, ◌≡◌, refl, ap, List, [], ◌∷◌, ◌++◌, length, drop, leb,
  ltb, Run, ok, ◌>>=◌, arith, All, take-append_self, true,
}
use demuxfs.Byteops.{IsByte, convert_to_16, convert_to_24, convert_to_32}
use demuxfs.Byteops.Laws.{
  convert_to_16_lem, convert_to_24_lem, convert_to_32_lem, convert-big_endian,
}
use demuxfs.Cursor.{Cursor, cursor, Parse, u8, u16, u24, u32, u64, bytes, repeat, as_int}

-- The bytes of a number, most significant byte first.
abbrev pub be16 : ℕ → List ℕ
be16 v = (v / 256) ∷ (v % 256) ∷ []

abbrev pub be24 : ℕ → List ℕ
be24 v = (v / 2 ^ 16) ∷ (v / 2 ^ 8 % 256) ∷ (v % 256) ∷ []

abbrev pub be32 : ℕ → List ℕ
be32 v = (v / 2 ^ 24) ∷ (v / 2 ^ 16 % 256) ∷ (v / 2 ^ 8 % 256) ∷ (v % 256) ∷ []

abbrev pub be64 : ℕ → List ℕ
be64 v =
    (v / 2 ^ 56)
    ∷ (v / 2 ^ 48 % 256)
    ∷ (v / 2 ^ 40 % 256)
    ∷ (v / 2 ^ 32 % 256)
    ∷ (v / 2 ^ 24 % 256)
    ∷ (v / 2 ^ 16 % 256)
    ∷ (v / 2 ^ 8 % 256)
    ∷ (v % 256)
    ∷ []

pub u16-be16 :
    (v : ℕ) (s : List ℕ) (j : ℕ)
    → v < 2 ^ 16
    → u16 (cursor (be16 v ++ s) j) ≡ ok (v, cursor s (j + 2))
unfolding u16
u16-be16 v s j h =
    let e : convert_to_16 (v / 256) (v % 256) ≡ v =
      omega (arith, convert_to_16_lem (v / 256) (v % 256) (omega arith) (omega arith)) in
    rw e refl

pub u24-be24 :
    (v : ℕ) (s : List ℕ) (j : ℕ)
    → v < 2 ^ 24
    → u24 (cursor (be24 v ++ s) j) ≡ ok (v, cursor s (j + 3))
unfolding u24
u24-be24 v s j h =
    let e : convert_to_24 (v / 2 ^ 16) (v / 2 ^ 8 % 256) (v % 256) ≡ v = omega (
      arith,
      convert_to_24_lem (v / 2 ^ 16) (v / 2 ^ 8 % 256) (v % 256) (omega arith) (omega arith)
          (omega arith),
      convert_to_16_lem (v / 2 ^ 8 % 256) (v % 256) (omega arith) (omega arith),
    ) in
    rw e refl

pub u32-be32 :
    (v : ℕ) (s : List ℕ) (j : ℕ)
    → v < 2 ^ 32
    → u32 (cursor (be32 v ++ s) j) ≡ ok (v, cursor s (j + 4))
unfolding u32
u32-be32 v s j h =
    let e : convert_to_32 (v / 2 ^ 24) (v / 2 ^ 16 % 256) (v / 2 ^ 8 % 256) (v % 256) ≡ v = omega (
      arith,
      convert_to_32_lem (v / 2 ^ 24) (v / 2 ^ 16 % 256) (v / 2 ^ 8 % 256) (v % 256) (omega arith)
          (omega arith) (omega arith) (omega arith),
    ) in
    rw e refl

pub u8_lem : (v : ℕ) (s : List ℕ) (j : ℕ) → u8 (cursor (v ∷ s) j) ≡ ok (v, cursor s (j + 1))
unfolding u8
u8_lem v s j = refl

pub drop-append_self : (xs ys : List ℕ) → drop (length xs) (xs ++ ys) ≡ ys
drop-append_self [] ys = refl
drop-append_self (x ∷ xs) ys = drop-append_self xs ys

length-le-append : (xs ys : List ℕ) → leb (length xs) (length (xs ++ ys)) ≡ true
length-le-append [] ys = ground arith
length-le-append (x ∷ xs) ys = ground (arith, length-le-append xs ys)

-- A copy of as many bytes as `xs` has.
pub bytes_lem :
    (n : ℕ) (xs s : List ℕ) (j : ℕ)
    → length xs ≡ n
    → bytes n (cursor (xs ++ s) j) ≡ ok (xs, cursor s (j + n))
unfolding bytes
bytes_lem n xs s j e =
    rw (← e) (rw (length-le-append xs s) (rw (take-append_self xs s, drop-append_self xs s) refl))

pub u64-be64 :
    (v : ℕ) (s : List ℕ) (j : ℕ)
    → v < 2 ^ 64
    → u64 (cursor (be64 v ++ s) j) ≡ ok (v, cursor s (j + 8))
unfolding u64
u64-be64 v s j h =
    let b : All IsByte (be64 v) = (
      omega arith,
      (
        omega arith,
        (
          omega arith,
          (omega arith, (omega arith, (omega arith, (omega arith, (omega arith, tt))))),
        ),
      ),
    ) in
    let e = (convert-big_endian _ _ _ _ _ _ _ _ b).6 in
    rw e (ap (λ x. ok (x, cursor s (j + 8))) (omega arith))

-- A list of things in front of `s`, and the number of its bytes.
unfoldable pub write_all {ℓ} : {A : Type ℓ} → (A → List ℕ → List ℕ) → List A → List ℕ → List ℕ
write_all f [] s = s
write_all f (x ∷ xs) s = f x (write_all f xs s)

unfoldable pub size_all {ℓ} : {A : Type ℓ} → (A → ℕ) → List A → ℕ
size_all size [] = 0
size_all size (x ∷ xs) = size x + size_all size xs

-- A parser reads back what `f` writes of things that satisfy `P`, wherever it stands.
abbrev pub ReadsBack {ℓ κ} :
    {A : Type ℓ} → (A → Type κ) → Parse A → (A → List ℕ → List ℕ) → (A → ℕ) → Type (ℓ ⊔ κ)
ReadsBack {A} P p f size =
    (x : A) (s : List ℕ) (j : ℕ) → P x → p (cursor (f x s) j) ≡ ok (x, cursor s (j + size x))

-- A loop reads back a list of things, if one round reads back one of them.
pub repeat-write_all {ℓ κ} :
    {A : Type ℓ} (P : A → Type κ) (p : Parse A) (f : A → List ℕ → List ℕ) (size : A → ℕ)
    → ReadsBack P p f size
    → (n : ℕ) (xs : List A) (s : List ℕ) (j : ℕ) → length xs ≡ n
    → All P xs
    → repeat n p (cursor (write_all f xs s) j) ≡ ok (xs, cursor s (j + size_all size xs))
unfolding repeat write_all size_all
repeat-write_all P p f size one zero [] s j e h = ap (λ k. ok ([], cursor s k)) (omega arith)
repeat-write_all P p f size one (suc n) [] s j e h = absurd (omega arith)
repeat-write_all P p f size one zero (x ∷ xs) s j e h = absurd (omega arith)
repeat-write_all P p f size one (suc n) (x ∷ xs) s j e h = rw (one x (write_all f xs s) j h.0) (
    rw (repeat-write_all P p f size one n xs s (j + size x) (omega arith) h.1)
      (ap (λ k. ok (x ∷ xs, cursor s k)) (omega arith)))

-- One step of a parser, and what follows it.
pub and_then {ℓ κ} :
    {A : Type ℓ} {B : Type κ} (r : Run A) (f : A → Run B) {x : A} {t : Run B}
    → r ≡ ok x
    → f x ≡ t
    → (r >>= f) ≡ t
and_then r f e next = rw e next

-- The same result, at the same place.
pub same_place {ℓ} :
    {A : Type ℓ} (x : A) (s : List ℕ) {j k : ℕ}
    → j ≡ k
    → ◌≡◌ {A = Run (A × Cursor)} (ok (x, cursor s j)) (ok (x, cursor s k))
same_place x s e = ap (λ k. ok (x, cursor s k)) e

-- A parser that reads less than 2 ^ 31 bytes.
pub as_int_lem {ℓ} :
    {A : Type ℓ} (p : Parse A) (x : A) (l s : List ℕ) (j n : ℕ)
    → p (cursor l j) ≡ ok (x, cursor s (j + n))
    → n < 2 ^ 31
    → as_int p (cursor l j) ≡ ok (x, cursor s (j + n))
unfolding as_int
as_int_lem p x l s j n e h =
    let short : ltb (j + n - j) (2 ^ 31) ≡ true = ground arith in rw e (rw short refl)
