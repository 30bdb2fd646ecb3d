-- ===== src/Cursor/Forward.antt =====
-- The parsers only move forward: what they leave is what they were given, less the bytes by which `j`
-- has grown.
use mathlib.Core.Path.{subst}
use demuxfs.Prelude.{
  ℕ, zero, suc, ◌+◌, ◌≡◌, refl, sym, ap, ◌∙◌, Bool, true, false, List, [], ◌∷◌, length, take, drop,
  leb, if◌then◌else◌, Run, ok, fault, ◌>>=◌, arith, drop-drop,
}
use demuxfs.Cursor.{
  Cursor, cursor, Parse, ◌>>-◌, skip, u8, u16, u24, u32, u64, u8_of, u16_of, u24_of, u32_of, u64_of,
  bytes, repeat,
}

abbrev pub advanced : ℕ → Cursor → Cursor
advanced n c = cursor (drop n c.left) (c.j + n)

-- A run of a parser at `c` has moved `j` by some number of bytes, unless it faulted.
abbrev pub Moved {ℓ} : {A : Type ℓ} → Cursor → Run (A × Cursor) → Type 0
Moved c fault = Unit {0}
Moved c (ok r) = (n : ℕ) × r.1 ≡ advanced n c

abbrev pub Forward {ℓ} : {A : Type ℓ} → Parse A → Type 0
Forward p = (c : Cursor) → Moved c (p c)

further {ℓ} :
    {A : Type ℓ} (c : Cursor) (n : ℕ) (r : Run (A × Cursor)) → Moved (advanced n c) r → Moved c r
further c n fault m = tt
further c n (ok r) (m, e) = (
  n + m,
  e
      ∙ ap (λ l. cursor l (c.j + n + m)) (drop-drop n m c.left)
      ∙ ap (λ k. cursor (drop (n + m) c.left) k) (omega arith),
)

onward {ℓ κ} :
    {A : Type ℓ} {B : Type κ} (c : Cursor) (r : Run (A × Cursor)) (f : A → Parse B)
    → Moved c r
    → ((a : A) → Forward (f a))
    → Moved c (r >>= λ x. f x.0 x.1)
onward c fault f m h = tt
onward c (ok (a, c')) f (n, e) h = rw e (further c n (f a (advanced n c)) (h a (advanced n c)))

pub reads_bind {ℓ κ} :
    {A : Type ℓ} {B : Type κ} (m : Parse A) (f : A → Parse B)
    → Forward m
    → ((a : A) → Forward (f a))
    → Forward (m >>- f)
reads_bind m f h k c = onward c (m c) f (h c) k

-- What reads nothing stays where it is.
pub stays : (c : Cursor) → (n : ℕ) × c ≡ advanced n c
stays c = (0, ap (λ k. cursor c.left k) (omega arith))

module _ {ℓ} {A : Type ℓ} where
  pub repeat-Forward : (n : ℕ) (p : Parse A) → Forward p → Forward (repeat n p)
  unfolding repeat
  repeat-Forward zero p h = stays
  repeat-Forward (suc n) p h =
      reads_bind _ _ h (λ a. reads_bind _ _ (repeat-Forward n p h) (λ rest. stays))

  either :
      (c : Cursor) (b : Bool) (x y : Run (A × Cursor))
      → Moved c x
      → Moved c y
      → Moved c (if b then x else y)
  either c true x y h k = h
  either c false x y h k = k

  pub reads_if : (b : Bool) (p q : Parse A) → Forward p → Forward q → Forward (if b then p else q)
  reads_if true p q h k = h
  reads_if false p q h k = k

pub skip-Forward : (n : ℕ) → Forward (skip n)
skip-Forward n c = (n, refl)

pub bytes-Forward : (n : ℕ) → Forward (bytes n)
unfolding bytes
bytes-Forward n c =
    either c (leb n (length c.left)) (ok (take n c.left, advanced n c)) fault (n, refl) tt

u8_of-Moved : (l : List ℕ) (j : ℕ) → Moved (cursor l j) (u8_of l j)
u8_of-Moved [] j = tt
u8_of-Moved (a ∷ s) j = (1, refl)

u16_of-Moved : (l : List ℕ) (j : ℕ) → Moved (cursor l j) (u16_of l j)
u16_of-Moved [] j = tt
u16_of-Moved (a ∷ []) j = tt
u16_of-Moved (a ∷ b ∷ s) j = (2, refl)

u24_of-Moved : (l : List ℕ) (j : ℕ) → Moved (cursor l j) (u24_of l j)
u24_of-Moved [] j = tt
u24_of-Moved (a ∷ []) j = tt
u24_of-Moved (a ∷ b ∷ []) j = tt
u24_of-Moved (a ∷ b ∷ c ∷ s) j = (3, refl)

u32_of-Moved : (l : List ℕ) (j : ℕ) → Moved (cursor l j) (u32_of l j)
u32_of-Moved [] j = tt
u32_of-Moved (a ∷ []) j = tt
u32_of-Moved (a ∷ b ∷ []) j = tt
u32_of-Moved (a ∷ b ∷ c ∷ []) j = tt
u32_of-Moved (a ∷ b ∷ c ∷ d ∷ s) j = (4, refl)

u64_of-Moved : (l : List ℕ) (j : ℕ) → Moved (cursor l j) (u64_of l j)
u64_of-Moved [] j = tt
u64_of-Moved (a ∷ []) j = tt
u64_of-Moved (a ∷ b ∷ []) j = tt
u64_of-Moved (a ∷ b ∷ c ∷ []) j = tt
u64_of-Moved (a ∷ b ∷ c ∷ d ∷ []) j = tt
u64_of-Moved (a ∷ b ∷ c ∷ d ∷ e ∷ []) j = tt
u64_of-Moved (a ∷ b ∷ c ∷ d ∷ e ∷ f ∷ []) j = tt
u64_of-Moved (a ∷ b ∷ c ∷ d ∷ e ∷ f ∷ g ∷ []) j = tt
u64_of-Moved (a ∷ b ∷ c ∷ d ∷ e ∷ f ∷ g ∷ h ∷ s) j = (8, refl)

pub u8-Forward : Forward u8
unfolding u8
u8-Forward c = u8_of-Moved c.left c.j

pub u16-Forward : Forward u16
unfolding u16
u16-Forward c = u16_of-Moved c.left c.j

pub u24-Forward : Forward u24
unfolding u24
u24-Forward c = u24_of-Moved c.left c.j

pub u32-Forward : Forward u32
unfolding u32
u32-Forward c = u32_of-Moved c.left c.j

pub u64-Forward : Forward u64
unfolding u64
u64-Forward c = u64_of-Moved c.left c.j

-- A parser that read `n` bytes has left what stands behind them.
pub left_over {ℓ} :
    {A : Type ℓ} (p : Parse A) (x : A) (l s : List ℕ) (j n : ℕ)
    → Forward p
    → p (cursor l j) ≡ ok (x, cursor s (j + n))
    → drop n l ≡ s
left_over {A} p x l s j n h e =
    let (m, e') : Moved (cursor l j) (ok (x, cursor s (j + n))) =
      subst (λ r. Moved (cursor l j) r) e (h (cursor l j)) in
    let moves : j + n ≡ j + m = ap (λ c. c.j) e' in
    let same : n ≡ m = omega arith in rw same (sym (ap (λ c. c.left) e'))
