-- ===== src/Byteops/Laws.antt =====
-- src/byteops.h: what the macros compute, as plain arithmetic.
use demuxfs.Prelude.{
  ℕ, zero, suc, ◌+◌, ◌*◌, ◌%◌, ◌^◌, ◌<◌, ◌≡◌, refl, bit_and, Bool, true, ◌&&◌, List, [], ◌∷◌, ◌==◌,
  arith, All,
}
use demuxfs.Prelude.Bits.{bit_or_fields, bit_and_mask}
use demuxfs.Byteops.{
  IsByte, char_to_uint, convert_to_16, convert_to_24, convert_to_32, convert_to_40, convert_to_48,
  convert_to_56, convert_to_64,
}

-- The number that bytes stand for, the first one most significant.
abbrev pub big_endian_from : ℕ → List ℕ → ℕ
big_endian_from acc [] = acc
big_endian_from acc (b ∷ bs) = big_endian_from (acc * 256 + b) bs

abbrev pub big_endian : List ℕ → ℕ
big_endian = big_endian_from 0

-- Facts about one byte are tables, checked by evaluation.
module _ (f g : ℕ → ℕ) where
  unfoldable pub same_below : ℕ → Bool
  same_below zero = true
  same_below (suc n) = (f n == g n) && same_below n

  pub same_below→eq : (n : ℕ) → same_below n ≡ true → (i : ℕ) → i < n → f i ≡ g i
  unfolding same_below
  same_below→eq zero e i h = absurd (omega arith)
  same_below→eq (suc n) e i h = ground (arith, same_below→eq n (ground arith) i)

field_16 : (a : ℕ) → IsByte a → bit_and (char_to_uint 16 a * 2 ^ 8) 0xff00 ≡ a * 2 ^ 8
unfolding same_below
field_16 = same_below→eq _ _ 256 refl

field_24 : (a : ℕ) → IsByte a → bit_and (char_to_uint 32 a * 2 ^ 16 % 2 ^ 32) 0xff0000 ≡ a * 2 ^ 16
unfolding same_below
field_24 = same_below→eq _ _ 256 refl

field_32 :
    (a : ℕ) → IsByte a → bit_and (char_to_uint 32 a * 2 ^ 24 % 2 ^ 32) 0xff000000 ≡ a * 2 ^ 24
unfolding same_below
field_32 = same_below→eq _ _ 256 refl

field_40 :
    (a : ℕ) → IsByte a → bit_and (char_to_uint 64 a * 2 ^ 32 % 2 ^ 64) 0xff00000000 ≡ a * 2 ^ 32
unfolding same_below
field_40 = same_below→eq _ _ 256 refl

field_48 :
    (a : ℕ) → IsByte a → bit_and (char_to_uint 64 a * 2 ^ 40 % 2 ^ 64) 0xff0000000000 ≡ a * 2 ^ 40
unfolding same_below
field_48 = same_below→eq _ _ 256 refl

field_56 :
    (a : ℕ) → IsByte a → bit_and (char_to_uint 64 a * 2 ^ 48 % 2 ^ 64) 0xff000000000000 ≡ a * 2 ^ 48
unfolding same_below
field_56 = same_below→eq _ _ 256 refl

field_64 :
    (a : ℕ)
    → IsByte a
    → bit_and (char_to_uint 64 a * 2 ^ 56 % 2 ^ 64) 0xff00000000000000 ≡ a * 2 ^ 56
unfolding same_below
field_64 = same_below→eq _ _ 256 refl

pub low_byte : (b : ℕ) → bit_and b 0xff ≡ b % 256
low_byte b = bit_and_mask 8 b

-- The two-byte macro is the usual sum.
pub convert_to_16_lem : (a b : ℕ) → IsByte a → IsByte b → convert_to_16 a b ≡ a * 256 + b
unfolding convert_to_16
convert_to_16_lem a b ha hb =
    rw (field_16 a ha, low_byte b) (omega (arith, bit_or_fields 8 a (b % 256) (omega arith)))

pub convert_to_24_lem :
    (a b c : ℕ)
    → IsByte a
    → IsByte b
    → IsByte c
    → convert_to_24 a b c ≡ a * 2 ^ 16 + convert_to_16 b c
unfolding convert_to_24
convert_to_24_lem a b c ha hb hc =
    rw (field_24 a ha)
      (bit_or_fields 16 a (convert_to_16 b c) (omega (arith, convert_to_16_lem b c hb hc)))

pub convert_to_32_lem :
    (a b c d : ℕ)
    → IsByte a
    → IsByte b
    → IsByte c
    → IsByte d
    → convert_to_32 a b c d ≡ a * 2 ^ 24 + b * 2 ^ 16 + c * 2 ^ 8 + d
unfolding convert_to_32
convert_to_32_lem a b c d ha hb hc hd =
    let t = convert_to_24_lem b c d hb hc hd in
    let s = convert_to_16_lem c d hc hd in
    rw (field_32 a ha)
      (omega (arith, t, s, bit_or_fields 24 a (convert_to_24 b c d) (omega (arith, t, s))))

module _ (a b c d e : ℕ) (bytes : All IsByte (a ∷ b ∷ c ∷ d ∷ e ∷ [])) where
  convert_to_40_lem : convert_to_40 a b c d e ≡ a * 2 ^ 32 + convert_to_32 b c d e
  unfolding convert_to_40
  convert_to_40_lem =
      let t = convert_to_32_lem b c d e bytes.1.0 bytes.1.1.0 bytes.1.1.1.0 bytes.1.1.1.1.0 in
      rw (field_40 a bytes.0) (bit_or_fields 32 a (convert_to_32 b c d e) (omega (arith, t)))

  convert_to_40_sum : convert_to_40 a b c d e ≡ a * 2 ^ 32 + b * 2 ^ 24 + c * 2 ^ 16 + d * 2 ^ 8 + e
  convert_to_40_sum = omega (
    arith,
    convert_to_40_lem,
    convert_to_32_lem b c d e bytes.1.0 bytes.1.1.0 bytes.1.1.1.0 bytes.1.1.1.1.0,
  )

convert_to_48_sum :
    (a b c d e f : ℕ)
    → All IsByte (a ∷ b ∷ c ∷ d ∷ e ∷ f ∷ [])
    → convert_to_48 a b c d e f ≡ a * 2 ^ 40 + b * 2 ^ 32 + c * 2 ^ 24 + d * 2 ^ 16 + e * 2 ^ 8 + f
unfolding convert_to_48
convert_to_48_sum a b c d e f bytes =
    let t = convert_to_40_sum b c d e f bytes.1 in
    rw (field_48 a bytes.0)
      (omega (arith, t, bit_or_fields 40 a (convert_to_40 b c d e f) (omega (arith, t))))

convert_to_56_sum :
    (a b c d e f g : ℕ)
    → All IsByte (a ∷ b ∷ c ∷ d ∷ e ∷ f ∷ g ∷ [])
    → convert_to_56 a b c d e f g
      ≡ a * 2 ^ 48 + b * 2 ^ 40 + c * 2 ^ 32 + d * 2 ^ 24 + e * 2 ^ 16 + f * 2 ^ 8 + g
unfolding convert_to_56
convert_to_56_sum a b c d e f g bytes =
    let t = convert_to_48_sum b c d e f g bytes.1 in
    rw (field_56 a bytes.0)
      (omega (arith, t, bit_or_fields 48 a (convert_to_48 b c d e f g) (omega (arith, t))))

convert_to_64_sum :
    (a b c d e f g h : ℕ)
    → All IsByte (a ∷ b ∷ c ∷ d ∷ e ∷ f ∷ g ∷ h ∷ [])
    → convert_to_64 a b c d e f g h
      ≡ a * 2 ^ 56 + b * 2 ^ 48 + c * 2 ^ 40 + d * 2 ^ 32 + e * 2 ^ 24 + f * 2 ^ 16 + g * 2 ^ 8 + h
unfolding convert_to_64
convert_to_64_sum a b c d e f g h bytes =
    let t = convert_to_56_sum b c d e f g h bytes.1 in
    rw (field_64 a bytes.0)
      (omega (arith, t, bit_or_fields 56 a (convert_to_56 b c d e f g h) (omega (arith, t))))

-- On bytes each of the macros is the big-endian value of its arguments.
pub convert-big_endian :
    (a b c d e f g h : ℕ)
    → All IsByte (a ∷ b ∷ c ∷ d ∷ e ∷ f ∷ g ∷ h ∷ [])
    → (convert_to_16 a b ≡ big_endian (a ∷ b ∷ []))
      × (convert_to_24 a b c ≡ big_endian (a ∷ b ∷ c ∷ []))
      × (convert_to_32 a b c d ≡ big_endian (a ∷ b ∷ c ∷ d ∷ []))
      × (convert_to_40 a b c d e ≡ big_endian (a ∷ b ∷ c ∷ d ∷ e ∷ []))
      × (convert_to_48 a b c d e f ≡ big_endian (a ∷ b ∷ c ∷ d ∷ e ∷ f ∷ []))
      × (convert_to_56 a b c d e f g ≡ big_endian (a ∷ b ∷ c ∷ d ∷ e ∷ f ∷ g ∷ []))
      × (convert_to_64 a b c d e f g h ≡ big_endian (a ∷ b ∷ c ∷ d ∷ e ∷ f ∷ g ∷ h ∷ []))
convert-big_endian a b c d e f g h (ha, (hb, (hc, (hd, (he, (hf, (hg, (hh, u)))))))) = (
  omega (arith, convert_to_16_lem a b ha hb),
  omega (arith, convert_to_24_lem a b c ha hb hc, convert_to_16_lem b c hb hc),
  omega (arith, convert_to_32_lem a b c d ha hb hc hd),
  omega (arith, convert_to_40_sum a b c d e (ha, (hb, (hc, (hd, (he, tt)))))),
  omega (arith, convert_to_48_sum a b c d e f (ha, (hb, (hc, (hd, (he, (hf, tt))))))),
  omega (arith, convert_to_56_sum a b c d e f g (ha, (hb, (hc, (hd, (he, (hf, (hg, tt)))))))),
  omega
      (arith, convert_to_64_sum a b c d e f g h (ha, (hb, (hc, (hd, (he, (hf, (hg, (hh, tt))))))))),
)
