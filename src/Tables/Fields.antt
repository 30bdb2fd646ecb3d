-- ===== src/Tables/Fields.antt =====
-- The fields of a byte, as the parsers of the tables take them out of a char.
use demuxfs.Prelude.{ℕ, ◌+◌, ◌*◌, ◌/◌, ◌%◌, ◌^◌, ◌<◌, ◌≡◌, refl, List, [], ◌∷◌, bit_and, arith}
use demuxfs.Prelude.Bits.{bit_and_mask}
use demuxfs.Byteops.{IsByte, convert_to_16, char_shift_right}
use demuxfs.Byteops.Laws.{same_below, same_below→eq, convert_to_16_lem}

pub six_at_2 : (b : ℕ) → IsByte b → bit_and (char_shift_right b 2) 0x3f ≡ b / 4 % 64
unfolding same_below
six_at_2 = same_below→eq _ _ 256 refl

pub one_at_1 : (b : ℕ) → IsByte b → bit_and (char_shift_right b 1) 0x01 ≡ b / 2 % 2
unfolding same_below
one_at_1 = same_below→eq _ _ 256 refl

pub one_at_0 : (b : ℕ) → IsByte b → bit_and b 0x01 ≡ b % 2
unfolding same_below
one_at_0 = same_below→eq _ _ 256 refl

pub three_at_5 : (b : ℕ) → IsByte b → bit_and (char_shift_right b 5) 0x07 ≡ b / 32 % 8
unfolding same_below
three_at_5 = same_below→eq _ _ 256 refl

pub one_at_4 : (b : ℕ) → IsByte b → bit_and (char_shift_right b 4) 0x01 ≡ b / 16 % 2
unfolding same_below
one_at_4 = same_below→eq _ _ 256 refl

pub four_at_4 : (b : ℕ) → IsByte b → bit_and (char_shift_right b 4) 0x0f ≡ b / 16 % 16
unfolding same_below
four_at_4 = same_below→eq _ _ 256 refl

-- Four bits and a length of twelve.
abbrev pub write_length : ℕ → ℕ → List ℕ
write_length reserved n = (reserved * 16 + n / 256) ∷ (n % 256) ∷ []

top_four : (b : ℕ) → IsByte b → char_shift_right b 4 % 16 ≡ b / 16
unfolding same_below
top_four = same_below→eq _ _ 256 refl

module _ (reserved n : ℕ) (hr : reserved < 16) (hn : n < 2 ^ 12) where
  pub length_there : bit_and (convert_to_16 (reserved * 16 + n / 256) (n % 256)) 0x0fff ≡ n
  length_there = omega (
    arith,
    bit_and_mask 12 (convert_to_16 (reserved * 16 + n / 256) (n % 256)),
    convert_to_16_lem (reserved * 16 + n / 256) (n % 256) (omega arith) (omega arith),
  )

  pub reserved_there : char_shift_right (reserved * 16 + n / 256) 4 % 16 ≡ reserved
  reserved_there = omega (arith, top_four (reserved * 16 + n / 256) (omega arith))
