-- ===== src/Byteops.antt =====
-- src/byteops.h: the macros that join bytes into numbers, most significant byte first.
-- A byte of a C `char` array is its bit pattern, below 256. A cast of a plain `char` to a wider
-- unsigned type extends the sign, so the bits above the byte are set when its top bit is.
pub mod Laws
pub mod Bounds
use demuxfs.Prelude.{ℕ, ◌+◌, ◌-◌, ◌*◌, ◌/◌, ◌%◌, ◌^◌, ◌<◌, bit_and, bit_or, ltb, if◌then◌else◌}

abbrev pub IsByte : ℕ → Type 0
IsByte b = b < 256

-- The cast of a `char` to an unsigned type of `w` bits.
abbrev pub char_to_uint : ℕ → ℕ → ℕ
char_to_uint w b = if ltb b 128 then b else b + (2 ^ w - 256)

-- `c >> k` on a `char`, which is promoted to a 32-bit `int` and shifted with its sign. The result
-- is the bit pattern.
abbrev pub char_shift_right : ℕ → ℕ → ℕ
char_shift_right b k =
    if ltb b 128 then b / 2 ^ k else char_to_uint 32 b / 2 ^ k + (2 ^ 32 - 2 ^ (32 - k))

unfoldable pub convert_to_16 : ℕ → ℕ → ℕ
convert_to_16 a b = bit_or (bit_and (char_to_uint 16 a * 2 ^ 8) 0xff00) (bit_and b 0xff)

unfoldable pub convert_to_24 : ℕ → ℕ → ℕ → ℕ
unfolding convert_to_16
convert_to_24 a b c =
    bit_or (bit_and (char_to_uint 32 a * 2 ^ 16 % 2 ^ 32) 0xff0000) (convert_to_16 b c)

unfoldable pub convert_to_32 : ℕ → ℕ → ℕ → ℕ → ℕ
unfolding convert_to_24
convert_to_32 a b c d =
    bit_or (bit_and (char_to_uint 32 a * 2 ^ 24 % 2 ^ 32) 0xff000000) (convert_to_24 b c d)

unfoldable pub convert_to_40 : ℕ → ℕ → ℕ → ℕ → ℕ → ℕ
unfolding convert_to_32
convert_to_40 a b c d e =
    bit_or (bit_and (char_to_uint 64 a * 2 ^ 32 % 2 ^ 64) 0xff00000000) (convert_to_32 b c d e)

unfoldable pub convert_to_48 : ℕ → ℕ → ℕ → ℕ → ℕ → ℕ → ℕ
unfolding convert_to_40
convert_to_48 a b c d e f =
    bit_or (bit_and (char_to_uint 64 a * 2 ^ 40 % 2 ^ 64) 0xff0000000000) (convert_to_40 b c d e f)

unfoldable pub convert_to_56 : ℕ → ℕ → ℕ → ℕ → ℕ → ℕ → ℕ → ℕ
unfolding convert_to_48
convert_to_56 a b c d e f g =
    bit_or (bit_and (char_to_uint 64 a * 2 ^ 48 % 2 ^ 64) 0xff000000000000)
      (convert_to_48 b c d e f g)

unfoldable pub convert_to_64 : ℕ → ℕ → ℕ → ℕ → ℕ → ℕ → ℕ → ℕ → ℕ
unfolding convert_to_56
convert_to_64 a b c d e f g h =
    bit_or (bit_and (char_to_uint 64 a * 2 ^ 56 % 2 ^ 64) 0xff00000000000000)
      (convert_to_56 b c d e f g h)
