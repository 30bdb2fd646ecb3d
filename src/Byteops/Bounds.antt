-- ===== src/Byteops/Bounds.antt =====
-- src/byteops.h: the range of CONVERT_TO_16, whatever it is given.
use native.Mathlib.Nat.{pow-suc}
use demuxfs.Prelude.{ℕ, zero, suc, ◌*◌, ◌/◌, ◌^◌, ◌≤◌, ◌<◌, ◌≡◌, arith, bit_and, bit_or}
use demuxfs.Prelude.Bits.{bit_and_step, bit_or_step, bit_and-zero}
use demuxfs.Byteops.{char_to_uint, convert_to_16}

bit_or-lt : (k a b : ℕ) → a < 2 ^ k → b < 2 ^ k → bit_or a b < 2 ^ k
bit_or-lt zero a b h g =
    let z : a ≡ 0 = omega arith in let w : b ≡ 0 = omega arith in rw (z, w) (omega arith)
bit_or-lt (suc k) a b h g =
    let p = pow-suc 2 k in
    omega
      (arith, bit_or_step a b, p, bit_or-lt k (a / 2) (b / 2) (omega (arith, p)) (omega (arith, p)))

bit_and-le : (n a b : ℕ) → b ≤ n → bit_and a b ≤ b
bit_and-le zero a b h = omega (arith, bit_and_zero a b (omega arith))
  where
    bit_and_zero : (a b : ℕ) → b ≡ 0 → bit_and a b ≡ 0
    bit_and_zero a b z = rw z (bit_and-zero a)
bit_and-le (suc n) a b h =
    omega (arith, bit_and_step a b, bit_and-le n (a / 2) (b / 2) (omega arith))

pub convert_to_16-lt : (a b : ℕ) → convert_to_16 a b < 2 ^ 16
unfolding convert_to_16
convert_to_16-lt a b =
    bit_or-lt 16 (bit_and (char_to_uint 16 a * 2 ^ 8) 0xff00) (bit_and b 0xff)
      (omega (arith, bit_and-le 0xff00 (char_to_uint 16 a * 2 ^ 8) 0xff00 (omega arith)))
      (omega (arith, bit_and-le 0xff b 0xff (omega arith)))
