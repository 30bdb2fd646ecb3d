-- ===== src/Crc32/Serial.antt =====
-- src/crc32.c: the reference, a register that takes the message one bit at a time, and its algebra.
use demuxfs.Prelude.{
  ℕ, zero, suc, ◌+◌, ◌*◌, ◌/◌, ◌%◌, ◌^◌, ◌<◌, ◌≡◌, refl, ap, ap₂, bit_and, bit_xor, List, [], ◌∷◌,
  ◌++◌, ◌==◌, if◌then◌else◌, arith,
}
use demuxfs.Prelude.Bits.{
  bit_and_mask, bit_and_fields, bit_and-zero, bit_xor_step, bit_xor-zero, bit_xor_fields,
  bit_xor-lt, bit_xor_exchange,
}
use demuxfs.Crc32.{polynomial, topbit, divide_bit, divide_bits}

abbrev pub IsWord : ℕ → Type 0
IsWord r = r < 2 ^ 32

-- One bit of the message enters beside the top bit of the register.
unfoldable pub serial_bit : ℕ → ℕ → ℕ
serial_bit r bit =
    if (r / 2 ^ 31 + bit) % 2 == 0 then r * 2 % 2 ^ 32 else bit_xor (r * 2 % 2 ^ 32) polynomial

unfoldable pub serial_bits : ℕ → List ℕ → ℕ
serial_bits r [] = r
serial_bits r (bit ∷ bits) = serial_bits (serial_bit r bit) bits

-- The `n` top bits of a 32-bit word, the highest first.
unfoldable pub top_bits : ℕ → ℕ → List ℕ
top_bits zero w = []
top_bits (suc n) w = w / 2 ^ 31 ∷ top_bits n (w * 2 % 2 ^ 32)

-- The bits of a message of bytes, most significant bit of each byte first.
unfoldable pub message_bits : List ℕ → List ℕ
message_bits [] = []
message_bits (b ∷ bs) = top_bits 8 (b * 2 ^ 24) ++ message_bits bs

-- The top bit, by arithmetic.
mask_top : (r : ℕ) → IsWord r → bit_and r topbit ≡ r / 2 ^ 31 * 2 ^ 31
mask_top r h =
    let q = r / 2 ^ 31 in
    let s = r % 2 ^ 31 in
    let e : r ≡ q * 2 ^ 31 + s = omega arith in
    omega (
      arith,
      ap (λ (t : ℕ). bit_and t topbit) e,
      bit_and_fields 31 q s 1 0 (omega arith) (omega arith),
      bit_and_mask 1 q,
      bit_and-zero s,
    )

-- What the top bit adds.
abbrev pub feedback : ℕ → ℕ
feedback bit = if bit == 0 then 0 else polynomial

-- `divide_bit` on a word, in plain arithmetic.
pub divide_bit_lem :
    (r : ℕ) → IsWord r → divide_bit r ≡ bit_xor (r * 2 % 2 ^ 32) (feedback (r / 2 ^ 31))
unfolding divide_bit
divide_bit_lem r h = rw (mask_top r h) (ground (arith, bit_xor-zero (r * 2 % 2 ^ 32)))

pub divide_bit-IsWord : (r : ℕ) → IsWord r → IsWord (divide_bit r)
divide_bit-IsWord r h =
    rw (divide_bit_lem r h)
      (bit_xor-lt 32 (r * 2 % 2 ^ 32) (feedback (r / 2 ^ 31)) (omega arith) (ground arith))

pub divide_bits-IsWord : (n r : ℕ) → IsWord r → IsWord (divide_bits n r)
unfolding divide_bits
divide_bits-IsWord zero r h = h
divide_bits-IsWord (suc n) r h = divide_bits-IsWord n (divide_bit r) (divide_bit-IsWord r h)

feedback-xor :
    (p q : ℕ) → p < 2 → q < 2 → feedback (bit_xor p q) ≡ bit_xor (feedback p) (feedback q)
feedback-xor zero zero hp hq = refl
feedback-xor zero (suc zero) hp hq = refl
feedback-xor (suc zero) zero hp hq = refl
feedback-xor (suc zero) (suc zero) hp hq = refl
feedback-xor p (suc (suc q)) hp hq = absurd (omega arith)
feedback-xor (suc (suc p)) q hp hq = absurd (omega arith)

-- Exclusive or acts on the top bit and on the rest apart.
pub xor_parts :
    (a b : ℕ)
    → (bit_xor a b / 2 ^ 31 ≡ bit_xor (a / 2 ^ 31) (b / 2 ^ 31))
      × (bit_xor a b * 2 % 2 ^ 32 ≡ bit_xor (a * 2 % 2 ^ 32) (b * 2 % 2 ^ 32))
xor_parts a b =
    let p = a / 2 ^ 31 in
    let q = b / 2 ^ 31 in
    let s = a % 2 ^ 31 in
    let t = b % 2 ^ 31 in
    let split : bit_xor a b ≡ bit_xor p q * 2 ^ 31 + bit_xor s t =
      cc (bit_xor_fields 31 p s q t (omega arith) (omega arith), split_word a, split_word b) in
    let small = bit_xor-lt 31 s t (omega arith) (omega arith) in
    let twice : bit_xor (s * 2) (t * 2) ≡ bit_xor s t * 2 = omega (arith, twice_fields s t) in
    (
      omega (arith, split, small),
      rw (double_word a, double_word b, twice) (omega (arith, split, small)),
    )
  where
    split_word : (a : ℕ) → a / 2 ^ 31 * 2 ^ 31 + a % 2 ^ 31 ≡ a
    split_word a = omega arith

    double_word : (a : ℕ) → a * 2 % 2 ^ 32 ≡ a % 2 ^ 31 * 2
    double_word a = omega arith

    twice_fields : (s t : ℕ) → bit_xor (s * 2) (t * 2) ≡ bit_xor s t * 2
    twice_fields s t = omega (arith, bit_xor_step (s * 2) (t * 2), ap₂ bit_xor (half s) (half t))
      where
        half : (s : ℕ) → s * 2 / 2 ≡ s
        half s = omega arith

-- The division step is linear.
pub divide_bit-xor :
    (a b : ℕ)
    → IsWord a
    → IsWord b
    → divide_bit (bit_xor a b) ≡ bit_xor (divide_bit a) (divide_bit b)
divide_bit-xor a b ha hb =
    let p = a / 2 ^ 31 in
    let q = b / 2 ^ 31 in
    rw
      (
        divide_bit_lem (bit_xor a b) (bit_xor-lt 32 a b ha hb),
        divide_bit_lem a ha,
        divide_bit_lem b hb,
        (xor_parts a b).0,
        (xor_parts a b).1,
        feedback-xor p q (omega arith) (omega arith),
      )
      (bit_xor_exchange (a * 2 % 2 ^ 32) (b * 2 % 2 ^ 32) (feedback p) (feedback q))

pub divide_bits-xor :
    (n a b : ℕ)
    → IsWord a
    → IsWord b
    → divide_bits n (bit_xor a b) ≡ bit_xor (divide_bits n a) (divide_bits n b)
unfolding divide_bits
divide_bits-xor zero a b ha hb = refl
divide_bits-xor (suc n) a b ha hb = rw (divide_bit-xor a b ha hb) (
    divide_bits-xor n (divide_bit a) (divide_bit b) (divide_bit-IsWord a ha)
      (divide_bit-IsWord b hb))
