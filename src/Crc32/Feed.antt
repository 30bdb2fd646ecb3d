-- ===== src/Crc32/Feed.antt =====
-- src/crc32.c: the register over a message, bit by bit and in one piece.
use mathlib.Core.List.{append_assoc}
use demuxfs.Prelude.{
  ℕ, zero, suc, ◌+◌, ◌*◌, ◌%◌, ◌^◌, ◌<◌, ◌≡◌, refl, sym, ap, ap₂, ◌∙◌, bit_xor, List, [], ◌∷◌, ◌++◌,
  arith, All,
}
use demuxfs.Prelude.Bits.{
  bit_xor_step, bit_xor_comm, bit_xor_assoc, bit_xor_self, bit_xor-zero, bit_xor_fields, bit_xor-lt,
  eq_of_xor_zero,
}
use demuxfs.Byteops.{IsByte}
use demuxfs.Crc32.{divide_bit, divide_bits, polynomial}
use demuxfs.Crc32.Serial.{
  IsWord, serial_bits, top_bits, message_bits, divide_bit_lem, divide_bit-IsWord, divide_bits-xor,
  divide_bit-xor,
}
use demuxfs.Crc32.Table.{serial_byte, serial_bits-append, serial_bits-IsWord, divide_byte_low}

-- The division step is one to one: a word that it takes to 0 is 0.
pub divide_bit-eq_zero : (r : ℕ) → IsWord r → divide_bit r ≡ 0 → r ≡ 0
divide_bit-eq_zero r h e = ground (
  arith,
  divide_bit_lem r h,
  bit_xor-zero (r * 2 % 2 ^ 32),
  bit_xor_step (r * 2 % 2 ^ 32) polynomial,
)

pub divide_bit-injective : (a b : ℕ) → IsWord a → IsWord b → divide_bit a ≡ divide_bit b → a ≡ b
divide_bit-injective a b ha hb e = eq_of_xor_zero a b (
    divide_bit-eq_zero (bit_xor a b) (bit_xor-lt 32 a b ha hb)
      (divide_bit-xor a b ha hb ∙ rw e (bit_xor_self (divide_bit b))))

pub divide_bits-injective :
    (n a b : ℕ) → IsWord a → IsWord b → divide_bits n a ≡ divide_bits n b → a ≡ b
unfolding divide_bits
divide_bits-injective zero a b ha hb e = e
divide_bits-injective (suc n) a b ha hb e = divide_bit-injective a b ha hb (
    divide_bits-injective n (divide_bit a) (divide_bit b) (divide_bit-IsWord a ha)
      (divide_bit-IsWord b hb) e)

pub divide_bits-add : (m n r : ℕ) → divide_bits (m + n) r ≡ divide_bits n (divide_bits m r)
unfolding divide_bits
divide_bits-add zero n r = let e : 0 + n ≡ n = omega arith in rw e
divide_bits-add (suc m) n r =
    ap (λ t. divide_bits t r) (suc_add m n) ∙ divide_bits-add m n (divide_bit r)
  where
    suc_add : (m n : ℕ) → suc m + n ≡ suc (m + n)
    suc_add m n = omega arith

-- Eight bits of a longer word: the first byte enters, and the rest moves up.
pub divide_first_byte :
    (r a s : ℕ)
    → IsWord r
    → IsByte a
    → s < 2 ^ 24
    → divide_bits 8 (bit_xor r (a * 2 ^ 24 + s))
      ≡ bit_xor (serial_bits r (top_bits 8 (a * 2 ^ 24))) (s * 2 ^ 8)
divide_first_byte r a s hr ha hs =
    let w : bit_xor (a * 2 ^ 24) s ≡ a * 2 ^ 24 + s = omega (
      arith,
      ap₂ bit_xor (no_low a) (no_high s),
      bit_xor_fields 24 a 0 0 s (omega arith) (omega arith),
      bit_xor-zero a,
      bit_xor_comm 0 s,
      bit_xor-zero s,
    ) in
    rw (
      ← w,
      ← bit_xor_assoc r (a * 2 ^ 24) s,
      divide_bits-xor 8 (bit_xor r (a * 2 ^ 24)) s (bit_xor-lt 32 r (a * 2 ^ 24) hr (omega arith))
          (omega arith),
      divide_byte_low s hs,
      serial_byte r a hr ha,
    )
  where
    no_low : (b : ℕ) → b * 2 ^ 24 ≡ b * 2 ^ 24 + 0
    no_low b = omega arith

    no_high : (s : ℕ) → s ≡ 0 * 2 ^ 24 + s
    no_high s = omega arith

unfoldable pub feed : ℕ → List ℕ → ℕ
feed r bytes = serial_bits r (message_bits bytes)

pub message_bits-append :
    (xs ys : List ℕ) → message_bits (xs ++ ys) ≡ message_bits xs ++ message_bits ys
unfolding message_bits
message_bits-append [] ys = refl
message_bits-append (x ∷ xs) ys =
    let b = top_bits 8 (x * 2 ^ 24) in
    ap (λ t. b ++ t) (message_bits-append xs ys)
    ∙ sym (append_assoc b (message_bits xs) (message_bits ys))

pub feed-append : (xs ys : List ℕ) (r : ℕ) → feed r (xs ++ ys) ≡ feed (feed r xs) ys
unfolding feed
feed-append xs ys r =
    ap (serial_bits r) (message_bits-append xs ys)
    ∙ serial_bits-append (message_bits xs) (message_bits ys) r

pub feed-IsWord : (xs : List ℕ) (r : ℕ) → IsWord r → IsWord (feed r xs)
unfolding feed
feed-IsWord xs r h = serial_bits-IsWord (message_bits xs) r h

pub feed-cons :
    (r x : ℕ) (xs : List ℕ) → feed r (x ∷ xs) ≡ feed (serial_bits r (top_bits 8 (x * 2 ^ 24))) xs
unfolding feed message_bits
feed-cons r x xs = serial_bits-append (top_bits 8 (x * 2 ^ 24)) (message_bits xs) r

pub feed-nil : (r : ℕ) → feed r [] ≡ r
unfolding feed message_bits serial_bits
feed-nil r = refl

-- The register is one to one in its start, whatever bytes follow.
pub feed-injective :
    (xs : List ℕ) (a b : ℕ) → IsWord a → IsWord b → All IsByte xs → feed a xs ≡ feed b xs → a ≡ b
feed-injective [] a b ha hb h e = cc (feed-nil a, feed-nil b)
feed-injective (x ∷ xs) a b ha hb (hx, hs) e =
    let w = x * 2 ^ 24 in
    let t = top_bits 8 w in
    let e' : serial_bits a t ≡ serial_bits b t =
      feed-injective xs (serial_bits a t) (serial_bits b t) (serial_bits-IsWord t a ha)
        (serial_bits-IsWord t b hb) hs (cc (feed-cons a x xs, feed-cons b x xs)) in
    let same : bit_xor a w ≡ bit_xor b w =
      divide_bits-injective 8 (bit_xor a w) (bit_xor b w) (bit_xor-lt 32 a w ha (omega arith))
        (bit_xor-lt 32 b w hb (omega arith)) (cc (serial_byte a x ha hx, serial_byte b x hb hx)) in
    cancel a b w same
  where
    cancel : (a b w : ℕ) → bit_xor a w ≡ bit_xor b w → a ≡ b
    cancel a b w same =
        cc
          (bit_xor_assoc a w w, bit_xor_assoc b w w, bit_xor_self w, bit_xor-zero a, bit_xor-zero b)

abbrev pub word : ℕ → ℕ → ℕ → ℕ → ℕ
word a b c d = a * 2 ^ 24 + b * 2 ^ 16 + c * 2 ^ 8 + d

-- Four bytes enter as one word.
pub feed_four :
    (r a b c d : ℕ)
    → IsWord r
    → IsByte a
    → IsByte b
    → IsByte c
    → IsByte d
    → feed r (a ∷ b ∷ c ∷ d ∷ []) ≡ divide_bits 32 (bit_xor r (word a b c d))
feed_four r a b c d hr ha hb hc hd =
    let next = λ (r x : ℕ). serial_bits r (top_bits 8 (x * 2 ^ 24)) in
    let r₁ = next r a in
    let r₂ = next r₁ b in
    let r₃ = next r₂ c in
    let h₁ = serial_bits-IsWord (top_bits 8 (a * 2 ^ 24)) r hr in
    let h₂ = serial_bits-IsWord (top_bits 8 (b * 2 ^ 24)) r₁ h₁ in
    let h₃ = serial_bits-IsWord (top_bits 8 (c * 2 ^ 24)) r₂ h₂ in
    let s₁ = b * 2 ^ 16 + c * 2 ^ 8 + d in
    let s₂ = c * 2 ^ 16 + d * 2 ^ 8 in
    let s₃ = d * 2 ^ 16 in
    let e₁ : word a b c d ≡ a * 2 ^ 24 + s₁ = omega arith in
    let e₂ : s₁ * 2 ^ 8 ≡ b * 2 ^ 24 + s₂ = omega arith in
    let e₃ : s₂ * 2 ^ 8 ≡ c * 2 ^ 24 + s₃ = omega arith in
    let e₄ : s₃ * 2 ^ 8 ≡ d * 2 ^ 24 + 0 = omega arith in
    rw (
      feed-cons r a (b ∷ c ∷ d ∷ []),
      feed-cons r₁ b (c ∷ d ∷ []),
      feed-cons r₂ c (d ∷ []),
      feed-cons r₃ d [],
      feed-nil,
      divide_bits-add 8 24 (bit_xor r (word a b c d)),
      e₁,
      divide_first_byte r a s₁ hr ha (omega arith),
      e₂,
      divide_bits-add 8 16 (bit_xor r₁ (b * 2 ^ 24 + s₂)),
      divide_first_byte r₁ b s₂ h₁ hb (omega arith),
      e₃,
      divide_bits-add 8 8 (bit_xor r₂ (c * 2 ^ 24 + s₃)),
      divide_first_byte r₂ c s₃ h₂ hc (omega arith),
      e₄,
      divide_first_byte r₃ d 0 h₃ hd (omega arith),
      bit_xor-zero,
    )
