-- ===== src/Crc32/Table.antt =====
-- src/crc32.c: the table-driven loop computes the bit-serial register.
use native.Mathlib.Nat.{pow-suc, one-le-pow}
use demuxfs.Prelude.{
  ℕ, zero, suc, ◌+◌, ◌*◌, ◌/◌, ◌%◌, ◌^◌, ◌<◌, ◌≡◌, refl, sym, ap, ap₂, ◌∙◌, bit_xor, List, [], ◌∷◌,
  ◌++◌, ◌==◌, arith, true, inl, inr, Bool-cases, All, get_or,
}
use demuxfs.Prelude.Bits.{
  bit_xor_comm, bit_xor_assoc, bit_xor-zero, zero-bit_xor, bit_xor_fields, bit_xor-lt,
}
use demuxfs.Byteops.{IsByte, char_to_uint}
use demuxfs.Crc32.{
  Crc32, divide_bit, divide_bits, polynomial, table_from, crc32_init_table, next_remainder,
  crc32_loop, initialize, crc32_check, initial_remainder,
}
use demuxfs.Crc32.Serial.{
  IsWord, serial_bit, serial_bits, top_bits, message_bits, feedback, divide_bit_lem,
  divide_bits-xor, xor_parts,
}

xor_of_bits : (p q : ℕ) → p < 2 → q < 2 → (p + q) % 2 ≡ bit_xor p q
xor_of_bits zero zero hp hq = refl
xor_of_bits zero (suc zero) hp hq = refl
xor_of_bits (suc zero) zero hp hq = refl
xor_of_bits (suc zero) (suc zero) hp hq = refl
xor_of_bits p (suc (suc q)) hp hq = absurd (omega arith)
xor_of_bits (suc (suc p)) q hp hq = absurd (omega arith)

serial_bit_lem :
    (r t : ℕ)
    → IsWord r
    → t < 2
    → serial_bit r t ≡ bit_xor (r * 2 % 2 ^ 32) (feedback (bit_xor (r / 2 ^ 31) t))
unfolding serial_bit
serial_bit_lem r t hr ht =
    rw (← xor_of_bits (r / 2 ^ 31) t (omega arith) ht)
      (ground (arith, bit_xor-zero (r * 2 % 2 ^ 32)))

serial_bit-IsWord : (r t : ℕ) → IsWord r → IsWord (serial_bit r t)
unfolding serial_bit
serial_bit-IsWord r t h =
    ground (arith, bit_xor-lt 32 (r * 2 % 2 ^ 32) polynomial (omega arith) (omega arith))

pub serial_bits-IsWord : (bits : List ℕ) (r : ℕ) → IsWord r → IsWord (serial_bits r bits)
unfolding serial_bits
serial_bits-IsWord [] r h = h
serial_bits-IsWord (t ∷ bits) r h =
    serial_bits-IsWord bits (serial_bit r t) (serial_bit-IsWord r t h)

-- One division step takes the top bit of `w` into the register.
divide_bit_serial :
    (r w : ℕ)
    → IsWord r
    → IsWord w
    → divide_bit (bit_xor r w) ≡ bit_xor (serial_bit r (w / 2 ^ 31)) (w * 2 % 2 ^ 32)
divide_bit_serial r w hr hw =
    let r' = r * 2 % 2 ^ 32 in
    let w' = w * 2 % 2 ^ 32 in
    let f = feedback (bit_xor (r / 2 ^ 31) (w / 2 ^ 31)) in
    rw
      (
        divide_bit_lem (bit_xor r w) (bit_xor-lt 32 r w hr hw),
        (xor_parts r w).0,
        (xor_parts r w).1,
        serial_bit_lem r (w / 2 ^ 31) hr (omega arith),
      )
      (cc (bit_xor_assoc r' w' f, bit_xor_assoc r' f w', bit_xor_comm w' f))

shift_left : ℕ → ℕ → ℕ
shift_left zero w = w
shift_left (suc n) w = shift_left n (w * 2 % 2 ^ 32)

divide_bits_serial :
    (n r w : ℕ)
    → IsWord r
    → IsWord w
    → divide_bits n (bit_xor r w) ≡ bit_xor (serial_bits r (top_bits n w)) (shift_left n w)
unfolding divide_bits serial_bits top_bits shift_left
divide_bits_serial zero r w hr hw = refl
divide_bits_serial (suc n) r w hr hw = rw (divide_bit_serial r w hr hw) (
    divide_bits_serial n (serial_bit r (w / 2 ^ 31)) (w * 2 % 2 ^ 32)
      (serial_bit-IsWord r (w / 2 ^ 31) hr) (omega arith))

shift_left_byte : (b : ℕ) → IsByte b → shift_left 8 (b * 2 ^ 24) ≡ 0
unfolding shift_left
shift_left_byte b h = omega arith

-- A byte, in the register's form.
pub serial_byte :
    (r b : ℕ)
    → IsWord r
    → IsByte b
    → serial_bits r (top_bits 8 (b * 2 ^ 24)) ≡ divide_bits 8 (bit_xor r (b * 2 ^ 24))
serial_byte r b hr hb =
    rw (divide_bits_serial 8 r (b * 2 ^ 24) hr (omega arith), shift_left_byte b hb, bit_xor-zero)

double_pow : (s n : ℕ) → s * 2 ^ suc n ≡ s * 2 * 2 ^ n
double_pow s n = omega (arith, ap (λ (t : ℕ). s * t) (pow-suc 2 n))

word_half : (s n : ℕ) → s * 2 ^ suc n < 2 ^ 32 → s < 2 ^ 31
word_half s n h = grind (arith, one-le-pow n 2, double_pow s n)

divide_bit_small : (s : ℕ) → s < 2 ^ 31 → divide_bit s ≡ s * 2
divide_bit_small s h =
    let top : s / 2 ^ 31 ≡ 0 = omega arith in
    rw (divide_bit_lem s (omega arith), top, bit_xor-zero) (omega arith)

-- As long as no bit reaches the top, the division only shifts.
divide_bits_small : (n s : ℕ) → s * 2 ^ n < 2 ^ 32 → divide_bits n s ≡ s * 2 ^ n
unfolding divide_bits
divide_bits_small zero s h = omega arith
divide_bits_small (suc n) s h =
    rw (divide_bit_small s (word_half s n h))
      (divide_bits_small n (s * 2) (omega (arith, double_pow s n)) ∙ sym (double_pow s n))

pub divide_byte_low : (s : ℕ) → s < 2 ^ 24 → divide_bits 8 s ≡ s * 2 ^ 8
divide_byte_low s h = divide_bits_small 8 s (omega arith)

get_or-table_from :
    (n d i : ℕ) → i < n → get_or (table_from n d) i 0 ≡ divide_bits 8 ((d + i) * 2 ^ 24 % 2 ^ 32)
unfolding table_from
get_or-table_from zero d i h = absurd (omega arith)
get_or-table_from (suc n) d zero h = ap (λ t. divide_bits 8 (t * 2 ^ 24 % 2 ^ 32)) (omega arith)
get_or-table_from (suc n) d (suc i) h =
    get_or-table_from n (d + 1) i (omega arith)
    ∙ ap (λ t. divide_bits 8 (t * 2 ^ 24 % 2 ^ 32)) (omega arith)

get_or-init_table : (i : ℕ) → IsByte i → get_or crc32_init_table i 0 ≡ divide_bits 8 (i * 2 ^ 24)
unfolding crc32_init_table
get_or-init_table i h = get_or-table_from 256 0 i h ∙ ap (λ t. divide_bits 8 t) (omega arith)

-- The index into the table is the exclusive or of the byte and the register's top byte.
table_idx_lem :
    (r b : ℕ)
    → IsWord r
    → IsByte b
    → bit_xor (char_to_uint 32 b) (r / 2 ^ 24) % 256 ≡ bit_xor b (r / 2 ^ 24)
table_idx_lem r b hr hb =
    let c = char_to_uint 32 b / 256 in
    let t = r / 2 ^ 24 in
    let e : char_to_uint 32 b ≡ c * 256 + b = ground arith in
    omega (
      arith,
      ap (λ (x : ℕ). bit_xor x t) e,
      ap (λ (x : ℕ). bit_xor (c * 256 + b) x) (zero_field t),
      bit_xor_fields 8 c b 0 t (omega arith) (omega arith),
      bit_xor-lt 8 b t (omega arith) (omega arith),
    )
  where
    zero_field : (t : ℕ) → t ≡ 0 * 2 ^ 8 + t
    zero_field t = omega arith

-- The register taken apart into its top byte and the rest, with a byte put on top.
byte_on_top :
    (r b : ℕ)
    → IsWord r
    → IsByte b
    → bit_xor r (b * 2 ^ 24) ≡ bit_xor (bit_xor b (r / 2 ^ 24) * 2 ^ 24) (r % 2 ^ 24)
byte_on_top r b hr hb =
    let t = r / 2 ^ 24 in
    let s = r % 2 ^ 24 in
    let low : bit_xor s 0 ≡ s = bit_xor-zero s in
    let low' : bit_xor 0 s ≡ s = zero-bit_xor s in
    omega (
      arith,
      ap₂ bit_xor (split_word r) (no_low b),
      bit_xor_fields 24 t s b 0 (omega arith) (omega arith),
      bit_xor_fields 24 (bit_xor b t) 0 0 s (omega arith) (omega arith),
      ap₂ bit_xor (no_low (bit_xor b t)) (no_high s),
      bit_xor-zero (bit_xor b t),
      bit_xor_comm t b,
      low,
      low',
    )
  where
    split_word : (r : ℕ) → r ≡ r / 2 ^ 24 * 2 ^ 24 + r % 2 ^ 24
    split_word r = omega arith

    no_low : (b : ℕ) → b * 2 ^ 24 ≡ b * 2 ^ 24 + 0
    no_low b = omega arith

    no_high : (s : ℕ) → s ≡ 0 * 2 ^ 24 + s
    no_high s = omega arith

-- One round of the loop over the buffer takes the eight bits of a byte.
next_remainder-serial :
    (r b : ℕ)
    → IsWord r
    → IsByte b
    → next_remainder crc32_init_table r b ≡ serial_bits r (top_bits 8 (b * 2 ^ 24))
unfolding next_remainder
next_remainder-serial r b hr hb =
    let i = bit_xor b (r / 2 ^ 24) in
    let hi = bit_xor-lt 8 b (r / 2 ^ 24) hb (omega arith) in
    let low : divide_bits 8 (r % 2 ^ 24) ≡ r * 2 ^ 8 % 2 ^ 32 =
      divide_byte_low (r % 2 ^ 24) (omega arith) ∙ omega arith in
    rw (
      table_idx_lem r b hr hb,
      get_or-init_table i hi,
      serial_byte r b hr hb,
      byte_on_top r b hr hb,
      divide_bits-xor 8 (i * 2 ^ 24) (r % 2 ^ 24) (omega arith) (omega arith),
      low,
    )

pub serial_bits-append :
    (xs ys : List ℕ) (r : ℕ) → serial_bits r (xs ++ ys) ≡ serial_bits (serial_bits r xs) ys
unfolding serial_bits
serial_bits-append [] ys r = refl
serial_bits-append (x ∷ xs) ys r = serial_bits-append xs ys (serial_bit r x)

crc32_loop-serial :
    (buf : List ℕ) (r : ℕ)
    → IsWord r
    → All IsByte buf
    → crc32_loop crc32_init_table buf r ≡ serial_bits r (message_bits buf)
unfolding crc32_loop serial_bits message_bits
crc32_loop-serial [] r hr hb = refl
crc32_loop-serial (b ∷ buf) r hr (hb, hs) =
    let r' = serial_bits r (top_bits 8 (b * 2 ^ 24)) in
    rw (next_remainder-serial r b hr hb) (
      crc32_loop-serial buf r' (serial_bits-IsWord (top_bits 8 (b * 2 ^ 24)) r hr) hs
      ∙ sym (serial_bits-append (top_bits 8 (b * 2 ^ 24)) (message_bits buf) r))

-- The flag tells the truth about the static table.
pub record IsValid (c : Crc32) : Type 0 where
  pub filled : c.table_initialized ≡ true → c.crc32_table ≡ crc32_init_table

-- The register of a whole message, bit by bit.
unfoldable pub crc : List ℕ → ℕ
crc buf = serial_bits initial_remainder (message_bits buf)

initialize_lem : (c : Crc32) → IsValid c → (initialize c).crc32_table ≡ crc32_init_table
unfolding initialize
initialize_lem c v = elim (Bool-cases c.table_initialized) [
  | inl e ↦ rw e (v.filled e)
  | inr e ↦ rw e refl
]

-- From a valid static state the table-driven check accepts a buffer of bytes exactly when the
-- bit-serial register ends at 0, whether or not the table had been filled before, and the state
-- that it leaves is valid and filled.
pub crc32_check-crc :
    (buf : List ℕ) (c : Crc32)
    → IsValid c
    → All IsByte buf
    → ((crc32_check buf c).0 ≡ (crc buf == 0))
      × IsValid (crc32_check buf c).1
      × ((crc32_check buf c).1.table_initialized ≡ true)
unfolding crc32_check crc
crc32_check-crc buf c v hb = (
  ap (λ t. t == 0)
      (ap (λ t. crc32_loop t buf initial_remainder) (initialize_lem c v)
        ∙ crc32_loop-serial buf initial_remainder (omega arith) hb),
  record { filled = λ _. initialize_lem c v },
  initialize_filled c,
)
  where
    initialize_filled : (c : Crc32) → (initialize c).table_initialized ≡ true
    initialize_filled c = unfold initialize in ground arith
