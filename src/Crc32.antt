-- ===== src/Crc32.antt =====
-- src/crc32.c: the table-driven check of a section's CRC.
-- The static table and the flag that says whether it has been filled are a state that
-- `crc32_check` takes and returns. A byte of the buffer is its bit pattern.
pub mod Serial
pub mod Table
pub mod Feed
pub mod Codeword
use demuxfs.Prelude.{
  ℕ, zero, suc, ◌+◌, ◌*◌, ◌/◌, ◌%◌, ◌^◌, bit_and, bit_xor, Bool, true, false, not, List, [], ◌∷◌,
  ◌==◌, if◌then◌else◌, get_or, replicate,
}
use demuxfs.Byteops.{char_to_uint}

abbrev pub topbit : ℕ
topbit = 0x80000000

abbrev pub polynomial : ℕ
polynomial = 0x04C11DB7

abbrev pub initial_remainder : ℕ
initial_remainder = 0xFFFFFFFF

abbrev pub table_size : ℕ
table_size = 256

-- The body of the loop over the bits of a dividend.
unfoldable pub divide_bit : ℕ → ℕ
divide_bit remainder =
    if bit_and remainder topbit == 0
    then remainder * 2 % 2 ^ 32
    else bit_xor (remainder * 2 % 2 ^ 32) polynomial

-- That loop, `bit` rounds.
unfoldable pub divide_bits : ℕ → ℕ → ℕ
unfolding divide_bit
divide_bits zero remainder = remainder
divide_bits (suc bit) remainder = divide_bits bit (divide_bit remainder)

-- The table from `dividend` on, `n` entries.
unfoldable pub table_from : ℕ → ℕ → List ℕ
unfolding divide_bits
table_from zero dividend = []
table_from (suc n) dividend =
    divide_bits 8 (dividend * 2 ^ 24 % 2 ^ 32) ∷ table_from n (dividend + 1)

unfoldable pub crc32_init_table : List ℕ
unfolding table_from
crc32_init_table = table_from table_size 0

pub record Crc32 : Type 0 where
  pub crc32_table : List ℕ
  pub table_initialized : Bool

-- Before the first call the static table is all zero.
abbrev pub fresh : Crc32
fresh = record { crc32_table = replicate table_size 0; table_initialized = false }

-- `table_idx` takes the low 8 bits of the exclusive or.
unfoldable pub next_remainder : List ℕ → ℕ → ℕ → ℕ
next_remainder table remainder byte =
    let table_idx = bit_xor (char_to_uint 32 byte) (remainder / 2 ^ 24) % 256 in
    bit_xor (get_or table table_idx 0) (remainder * 2 ^ 8 % 2 ^ 32)

unfoldable pub crc32_loop : List ℕ → List ℕ → ℕ → ℕ
unfolding next_remainder
crc32_loop table [] remainder = remainder
crc32_loop table (byte ∷ buf) remainder = crc32_loop table buf (next_remainder table remainder byte)

unfoldable pub initialize : Crc32 → Crc32
unfolding crc32_init_table
initialize c =
    if not c.table_initialized
    then record { crc32_table = crc32_init_table; table_initialized = true }
    else c

-- The list holds the `len` bytes of `buf`.
unfoldable pub crc32_check : List ℕ → Crc32 → Bool × Crc32
unfolding initialize crc32_loop
crc32_check buf c =
    let c' = initialize c in (crc32_loop c'.crc32_table buf initial_remainder == 0, c')
