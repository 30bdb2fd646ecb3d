-- ===== src/Tests/Crc32.antt =====
-- src/crc32.c at concrete sections.
use demuxfs.Prelude.{ℕ, ◌≡◌, ◌↔◌, refl, true, [], ◌∷◌, ◌++◌, ◌==◌, arith}
use demuxfs.Byteops.{convert_to_32}
use demuxfs.Crc32.{
  fresh, crc32_check, initialize, crc32_loop, crc32_init_table, table_from, divide_bits, divide_bit,
  next_remainder,
}
use demuxfs.Crc32.Table.{IsValid, crc, crc32_check-crc}
use demuxfs.Crc32.Codeword.{crc32_check-trailer, crc32_check-burst}

fresh-IsValid : IsValid fresh
fresh-IsValid = record { filled = λ e. ground arith }

crc32_check-crc_example :
    ((crc32_check (0xff ∷ 0xff ∷ 0xff ∷ 0xff ∷ []) fresh).0
      ≡ (crc (0xff ∷ 0xff ∷ 0xff ∷ 0xff ∷ []) == 0))
    × IsValid (crc32_check (0xff ∷ 0xff ∷ 0xff ∷ 0xff ∷ []) fresh).1
    × ((crc32_check (0xff ∷ 0xff ∷ 0xff ∷ 0xff ∷ []) fresh).1.table_initialized ≡ true)
crc32_check-crc_example =
    crc32_check-crc (0xff ∷ 0xff ∷ 0xff ∷ 0xff ∷ []) fresh fresh-IsValid
      (omega arith, (omega arith, (omega arith, (omega arith, tt))))

crc32_check-trailer_example :
    ((crc32_check ([] ++ (0xff ∷ 0xff ∷ 0xff ∷ 0xff ∷ [])) fresh).0 ≡ true)
    ↔ (convert_to_32 0xff 0xff 0xff 0xff ≡ crc [])
crc32_check-trailer_example =
    crc32_check-trailer [] 0xff 0xff 0xff 0xff fresh fresh-IsValid tt
      (omega arith, (omega arith, (omega arith, (omega arith, tt))))

all_ones_accepted : (crc32_check (0xff ∷ 0xff ∷ 0xff ∷ 0xff ∷ []) fresh).0 ≡ true
unfolding crc32_check initialize crc32_loop crc32_init_table table_from divide_bits divide_bit
    next_remainder
all_ones_accepted = refl

abbrev byte : ℕ
byte = 0xff

crc32_check-burst_example : (byte ≡ byte) × (byte ≡ byte) × (byte ≡ byte) × (byte ≡ byte)
crc32_check-burst_example =
    crc32_check-burst [] [] 0xff 0xff 0xff 0xff 0xff 0xff 0xff 0xff fresh fresh-IsValid tt tt
      (
        omega arith,
        (
          omega arith,
          (
            omega arith,
            (omega arith, (omega arith, (omega arith, (omega arith, (omega arith, tt))))),
          ),
        ),
      )
      all_ones_accepted all_ones_accepted
