-- ===== src/Psi/Decode.antt =====
-- src/tables/psi.c: psi_parse reads back what a section header says.
use demuxfs.Prelude.{
  ℕ, ◌+◌, ◌*◌, ◌/◌, ◌%◌, ◌^◌, ◌<◌, ◌≡◌, refl, bit_and, false, some, List, [], ◌∷◌, ◌++◌, arith, ap,
  length, ltb,
}
use demuxfs.Prelude.Bits.{bit_and_mask}
use demuxfs.Byteops.{IsByte, char_shift_right, convert_to_16}
use demuxfs.Byteops.Laws.{convert_to_16_lem, same_below, same_below→eq}
use demuxfs.Filesrc.Decode.{bit_at_7, bit_at_6, bits_at_6, bits_at_4}
use demuxfs.Psi.{PsiHeader, decode_psi_header, psi_parse}

-- Each field fits its width.
pub record IsPsiHeader (h : PsiHeader) : Type 0 where
  pub table_id : h.table_id < 2 ^ 8
  pub section_syntax_indicator : h.section_syntax_indicator < 2
  pub reserved_1 : h.reserved_1 < 2
  pub reserved_2 : h.reserved_2 < 4
  pub section_length : h.section_length < 2 ^ 12
  pub identifier : h.identifier < 2 ^ 16
  pub reserved_3 : h.reserved_3 < 4
  pub version_number : h.version_number < 2 ^ 5
  pub current_next_indicator : h.current_next_indicator < 2
  pub section_number : h.section_number < 2 ^ 8
  pub last_section_number : h.last_section_number < 2 ^ 8

abbrev flags : PsiHeader → ℕ
flags h =
    h.section_syntax_indicator * 128
    + h.reserved_1 * 64
    + h.reserved_2 * 16
    + h.section_length / 256

abbrev version : PsiHeader → ℕ
version h = h.reserved_3 * 64 + h.version_number * 2 + h.current_next_indicator

-- The eight bytes that carry a header.
abbrev pub encode_psi_header : PsiHeader → List ℕ
encode_psi_header h =
    h.table_id
    ∷ flags h
    ∷ (h.section_length % 256)
    ∷ (h.identifier / 256)
    ∷ (h.identifier % 256)
    ∷ version h
    ∷ h.section_number
    ∷ h.last_section_number
    ∷ []

bits_at_1 : (b : ℕ) → IsByte b → bit_and (char_shift_right b 1) 0x1f ≡ b / 2 % 32
unfolding same_below
bits_at_1 = same_below→eq _ _ 256 refl

bit_at_0 : (b : ℕ) → IsByte b → bit_and b 0x01 ≡ b % 2
unfolding same_below
bit_at_0 = same_below→eq _ _ 256 refl

-- Parsing the eight bytes that carry a header, whatever follows them, gives the header.
pub psi_parse-encode :
    (h : PsiHeader) (rest : List ℕ)
    → IsPsiHeader h
    → psi_parse (encode_psi_header h ++ rest) ≡ some h
unfolding psi_parse decode_psi_header
psi_parse-encode h rest v =
    let b1 = flags h in
    let b2 = h.section_length % 256 in
    let b5 = version h in
    let h1 : IsByte b1 = omega arith in
    let h5 : IsByte b5 = omega arith in
    let long : ltb (length (encode_psi_header h ++ rest)) 8 ≡ false = ground arith in
    let e1 : bit_and (char_shift_right b1 7) 0x01 ≡ h.section_syntax_indicator =
      omega (arith, bit_at_7 b1 h1) in
    let e2 : bit_and (char_shift_right b1 6) 0x01 ≡ h.reserved_1 = omega (arith, bit_at_6 b1 h1) in
    let e3 : bit_and (char_shift_right b1 4) 0x03 ≡ h.reserved_2 = omega (arith, bits_at_4 b1 h1) in
    let e4 : bit_and (convert_to_16 b1 b2) 0x0fff ≡ h.section_length =
      omega
        (arith, bit_and_mask 12 (convert_to_16 b1 b2), convert_to_16_lem b1 b2 h1 (omega arith)) in
    let e5 : convert_to_16 (h.identifier / 256) (h.identifier % 256) ≡ h.identifier = omega (
      arith,
      convert_to_16_lem (h.identifier / 256) (h.identifier % 256) (omega arith) (omega arith),
    ) in
    let e6 : bit_and (char_shift_right b5 6) 0x03 ≡ h.reserved_3 = omega (arith, bits_at_6 b5 h5) in
    let e7 : bit_and (char_shift_right b5 1) 0x1f ≡ h.version_number =
      omega (arith, bits_at_1 b5 h5) in
    let e8 : bit_and b5 0x01 ≡ h.current_next_indicator = omega (arith, bit_at_0 b5 h5) in
    let same : decode_psi_header (encode_psi_header h ++ rest) ≡ h = λ i. record {
      table_id = h.table_id;
      section_syntax_indicator = e1 i;
      reserved_1 = e2 i;
      reserved_2 = e3 i;
      section_length = e4 i;
      identifier = e5 i;
      reserved_3 = e6 i;
      version_number = e7 i;
      current_next_indicator = e8 i;
      section_number = h.section_number;
      last_section_number = h.last_section_number;
    } in
    rw long (ap some same)
