-- ===== src/Psi.antt =====
-- src/tables/psi.c, src/tables/psi.h: the header that the PSI tables share.
-- The directory entry of the structure is not modelled; `psi_check_header` only warns.
pub mod Decode
use demuxfs.Prelude.{
  ℕ, ◌/◌, ◌%◌, ◌^◌, bit_and, Bool, true, false, not, ◌&&◌, Option, none, some, List, ◌==◌, ltb, leb,
  if◌then◌else◌, length, get_or,
}
use demuxfs.Byteops.{convert_to_16, char_shift_right}

pub record PsiHeader : Type 0 where
  pub table_id : ℕ
  pub section_syntax_indicator : ℕ
  pub reserved_1 : ℕ
  pub reserved_2 : ℕ
  pub section_length : ℕ
  pub identifier : ℕ
  pub reserved_3 : ℕ
  pub version_number : ℕ
  pub current_next_indicator : ℕ
  pub section_number : ℕ
  pub last_section_number : ℕ

-- TS_MAX_SECTION_LENGTH and TS_LAST_TABLE_ID.
abbrev pub max_section_length : ℕ
max_section_length = 0x03FD

abbrev pub last_table_id : ℕ
last_table_id = 0xBF

unfoldable pub psi_check_header : PsiHeader → Bool
psi_check_header h =
    h.section_syntax_indicator == 1
    && leb h.section_length max_section_length
    && leb h.table_id last_table_id

-- The fields, from a payload of at least eight bytes.
unfoldable pub decode_psi_header : List ℕ → PsiHeader
decode_psi_header payload =
    let b1 = get_or payload 1 0 in
    let b5 = get_or payload 5 0 in
    record {
      table_id = get_or payload 0 0;
      section_syntax_indicator = bit_and (char_shift_right b1 7) 0x01;
      reserved_1 = bit_and (char_shift_right b1 6) 0x01;
      reserved_2 = bit_and (char_shift_right b1 4) 0x03;
      section_length = bit_and (convert_to_16 b1 (get_or payload 2 0)) 0x0fff;
      identifier = convert_to_16 (get_or payload 3 0) (get_or payload 4 0);
      reserved_3 = bit_and (char_shift_right b5 6) 0x03;
      version_number = bit_and (char_shift_right b5 1) 0x1f;
      current_next_indicator = bit_and b5 0x01;
      section_number = get_or payload 6 0;
      last_section_number = get_or payload 7 0;
    }

-- The payload is the `payload_len` bytes; `none` is -1.
unfoldable pub psi_parse : List ℕ → Option PsiHeader
unfolding decode_psi_header
psi_parse payload = if ltb (length payload) 8 then none else some (decode_psi_header payload)
