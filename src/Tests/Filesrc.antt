-- ===== src/Tests/Filesrc.antt =====
-- src/backends/filesrc.c at small files.
use demuxfs.Prelude.{ℕ, ◌≡◌, true, List, [], ◌∷◌, ◌++◌, arith, pos, ℤ}
use demuxfs.Hash.{hashtable_new}
use demuxfs.Ts.Parsers.{Parser}
use demuxfs.Ts.Packet.{Options, Tables}
use demuxfs.Ts.Header.{TsHeader, IsTsHeader}
use demuxfs.Filesrc.{decode_header}
use demuxfs.Filesrc.Decode.{encode_header, decode-encode}

abbrev null_header : TsHeader
null_header = record {
  sync_byte = 0x47;
  transport_error_indicator = 0;
  payload_unit_start_indicator = 1;
  transport_priority = 0;
  pid = 0x1fff;
  transport_scrambling_control = 0;
  adaptation_field = 1;
  continuity_counter = 9;
}

null_header-IsTsHeader : IsTsHeader null_header
null_header-IsTsHeader = record {
  sync_byte = omega arith;
  transport_error_indicator = omega arith;
  payload_unit_start_indicator = omega arith;
  transport_priority = omega arith;
  pid = omega arith;
  transport_scrambling_control = omega arith;
  adaptation_field = omega arith;
  continuity_counter = omega arith;
}

decode-encode_example : decode_header (encode_header null_header ++ (0xff ∷ [])) ≡ null_header
decode-encode_example = decode-encode null_header (0xff ∷ []) null_header-IsTsHeader

-- Two packets of two bytes and a rest of one.
abbrev small_file : List ℕ
small_file = 0x47 ∷ 0 ∷ 0x47 ∷ 1 ∷ 0x47 ∷ []

abbrev options : Options
options = record { packet_size = 2; packet_error_correction_bytes = 0; warns_of_crc_errors = true }

abbrev tables : Tables ℕ
tables = record { psi_parsers = hashtable_new 2; pes_parsers = hashtable_new 2; others = 0 }

abbrev parse : Parser → TsHeader → List ℕ → Tables ℕ → ℤ × Tables ℕ
parse parser header bytes t = (pos 0, t)

-- Six sync bytes, one byte apart.
abbrev sync_bytes : List ℕ
sync_bytes = 0x47 ∷ 0x47 ∷ 0x47 ∷ 0x47 ∷ 0x47 ∷ 0x47 ∷ []
