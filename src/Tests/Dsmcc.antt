-- ===== src/Tests/Dsmcc.antt =====
-- src/dsm-cc/ at concrete sections of a carousel.
use demuxfs.Prelude.{
  ◌+◌, ◌-◌, ◌%◌, ◌^◌, ◌≡◌, refl, false, ℤ, pos, to_int, some, none, [], ◌∷◌, ◌++◌, ok, arith,
}
use demuxfs.Byteops.{convert_to_16}
use demuxfs.Cursor.{cursor, u16}
use demuxfs.Cursor.Laws.{be16, write_all, size_all}
use demuxfs.Psi.{PsiHeader}
use demuxfs.Psi.Decode.{IsPsiHeader}
use demuxfs.Dsmcc.{DsmccMessageHeader}
use demuxfs.Dsmcc.Encode.{no_adaptation}
use demuxfs.Dsmcc.Compatibility.{
  DescriptorEntry, CompatibilityDescriptor, dsmcc_parse_compatibility_descriptors,
}
use demuxfs.Dsmcc.Compatibility.Encode.{
  IsEntry, write_entry, last_refused, dsmcc_parse_compatibility_descriptors-write,
}
use demuxfs.Dsmcc.Dii.{DiiModule, DiiTable, dii_fields}
use demuxfs.Dsmcc.Dii.Encode.{
  IsModule, no_info, Describes, IsDii, write_dii, size_module, dii_fields-write,
}
use demuxfs.Dsmcc.Ddb.{DdbBlock, ddb_block}
use demuxfs.Dsmcc.Ddb.Encode.{IsBlock, write_ddb, ddb_block-write}

abbrev entry : DescriptorEntry
entry = record {
  descriptor_type = 1;
  descriptor_length = 9;
  specifier_type = 1;
  specifier_data = 0 ∷ 0 ∷ 7 ∷ [];
  model = 0x102;
  version = 3;
  sub_descriptor_count = 0;
  sub_descriptors = [];
}

entry-IsEntry : IsEntry 100 entry
unfolding size_all
entry-IsEntry = record {
  specifier_data = refl;
  model = omega arith;
  version = omega arith;
  count = refl;
  sub_descriptors = tt;
  descriptor_length = refl;
}

total_of_two :
    24 ≡ 2 + size_all (λ (d : DescriptorEntry). 2 + d.descriptor_length) (entry ∷ entry ∷ [])
unfolding size_all
total_of_two = refl

dsmcc_parse_compatibility_descriptors-write_example :
    dsmcc_parse_compatibility_descriptors
      (pos 100)
      (be16 24 ++ (be16 2 ++ write_all write_entry (entry ∷ entry ∷ []) (5 ∷ [])))
    ≡ ok (
      record {
        compatibility_descriptor_length = 24;
        descriptor_count = 2;
        descriptors = last_refused entry (entry ∷ []);
      },
      2 + 24,
    )
dsmcc_parse_compatibility_descriptors-write_example =
    dsmcc_parse_compatibility_descriptors-write 100 24 entry (entry ∷ []) (5 ∷ [])
      (entry-IsEntry, (entry-IsEntry, tt)) total_of_two (omega arith) (omega arith)

abbrev module_1 : DiiModule
module_1 = record {
  module_id = 1;
  module_size = 0x12345;
  module_version = 2;
  module_info_length = 0;
  module_info = none;
}

module_1-IsModule : IsModule module_1
module_1-IsModule = record {
  module_id = omega arith;
  module_size = omega arith;
  module_info = no_info 0 refl;
}

abbrev no_descriptors : CompatibilityDescriptor
no_descriptors = record {
  compatibility_descriptor_length = 0;
  descriptor_count = 0;
  descriptors = [];
}

abbrev table : DiiTable
table = record {
  download_id = 7;
  block_size = 0xfb2;
  window_size = 0;
  ack_period = 0;
  t_c_download_window = 0;
  t_c_download_scenario = 0x1000;
  compatibility_descriptor = no_descriptors;
  number_of_modules = 1;
  modules = module_1 ∷ [];
  private_data_length = 2;
  private_data_bytes = 8 ∷ 9 ∷ [];
}

nothing_described : (left : ℤ) → Describes left (0 ∷ 0 ∷ []) no_descriptors
unfolding dsmcc_parse_compatibility_descriptors u16 convert_to_16
nothing_described left s = refl

table-IsDii : IsDii (to_int (60 % 2 ^ 32 + 2 ^ 32 - (20 + 16) % 2 ^ 32)) (0 ∷ 0 ∷ []) table
table-IsDii = record {
  download_id = omega arith;
  block_size = omega arith;
  some_block = omega arith;
  t_c_download_window = omega arith;
  t_c_download_scenario = omega arith;
  compatibility_descriptor = nothing_described _;
  number = omega arith;
  count = refl;
  modules = (module_1-IsModule, tt);
  private_data_length = omega arith;
  private_data = refl;
}

dii_fields-write_example :
    dii_fields 60 (cursor (write_dii (0 ∷ 0 ∷ []) table (5 ∷ [])) 20)
    ≡ ok (some table, cursor (5 ∷ []) (20 + (20 + 2 + size_all size_module (module_1 ∷ []) + 2)))
dii_fields-write_example = dii_fields-write 60 20 (0 ∷ 0 ∷ []) table (5 ∷ []) table-IsDii

abbrev psi : PsiHeader
psi = record {
  table_id = 0x3c;
  section_syntax_indicator = 1;
  reserved_1 = 0;
  reserved_2 = 3;
  section_length = 30;
  identifier = 1;
  reserved_3 = 3;
  version_number = 0;
  current_next_indicator = 1;
  section_number = 0;
  last_section_number = 0;
}

psi-IsPsiHeader : IsPsiHeader psi
psi-IsPsiHeader = record {
  table_id = omega arith;
  section_syntax_indicator = omega arith;
  reserved_1 = omega arith;
  reserved_2 = omega arith;
  section_length = omega arith;
  identifier = omega arith;
  reserved_3 = omega arith;
  version_number = omega arith;
  current_next_indicator = omega arith;
  section_number = omega arith;
  last_section_number = omega arith;
}

abbrev message : DsmccMessageHeader
message = record {
  protocol_discriminator = 0x11;
  dsmcc_type = 3;
  message_id = 0x1003;
  transaction_id = 7;
  reserved = 0xff;
  adaptation_length = 0;
  message_length = 9;
  dsmcc_adaptation_header = none;
}

abbrev block : DdbBlock
block = record {
  module_id = 1;
  module_version = 2;
  reserved = 0xff;
  block_number = 4;
  block_data_size = 3;
  contents = 10 ∷ 11 ∷ 12 ∷ [];
}

block-IsBlock : IsBlock message block
block-IsBlock = record {
  header = record {
    message_id = omega arith;
    transaction_id = omega arith;
    message_length = omega arith;
    adaptation = no_adaptation 0 refl;
  };
  dsmcc_type = refl;
  message_id = refl;
  module_id = omega arith;
  block_number = omega arith;
  block_data_size = refl;
  filled = omega arith;
  message_length = refl;
}

ddb_block-write_example :
    ddb_block (λ m n. false) (write_ddb psi message block (1 ∷ 2 ∷ 3 ∷ 4 ∷ [])) ≡ ok (some block)
ddb_block-write_example =
    ddb_block-write (λ m n. false) psi message block (1 ∷ 2 ∷ 3 ∷ 4 ∷ []) psi-IsPsiHeader refl
      block-IsBlock refl (omega arith) refl
