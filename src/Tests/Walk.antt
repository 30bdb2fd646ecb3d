-- ===== src/Tests/Walk.antt =====
-- src/dsm-cc/biop.c and src/dsm-cc/dii.c: a module whose message never ends, and one put together of blocks.
use demuxfs.Prelude.{ℕ, ◌≡◌, refl, true, Option, none, some, List, [], ◌∷◌, ok, arith, get_elem?}
use demuxfs.Cursor.{cursor, bytes}
use demuxfs.Cursor.Laws.{write_all, size_all}
use demuxfs.Biop.{MessageHeader, MessageSubHeader}
use demuxfs.Biop.Message.{peek, biop_parse_message_header}
use demuxfs.Biop.Encode.Headers.{write_message_header, biop_parse_message_header-write, no_info}
use demuxfs.Biop.Directory.{DirectoryMessage}
use demuxfs.Biop.Directory.Encode.{
  IsDirectoryMessage, write_directory_message, directory_message-write,
}
use demuxfs.Biop.Walk.{directory_message, object_kind, message_of}
use demuxfs.Fsutils.{same_string}
use demuxfs.Dsmcc.Modules.{
  dii_expected_module_blocks, dii_module_complete, download_data, download_data-AreBlocks,
}

abbrev header : MessageHeader
header = record {
  magic = 0x42494f50;
  biop_version_major = 1;
  biop_version_minor = 0;
  byte_order = 0;
  message_type = 0;
  message_size = 22;
}

abbrev sub_header : MessageSubHeader
sub_header = record {
  object_key_length = 4;
  object_key = 0 ∷ 0 ∷ 0 ∷ 1 ∷ [];
  object_kind_length = 4;
  object_kind_data = 0x64697200;
  object_info_length = 0;
  content_size = none;
  service_context_list_count = 0;
  service_context = [];
}

-- The length of the body is -32 in 32 bits.
abbrev directory : DirectoryMessage
directory = record {
  sub_header = sub_header;
  message_body_length = 0xffffffe0;
  bindings_count = 0;
  bindings = [];
}

directory-IsDirectoryMessage : IsDirectoryMessage directory
directory-IsDirectoryMessage = record {
  sub_header = record {
    key = refl;
    kind_length = omega arith;
    kind = omega arith;
    info_length = omega arith;
    info = no_info 0x64697200 0 (omega arith) refl;
    count = refl;
    contexts = tt;
  };
  message_body_length = omega arith;
  bindings_count = omega arith;
  count = refl;
  bindings = tt;
}

abbrev module_bytes : List ℕ
module_bytes = write_message_header header (write_directory_message directory [])

header_parsed :
    biop_parse_message_header (cursor module_bytes 0)
    ≡ ok (header, cursor (write_directory_message directory []) 12)
header_parsed =
    biop_parse_message_header-write header (write_directory_message directory []) 0
      record { magic = omega arith; message_size = omega arith }

abbrev kind : List ℕ
kind = 0x64 ∷ 0x69 ∷ 0x72 ∷ 0 ∷ []

kind_found : object_kind (cursor (write_directory_message directory []) 12) ≡ ok kind
unfolding object_kind peek bytes write_all
kind_found = refl

message_found :
    message_of kind header (cursor (write_directory_message directory []) 12)
    ≡ ok (some (directory_message header directory, 0xfffffff4))
unfolding message_of same_string size_all
message_found =
    rw (directory_message-write directory [] 12 directory-IsDirectoryMessage (omega arith)) refl

-- Five bytes in blocks of two.
abbrev block : ℕ → Option (List ℕ)
block b = get_elem? ((1 ∷ 2 ∷ []) ∷ (3 ∷ 4 ∷ []) ∷ (5 ∷ []) ∷ []) b

download_data-AreBlocks_example :
    (dii_module_complete block 5 2 ≡ true) × (download_data block 5 2 ≡ ok (1 ∷ 2 ∷ 3 ∷ 4 ∷ 5 ∷ []))
unfolding dii_expected_module_blocks
download_data-AreBlocks_example =
    download_data-AreBlocks block (1 ∷ 2 ∷ 3 ∷ 4 ∷ 5 ∷ []) 2 (omega arith) (omega arith)
      (refl, (refl, (refl, tt)))
