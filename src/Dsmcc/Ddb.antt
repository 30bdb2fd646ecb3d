-- ===== src/Dsmcc/Ddb.antt =====
-- src/dsm-cc/ddb.c, src/dsm-cc/ddb.h, src/dsm-cc/dsmcc.c: which parser a carousel's section goes to, and the
-- block that a DDB carries. The files that are made of the blocks are left out.
pub mod Encode
use demuxfs.Prelude.{
  ℕ, ◌+◌, ◌-◌, ◌%◌, ◌^◌, Bool, true, false, not, ◌&&◌, ◌||◌, Option, none, some, List, drop, length,
  ltb, ◌==◌, if◌then◌else◌, Run, ok, ◌>>=◌,
}
use demuxfs.Cursor.{Cursor, cursor, Parse, ◌>>-◌, give, u8, u16, bytes}
use demuxfs.Psi.{PsiHeader, psi_parse}
use demuxfs.Dsmcc.{DsmccMessageHeader, dsmcc_parse_download_data_header}

pub data DsmccParser : Type 0 where
  ait_parser dii_parser ddb_parser : DsmccParser

-- The table that a section holds: TS_AIT_TABLE_ID, TS_DII_TABLE_ID, TS_DDB_TABLE_ID.
unfoldable pub dsmcc_parser_of : ℕ → Option DsmccParser
dsmcc_parser_of table_id =
    if table_id == 0x74
    then some ait_parser
    else if table_id == 0x3b
    then some dii_parser
    else if table_id == 0x3c
    then some ddb_parser
    else none

pub record DdbBlock : Type 0 where
  pub module_id : ℕ
  pub module_version : ℕ
  pub reserved : ℕ
  pub block_number : ℕ
  pub block_data_size : ℕ
  pub contents : List ℕ

-- The message is no data block, or too short for one.
unfoldable pub is_no_block : DsmccMessageHeader → Bool
is_no_block h = not (h.dsmcc_type == 0x03 && h.message_id == 0x1003) || ltb h.message_length 5

-- `message_length - adaptation_length - 6`, in sixteen bits.
unfoldable pub block_size_of : DsmccMessageHeader → ℕ
block_size_of h = (h.message_length + 2 ^ 16 - (h.adaptation_length + 6)) % 2 ^ 16

-- `payload_len - (j+6) - 4`, in sixteen bits, for the `j + 6` where the cursor stands.
unfoldable pub this_block_size : ℕ → ℕ → ℕ
this_block_size payload_len start = (payload_len + 2 ^ 32 - (start + 4)) % 2 ^ 16

-- The block, from behind the header on. `known` says if a block is there already.
unfoldable pub block_behind : (ℕ → ℕ → Bool) → List ℕ → DsmccMessageHeader → Parse (Option DdbBlock)
block_behind known payload h = u16 >>- λ module_id. u8 >>- λ module_version. u8 >>- λ reserved.
    u16 >>- λ block_number.
    if block_size_of h == 0 || known module_id block_number then give none else (λ c.
      bytes (this_block_size (length payload) c.j)
        (cursor (drop (c.j % 2 ^ 16) payload) (c.j % 2 ^ 16))
      >>= λ r. ok (
        some record {
          module_id = module_id;
          module_version = module_version;
          reserved = reserved;
          block_number = block_number;
          block_data_size = block_size_of h;
          contents = r.0;
        },
        r.1,
      ))

-- The block that ddb_parse makes a file of, if it makes one.
unfoldable pub ddb_block : (ℕ → ℕ → Bool) → List ℕ → Run (Option DdbBlock)
ddb_block known payload = elim (psi_parse payload) [
  | none ↦ ok none
  | some psi ↦
      if psi.current_next_indicator == 0
      then ok none
      else (dsmcc_parse_download_data_header (cursor (drop 8 payload) 8) >>= λ h.
          if is_no_block h.0
          then ok none
          else (block_behind known payload h.0 h.1 >>= λ block. ok block.0))
]
