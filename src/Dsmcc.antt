-- ===== src/Dsmcc.antt =====
-- src/dsm-cc/dsmcc.c, src/dsm-cc/dsmcc.h: the headers of the sections of a carousel.
-- The names that are printed for the type and the message are left out.
pub mod Encode
pub mod Modules
pub mod Compatibility
pub mod Dii
pub mod Ddb
use demuxfs.Prelude.{ℕ, Option, none, some, List, ◌==◌, if◌then◌else◌}
use demuxfs.Cursor.{Parse, ◌>>-◌, give, u8, u16, u32, bytes}

pub record DsmccAdaptationHeader : Type 0 where
  pub adaptation_type : ℕ
  pub adaptation_data_bytes : List ℕ

-- `transaction_id` is the download_id of a download data header.
pub record DsmccMessageHeader : Type 0 where
  pub protocol_discriminator : ℕ
  pub dsmcc_type : ℕ
  pub message_id : ℕ
  pub transaction_id : ℕ
  pub reserved : ℕ
  pub adaptation_length : ℕ
  pub message_length : ℕ
  pub dsmcc_adaptation_header : Option DsmccAdaptationHeader

unfoldable pub adaptation_header : ℕ → Parse (Option DsmccAdaptationHeader)
adaptation_header length =
    if length == 0
    then give none
    else (u8 >>- λ kind. bytes length >>- λ data_.
        give (some record { adaptation_type = kind; adaptation_data_bytes = data_ }))

unfoldable pub dsmcc_parse_message_header : Parse DsmccMessageHeader
dsmcc_parse_message_header = u8 >>- λ protocol_discriminator. u8 >>- λ kind. u16 >>- λ message_id.
    u32 >>- λ transaction_id. u8 >>- λ reserved. u8 >>- λ adaptation_length.
    u16 >>- λ message_length. adaptation_header adaptation_length >>- λ header. give record {
      protocol_discriminator = protocol_discriminator;
      dsmcc_type = kind;
      message_id = message_id;
      transaction_id = transaction_id;
      reserved = reserved;
      adaptation_length = adaptation_length;
      message_length = message_length;
      dsmcc_adaptation_header = header;
    }

-- The fields are laid out as those of a message header.
unfoldable pub dsmcc_parse_download_data_header : Parse DsmccMessageHeader
dsmcc_parse_download_data_header = dsmcc_parse_message_header
