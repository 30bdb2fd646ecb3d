-- ===== src/Biop/Info.antt =====
-- src/dsm-cc/biop.c: the module information that a DII carries.
use demuxfs.Prelude.{ℕ, List}
use demuxfs.Cursor.{Parse, ◌>>-◌, give, u8, u16, u32, bytes, repeat}

pub record ModuleTap : Type 0 where
  pub tap_id : ℕ
  pub tap_use : ℕ
  pub association_tag : ℕ
  pub selector_length : ℕ

pub record ModuleInfo : Type 0 where
  pub module_timeout : ℕ
  pub block_timeout : ℕ
  pub min_block_time : ℕ
  pub taps_count : ℕ
  pub taps : List ModuleTap
  pub user_info_length : ℕ
  pub user_info : List ℕ

unfoldable pub biop_parse_module_tap : Parse ModuleTap
biop_parse_module_tap = u16 >>- λ tap_id. u16 >>- λ tap_use. u16 >>- λ association_tag.
    u8 >>- λ selector_length. give record {
      tap_id = tap_id;
      tap_use = tap_use;
      association_tag = association_tag;
      selector_length = selector_length;
    }

unfoldable pub biop_parse_module_info : Parse ModuleInfo
biop_parse_module_info = u32 >>- λ module_timeout. u32 >>- λ block_timeout.
    u32 >>- λ min_block_time. u8 >>- λ taps_count.
    repeat taps_count biop_parse_module_tap >>- λ taps. u8 >>- λ user_info_length.
    bytes user_info_length >>- λ user_info. give record {
      module_timeout = module_timeout;
      block_timeout = block_timeout;
      min_block_time = min_block_time;
      taps_count = taps_count;
      taps = taps;
      user_info_length = user_info_length;
      user_info = user_info;
    }
