-- ===== src/Dsmcc/Dii.antt =====
-- src/dsm-cc/dii.c, src/dsm-cc/dii.h: what a DII says, behind its message header.
pub mod Encode
use demuxfs.Prelude.{
  ℕ, suc, ◌+◌, ◌-◌, ℤ, Bool, Option, none, some, List, length, ◌==◌, if◌then◌else◌, Run, ok, ◌>>=◌,
  to_int, ◌%◌, ◌^◌,
}
use demuxfs.Cursor.{Cursor, Parse, ◌>>-◌, give, skip, u8, u16, u32, bytes, repeat}
use demuxfs.Biop.Info.{ModuleInfo, biop_parse_module_info}
use demuxfs.Dsmcc.Compatibility.{CompatibilityDescriptor, dsmcc_parse_compatibility_descriptors}

pub record DiiModule : Type 0 where
  pub module_id : ℕ
  pub module_size : ℕ
  pub module_version : ℕ
  pub module_info_length : ℕ
  pub module_info : Option ModuleInfo

pub record DiiTable : Type 0 where
  pub download_id : ℕ
  pub block_size : ℕ
  pub window_size : ℕ
  pub ack_period : ℕ
  pub t_c_download_window : ℕ
  pub t_c_download_scenario : ℕ
  pub compatibility_descriptor : CompatibilityDescriptor
  pub number_of_modules : ℕ
  pub modules : List DiiModule
  pub private_data_length : ℕ
  pub private_data_bytes : List ℕ

-- A parser that is called at `&payload[j]`: what it returns does not move `j`.
abbrev pub ahead {ℓ} : {A : Type ℓ} → Parse A → Parse A
ahead p c = p c >>= λ r. ok (r.0, c)

-- `j` moves by the length that is announced, whatever has been read of the information.
unfoldable pub module_info_of : ℕ → Parse (Option ModuleInfo)
module_info_of len =
    if len == 0
    then give none
    else (ahead biop_parse_module_info >>- λ info. skip len >>- λ moved. give (some info))

unfoldable pub parse_module : Parse DiiModule
parse_module = u16 >>- λ module_id. u32 >>- λ module_size. u8 >>- λ module_version.
    u8 >>- λ module_info_length. module_info_of module_info_length >>- λ info. give record {
      module_id = module_id;
      module_size = module_size;
      module_version = module_version;
      module_info_length = module_info_length;
      module_info = info;
    }

-- The compatibility descriptors, and the place behind them that is returned.
unfoldable pub compatibility : ℤ → Parse CompatibilityDescriptor
compatibility payload_len c = dsmcc_parse_compatibility_descriptors payload_len c.left >>= λ r.
    skip r.1 c >>= λ moved. ok (r.0, moved.1)

-- What is left of the payload at `j`, as the int that the function is given.
abbrev pub left_at : ℕ → Parse ℤ
left_at payload_len c = ok (to_int (payload_len % 2 ^ 32 + 2 ^ 32 - c.j % 2 ^ 32), c)

-- From `&payload[j]` behind the message header on; `none` for a block size of 0, which is skipped.
unfoldable pub dii_fields : ℕ → Parse (Option DiiTable)
dii_fields payload_len = u32 >>- λ download_id. u16 >>- λ block_size. u8 >>- λ window_size.
    u8 >>- λ ack_period. u32 >>- λ window. u32 >>- λ scenario.
    if block_size == 0
    then give none
    else (left_at payload_len >>- λ left. compatibility left >>- λ descriptor. u16 >>- λ count.
        repeat count parse_module >>- λ modules. u16 >>- λ private_data_length.
        bytes private_data_length >>- λ data_. give (
          some record {
            download_id = download_id;
            block_size = block_size;
            window_size = window_size;
            ack_period = ack_period;
            t_c_download_window = window;
            t_c_download_scenario = scenario;
            compatibility_descriptor = descriptor;
            number_of_modules = count;
            modules = modules;
            private_data_length = private_data_length;
            private_data_bytes = data_;
          }))
