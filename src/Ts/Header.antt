-- ===== src/Ts/Header.antt =====
-- src/ts.h: the header of a transport stream packet, as the backends fill it in, and the constants.
use demuxfs.Prelude.{ℕ, ◌^◌, ◌<◌}

pub record TsHeader : Type 0 where
  pub sync_byte : ℕ
  pub transport_error_indicator : ℕ
  pub payload_unit_start_indicator : ℕ
  pub transport_priority : ℕ
  pub pid : ℕ
  pub transport_scrambling_control : ℕ
  pub adaptation_field : ℕ
  pub continuity_counter : ℕ

-- Each field fits its width.
pub record IsTsHeader (h : TsHeader) : Type 0 where
  pub sync_byte : h.sync_byte < 2 ^ 8
  pub transport_error_indicator : h.transport_error_indicator < 2
  pub payload_unit_start_indicator : h.payload_unit_start_indicator < 2
  pub transport_priority : h.transport_priority < 2
  pub pid : h.pid < 2 ^ 13
  pub transport_scrambling_control : h.transport_scrambling_control < 2 ^ 2
  pub adaptation_field : h.adaptation_field < 2 ^ 2
  pub continuity_counter : h.continuity_counter < 2 ^ 4

abbrev pub ts_sync_byte : ℕ
ts_sync_byte = 0x47
