-- ===== src/Filesrc/Decode.antt =====
-- src/backends/filesrc.c: the decoding of the packet header.
use demuxfs.Prelude.{
  ℕ, ◌+◌, ◌*◌, ◌/◌, ◌%◌, ◌^◌, ◌≡◌, refl, bit_and, List, [], ◌∷◌, ◌++◌, arith, ◌∙◌,
}
use demuxfs.Prelude.Bits.{bit_and_mask}
use demuxfs.Byteops.{IsByte, char_shift_right, convert_to_16}
use demuxfs.Byteops.Laws.{convert_to_16_lem, same_below, same_below→eq}
use demuxfs.Filesrc.{decode_header}
use demuxfs.Ts.Header.{TsHeader, IsTsHeader}

-- The four bytes that carry a header.
abbrev pub encode_header : TsHeader → List ℕ
encode_header h =
    h.sync_byte
    ∷ (h.transport_error_indicator * 128
        + h.payload_unit_start_indicator * 64
        + h.transport_priority * 32
        + h.pid / 256)
    ∷ (h.pid % 256)
    ∷ (h.transport_scrambling_control * 64 + h.adaptation_field * 16 + h.continuity_counter)
    ∷ []

-- One or two bits of a byte.
pub bit_at_7 : (b : ℕ) → IsByte b → bit_and (char_shift_right b 7) 0x01 ≡ b / 128
unfolding same_below
bit_at_7 = same_below→eq _ _ 256 refl

pub bit_at_6 : (b : ℕ) → IsByte b → bit_and (char_shift_right b 6) 0x01 ≡ b / 64 % 2
unfolding same_below
bit_at_6 = same_below→eq _ _ 256 refl

bit_at_5 : (b : ℕ) → IsByte b → bit_and (char_shift_right b 5) 0x01 ≡ b / 32 % 2
unfolding same_below
bit_at_5 = same_below→eq _ _ 256 refl

pub bits_at_6 : (b : ℕ) → IsByte b → bit_and (char_shift_right b 6) 0x03 ≡ b / 64
unfolding same_below
bits_at_6 = same_below→eq _ _ 256 refl

pub bits_at_4 : (b : ℕ) → IsByte b → bit_and (char_shift_right b 4) 0x03 ≡ b / 16 % 4
unfolding same_below
bits_at_4 = same_below→eq _ _ 256 refl

-- Decoding the four bytes that carry a header, whatever payload follows, gives the header.
pub decode-encode :
    (h : TsHeader) (payload : List ℕ)
    → IsTsHeader h
    → decode_header (encode_header h ++ payload) ≡ h
unfolding decode_header
decode-encode h payload v =
    let b1 =
      h.transport_error_indicator * 128
      + h.payload_unit_start_indicator * 64
      + h.transport_priority * 32
      + h.pid / 256 in
    let b2 = h.pid % 256 in
    let b3 = h.transport_scrambling_control * 64 + h.adaptation_field * 16 + h.continuity_counter in
    let h1 : IsByte b1 = omega arith in
    let h2 : IsByte b2 = omega arith in
    let h3 : IsByte b3 = omega arith in
    let e0 : h.sync_byte % 2 ^ 8 ≡ h.sync_byte = omega arith in
    let e1 : bit_and (char_shift_right b1 7) 0x01 ≡ h.transport_error_indicator =
      bit_at_7 b1 h1 ∙ omega arith in
    let e2 : bit_and (char_shift_right b1 6) 0x01 ≡ h.payload_unit_start_indicator =
      bit_at_6 b1 h1 ∙ omega arith in
    let e3 : bit_and (char_shift_right b1 5) 0x01 ≡ h.transport_priority =
      bit_at_5 b1 h1 ∙ omega arith in
    let e4 : bit_and (convert_to_16 b1 b2) 0x1fff ≡ h.pid =
      bit_and_mask 13 (convert_to_16 b1 b2) ∙ omega (arith, convert_to_16_lem b1 b2 h1 h2) in
    let e5 : bit_and (char_shift_right b3 6) 0x03 ≡ h.transport_scrambling_control =
      bits_at_6 b3 h3 ∙ omega arith in
    let e6 : bit_and (char_shift_right b3 4) 0x03 ≡ h.adaptation_field =
      bits_at_4 b3 h3 ∙ omega arith in
    let e7 : bit_and b3 0x0f ≡ h.continuity_counter = bit_and_mask 4 b3 ∙ omega arith in
    λ i. record {
      sync_byte = e0 i;
      transport_error_indicator = e1 i;
      payload_unit_start_indicator = e2 i;
      transport_priority = e3 i;
      pid = e4 i;
      transport_scrambling_control = e5 i;
      adaptation_field = e6 i;
      continuity_counter = e7 i;
    }
