-- ===== src/Pes/Payload.antt =====
-- src/tables/pes.c: pes_parse_audio_video_payload, which skips the header of a PES packet.
-- `payload` is the bytes that can be read behind the pointer, of which `payload_len` belong to the
-- packet; a read elsewhere is `fault`. The result is the offset of the data and their number, or `none`
-- for NULL.
use demuxfs.Prelude.{
  ℕ, zero, suc, ◌+◌, ◌-◌, ◌*◌, ◌/◌, ◌%◌, ◌≤◌, ◌<◌, ◌≡◌, refl, ap, bit_and, true, false, Option,
  none, some, List, ◌==◌, ltb, if◌then◌else◌, length, Run, ok, fault, ◌>>=◌, arith, Bool-cases, inl,
  inr, get_elem?,
}
use demuxfs.Byteops.{IsByte, char_to_uint}
use demuxfs.Byteops.Laws.{same_below, same_below→eq}
use demuxfs.Ts.Packet.{read_at}
use demuxfs.Ts.Safety.{read_at-Returns}

-- The size of a field that is there if a flag is set.
abbrev pub size_if : ℕ → ℕ → ℕ → ℕ
size_if flags mask size = if bit_and flags mask == 0 then 0 else size

-- The time stamps.
abbrev pub timestamps : ℕ → ℕ
timestamps flags =
    let pts_dts_flags = bit_and flags 0xc0 / 64 in
    if pts_dts_flags == 2 then 5 else if pts_dts_flags == 3 then 10 else 0

-- The offset behind the ES rate.
abbrev pub behind_rate : ℕ → ℕ
behind_rate flags = 9 + timestamps flags + size_if flags 0x20 6 + size_if flags 0x10 3

-- The trick mode byte is read, and is one byte whatever it says.
unfoldable pub trick_mode : ℕ → List ℕ → ℕ → Run ℕ
trick_mode flags payload n =
    if bit_and flags 0x08 == 0 then ok n else (read_at payload n >>= λ b. ok (n + 1))

unfoldable pub pack_header : ℕ → List ℕ → ℕ → Run ℕ
pack_header e payload n =
    if bit_and e 0x40 == 0
    then ok n
    else (read_at payload n >>= λ pack_field_length. ok (n + pack_field_length))

unfoldable pub extension_field : ℕ → List ℕ → ℕ → Run ℕ
extension_field e payload n =
    if bit_and e 0x3 == 0 then ok n else (read_at payload n >>= λ l. ok (n + (1 + bit_and l 0x7f)))

-- The PES extension, if its flag is set.
unfoldable pub extension : ℕ → List ℕ → ℕ → Run ℕ
unfolding pack_header extension_field
extension flags payload n =
    if bit_and flags 0x01 == 0
    then ok n
    else (read_at payload n >>= λ e. pack_header e payload (n + 1 + size_if e 0x80 16) >>= λ n'.
        extension_field e payload (n' + size_if e 0x20 2 + size_if e 0x10 2))

-- `while (payload[n] == 0xff) n++`, on a signed `char`: the byte is compared with its sign.
unfoldable pub skip_stuffing_bytes : ℕ → List ℕ → ℕ → Run ℕ
skip_stuffing_bytes zero payload n = fault
skip_stuffing_bytes (suc fuel) payload n = read_at payload n >>= λ b.
    if char_to_uint 32 b == 0xff then skip_stuffing_bytes fuel payload (n + 1) else ok n

unfoldable pub pes_parse_audio_video_payload : List ℕ → ℕ → Run (Option (ℕ × ℕ))
pes_parse_audio_video_payload payload payload_len = read_at payload 7 >>= λ flags.
    trick_mode flags payload (behind_rate flags) >>= λ n.
    extension flags payload (n + size_if flags 0x04 1 + size_if flags 0x02 2) >>= λ n'.
    skip_stuffing_bytes (length payload + 1) payload n' >>= λ offset.
    ok (if ltb payload_len offset then none else some (offset, payload_len - offset))

-- The size of the header by ISO/IEC 13818-1, for the bits of the flags, without an extension.
abbrev pub header_size : ℕ → ℕ
header_size flags =
    9
    + (if flags / 64 == 2 then 5 else if flags / 64 == 3 then 10 else 0)
    + flags / 32 % 2 * 6
    + flags / 16 % 2 * 3
    + flags / 8 % 2
    + flags / 4 % 2
    + flags / 2 % 2 * 2

abbrev offset_of : ℕ → ℕ
offset_of flags =
    behind_rate flags + size_if flags 0x08 1 + size_if flags 0x04 1 + size_if flags 0x02 2

offset_of-header_size : (flags : ℕ) → IsByte flags → offset_of flags ≡ header_size flags
unfolding same_below
offset_of-header_size = same_below→eq _ _ 256 refl

read_some : (payload : List ℕ) (i b : ℕ) → get_elem? payload i ≡ some b → read_at payload i ≡ ok b
unfolding read_at
read_some payload i b e = rw (e, read_at) refl

never_stuffing : (b : ℕ) → b < 256 → (char_to_uint 32 b == 0xff) ≡ false
never_stuffing b h = ground arith

stuffing_kept :
    (fuel : ℕ) (payload : List ℕ) (n b : ℕ)
    → get_elem? payload n ≡ some b
    → IsByte b
    → skip_stuffing_bytes (suc fuel) payload n ≡ ok n
unfolding skip_stuffing_bytes
stuffing_kept fuel payload n b e h = rw (read_some payload n b e, never_stuffing b h) refl

trick_mode_lem :
    (flags : ℕ) (payload : List ℕ) (n : ℕ)
    → n < length payload
    → trick_mode flags payload n ≡ ok (n + size_if flags 0x08 1)
unfolding trick_mode
trick_mode_lem flags payload n h = elim (Bool-cases (bit_and flags 0x08 == 0)) [
  | inl unset ↦ rw (unset, trick_mode) (ap ok (plus_zero n))
  | inr set ↦ let (b, e, t) = read_at-Returns payload n h in rw (set, trick_mode, e) refl
]
  where
    plus_zero : (n : ℕ) → n ≡ n + 0
    plus_zero n = omega arith

-- Without an extension, and with the header readable and inside of the packet, the data begin right
-- behind the fields that the flags announce, whatever byte follows them: stuffing bytes 0xff in
-- front of the data are never skipped.
pub pes_parse_audio_video_payload_lem :
    (payload : List ℕ) (payload_len flags b : ℕ)
    → get_elem? payload 7 ≡ some flags
    → IsByte flags
    → (bit_and flags 0x01 == 0) ≡ true
    → get_elem? payload (header_size flags) ≡ some b
    → IsByte b
    → header_size flags < length payload
    → header_size flags ≤ payload_len
    → pes_parse_audio_video_payload payload payload_len
      ≡ ok (some (header_size flags, payload_len - header_size flags))
unfolding pes_parse_audio_video_payload extension
pes_parse_audio_video_payload_lem payload payload_len flags b e h plain at hb room inside =
    let size = offset_of-header_size flags h in
    let early : behind_rate flags < length payload = omega (arith, size) in
    let fits : ltb payload_len (header_size flags) ≡ false = ground arith in
    let fuel : length payload + 1 ≡ suc (length payload) = omega arith in
    rw
      (
        read_some payload 7 flags e,
        trick_mode_lem flags payload (behind_rate flags) early,
        plain,
        size,
        fuel,
        stuffing_kept (length payload) payload (header_size flags) b at hb,
        fits,
      )
      refl
