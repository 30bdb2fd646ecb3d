-- ===== src/Filesrc.antt =====
-- src/backends/filesrc.c: the backend that reads packets from a file.
-- A `FILE` is its bytes, its position and the flags of the stream; a named pipe is one that is only
-- read forward. `fopen` and the option parser are not modelled: the file and `fileloop` are inputs.
pub mod Decode
pub mod Sync
pub mod Reading
use demuxfs.Prelude.{
  ℕ, zero, suc, ◌+◌, ◌-◌, ◌*◌, ◌/◌, ◌%◌, ◌^◌, Bool, true, false, not, ◌&&◌, ◌||◌, Option, none,
  some, List, [], ◌∷◌, ◌++◌, ◌==◌, ltb, leb, if◌then◌else◌, ℤ, pos, negsuc, length, take, drop,
  get_or, replicate, bit_and, get_elem?,
}
use demuxfs.Byteops.{convert_to_16, char_shift_right}
use demuxfs.Ts.Header.{TsHeader, ts_sync_byte}

pub record File : Type 0 where
  pub bytes : List ℕ
  pub position : ℕ
  pub eof : Bool
  -- The next read fails.
  pub io_error : Bool
  pub is_fifo : Bool

-- `fread(&c, 1, 1, fp)`: the byte, if there is one.
unfoldable pub fread_byte : File → Option ℕ × File
fread_byte f = if f.io_error then (none, f) else elim (get_elem? f.bytes f.position) [
  | none ↦ (none, record f { eof = true })
  | some c ↦ (some c, record f { position = f.position + 1 })
]

-- `fseek(fp, n, SEEK_SET)`, which clears the end-of-file flag; `rewind` goes to 0.
abbrev pub fseek_set : File → ℕ → File
fseek_set f n = record f { position = n; eof = false }

-- A variable that `fread` leaves alone if it reads nothing.
abbrev pub kept : Option ℕ → ℕ → ℕ
kept none c = c
kept (some c') c = c'

-- The loop over two full packets of a named pipe, from `i` on, `n` rounds.
unfoldable pub sync_fifo_loop : ℕ → ℕ → ℕ → ℕ → ℕ → File → Bool × File
unfolding fread_byte
sync_fifo_loop zero i packet_size data1 data2 f =
    (data1 == ts_sync_byte && data2 == ts_sync_byte, f)
sync_fifo_loop (suc n) i packet_size data1 data2 f =
    let (read, f') = fread_byte f in
    elim read [
      | none ↦ (false, f')
      | some c ↦
          sync_fifo_loop n (i + 1) packet_size (if i == 0 then c else data1)
            (if i == packet_size then c else data2) f'
    ]

-- The reads of `data1` and, `packet_size` bytes behind it, of `data2`.
unfoldable pub sync_attempt : ℕ → ℕ → ℕ → File → ℕ × ℕ × File
unfolding fread_byte
sync_attempt packet_size data1 data2 f =
    let (c1, f1) = fread_byte f in
    let (c2, f2) = fread_byte (fseek_set f1 (f1.position + packet_size - 1)) in
    (kept c1 data1, kept c2 data2, f2)

-- The loop on a file: `attempts` packets, each with a sync byte where it starts and behind its end.
-- The seek back by one byte clears the end-of-file flag, so only the first test of it can stop the
-- loop.
unfoldable pub sync_loop : ℕ → ℕ → ℕ → ℕ → File → Bool × File
unfolding sync_attempt
sync_loop zero packet_size data1 data2 f = (true, f)
sync_loop (suc attempts) packet_size data1 data2 f =
    let r = sync_attempt packet_size data1 data2 f in
    let f' = fseek_set r.2 (r.2.position - 1) in
    let rest = sync_loop attempts packet_size r.0 r.1 f' in
    if f.eof
    then (true, f)
    else if not (r.0 == ts_sync_byte) || not (r.1 == ts_sync_byte)
    then (false, fseek_set r.2 0)
    else rest

unfoldable pub search_sync_byte : File → ℕ → Bool × File
search_sync_byte f packet_size =
    if f.is_fifo
    then sync_fifo_loop (packet_size * 2) 0 packet_size 0 0 f
    else let (found, f') = sync_loop 5 packet_size 0 0 f in
      (found, if found then fseek_set f' f.position else f')

-- The backend's state.
pub record InputParser : Type 0 where
  pub fp : File
  pub packet : List ℕ
  pub packet_valid : Bool
  pub packet_size : ℕ
  pub fileloop : ℤ

-- The loop over the packet sizes.
unfoldable pub detect_packet_size : List ℕ → File → Option ℕ × File
unfolding search_sync_byte
detect_packet_size [] f = (none, f)
detect_packet_size (size ∷ sizes) f =
    let (found, f') = search_sync_byte f size in
    let rest = detect_packet_size sizes f' in if found then (some size, f') else rest

abbrev pub packet_sizes : List ℕ
packet_sizes = 188 ∷ 204 ∷ 208 ∷ []

-- From the opened file on; the parser, and the options packet_size and packet_error_correction_bytes.
-- `malloc` is asked for `packet_size` bytes, whose contents are of no account.
unfoldable pub filesrc_create_parser : File → ℤ → Option (InputParser × ℕ × ℕ)
unfolding detect_packet_size
filesrc_create_parser f fileloop =
    let (detected, f') = detect_packet_size packet_sizes f in
    elim detected [
      | none ↦ none
      | some size ↦ some (
        record {
          fp = f';
          packet = replicate size 0;
          packet_valid = false;
          packet_size = size;
          fileloop = fileloop;
        },
        size,
        size - 188,
      )
    ]

-- `fread(packet, packet_size, 1, fp)`: how many packets were read, the buffer and the stream. A
-- short read takes what there is.
unfoldable pub fread_packet : File → ℕ → List ℕ → ℕ × List ℕ × File
fread_packet f size packet =
    if f.io_error
    then (0, packet, f)
    else if leb (f.position + size) (length f.bytes)
    then (1, take size (drop f.position f.bytes), record f { position = f.position + size })
    else let rest = drop f.position f.bytes in
      (
        0,
        rest ++ drop (length rest) packet,
        record f { position = f.position + length rest; eof = true },
      )

-- `p->fileloop == -1 || p->fileloop--`: the truth of it, and the counter behind it.
unfoldable pub loop_again : ℤ → Bool × ℤ
loop_again (pos zero) = (false, negsuc 0)
loop_again (pos (suc n)) = (true, pos n)
loop_again (negsuc zero) = (true, negsuc 0)
loop_again (negsuc (suc n)) = (true, negsuc (suc (suc n)))

abbrev pub enodata : ℤ
enodata = negsuc 60

unfoldable pub filesrc_read_packet : InputParser → ℤ × InputParser
unfolding fread_packet loop_again
filesrc_read_packet p =
    let (n, packet, fp) = fread_packet p.fp p.packet_size p.packet in
    let p' = record p { packet = packet; fp = fp } in
    let (again, fileloop) = loop_again p.fileloop in
    if n == 0 && fp.eof
    then if again
      then (pos 0, record p' { packet_valid = false; fp = fseek_set fp 0; fileloop = fileloop })
      else (enodata, record p' { packet_valid = false; fileloop = fileloop })
    else if ltb n 1
    then (negsuc 0, record p' { packet_valid = false })
    else (pos 0, record p' { packet_valid = true })

-- The header fields of a packet, from its first four bytes.
unfoldable pub decode_header : List ℕ → TsHeader
decode_header packet =
    let b0 = get_or packet 0 0 in
    let b1 = get_or packet 1 0 in
    let b2 = get_or packet 2 0 in
    let b3 = get_or packet 3 0 in
    record {
      sync_byte = b0 % 2 ^ 8;
      transport_error_indicator = bit_and (char_shift_right b1 7) 0x01;
      payload_unit_start_indicator = bit_and (char_shift_right b1 6) 0x01;
      transport_priority = bit_and (char_shift_right b1 5) 0x01;
      pid = bit_and (convert_to_16 b1 b2) 0x1fff;
      transport_scrambling_control = bit_and (char_shift_right b3 6) 0x03;
      adaptation_field = bit_and (char_shift_right b3 4) 0x03;
      continuity_counter = bit_and b3 0x0f;
    }

-- The header and the payload, which begins at the fifth byte; `none` is -EINVAL.
unfoldable pub filesrc_process_packet : InputParser → Option (TsHeader × List ℕ)
unfolding decode_header
filesrc_process_packet p =
    if not p.packet_valid then none else some (decode_header p.packet, drop 4 p.packet)

unfoldable pub filesrc_keep_alive : InputParser → Bool
filesrc_keep_alive p = not p.fp.eof
