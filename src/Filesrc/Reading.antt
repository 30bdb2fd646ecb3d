-- ===== src/Filesrc/Reading.antt =====
-- src/backends/filesrc.c, under the loop of src/main.c: reading a file to its end, with repetitions.
use demuxfs.Prelude.{
  ℕ, zero, suc, Bool, false, not, List, [], ◌∷◌, ◌++◌, ℤ, pos, negsuc, length, take, drop,
  if◌then◌else◌, none, some, Run, ok, fault, ◌>>=◌,
}
use demuxfs.Buffer.{Allocator}
use demuxfs.Ts.Header.{TsHeader}
use demuxfs.Ts.Parsers.{Parser}
use demuxfs.Ts.Packet.{Options, Tables, Store}
use demuxfs.Ts.Packet.Pes.{ts_parse_packet, stops}
use demuxfs.Filesrc.{
  File, InputParser, filesrc_read_packet, filesrc_process_packet, filesrc_keep_alive, decode_header,
}

-- The loop of ts_parser_thread over the backend, which no signal stops. The allocator and the parsers are those of ts_parse_packet.
module _ {W : Type 0} (a : Allocator) (parse : Parser → TsHeader → List ℕ → Tables W → ℤ × Tables W)
    (opt : Options) where
  -- What process() makes of the packet goes to ts_parse_packet; without one, the loop continues.
  unfoldable pub process_packet : InputParser → Store W → Run (ℤ × Store W)
  process_packet p s = elim (filesrc_process_packet p) [
    | none ↦ ok (pos 0, s)
    | some x ↦ ts_parse_packet a parse opt x.0 x.1 s
  ]

  -- What follows a call of read(): an error ends the loop, and so does an error of ts_parse_packet other
  -- than -ENOBUFS.
  unfoldable pub after_read : ℤ → InputParser → (Store W → Run (Store W)) → Store W → Run (Store W)
  after_read (negsuc n) p rest s = ok s
  after_read (pos n) p rest s = process_packet p s >>= λ r. if stops r.0 then ok r.1 else rest r.1

  -- While the input lives, at most `fuel` rounds: to use them up is a fault.
  unfoldable pub read_all : ℕ → InputParser → Store W → Run (Store W)
  read_all zero p s = fault
  read_all (suc fuel) p s =
      let read = filesrc_read_packet p in
      let rest = read_all fuel read.1 in
      if not (filesrc_keep_alive p) then ok s else after_read read.0 read.1 rest s

-- The headers and payloads of packets.
abbrev pub decoded : List (List ℕ) → List (TsHeader × List ℕ)
decoded [] = []
decoded (packet ∷ packets) = (decode_header packet, drop 4 packet) ∷ decoded packets

-- The first `n` chunks of a sequence.
unfoldable pub chunks : ℕ → ℕ → List ℕ → List (List ℕ)
chunks zero size bs = []
chunks (suc n) size bs = take size bs ∷ chunks n size (drop size bs)

-- `k` copies, one after the other.
unfoldable pub repeated : ℕ → List (List ℕ) → List (List ℕ)
repeated zero xs = []
repeated (suc k) xs = xs ++ repeated k xs

-- A stream in the middle of its bytes, with no error ahead, and a parser over it.
abbrev stream : List ℕ → Bool → ℕ → File
stream bytes fifo q = record {
  bytes = bytes;
  position = q;
  eof = false;
  io_error = false;
  is_fifo = fifo;
}

abbrev pub parser_at : List ℕ → Bool → ℕ → ℕ → ℤ → List ℕ → Bool → InputParser
parser_at bytes fifo size q fileloop packet valid = record {
  fp = stream bytes fifo q;
  packet = packet;
  packet_valid = valid;
  packet_size = size;
  fileloop = fileloop;
}

module _ (bytes : List ℕ) (fifo : Bool) (size : ℕ) where
  -- What a short read leaves in the packet buffer.
  short : ℕ → List ℕ → List ℕ
  short q packet = drop q bytes ++ drop (length (drop q bytes)) packet
