-- ===== src/Ts/Packet.antt =====
-- src/ts.c: ts_parse_packet.
-- `priv` is a `Store`: the table of the packet buffers, which holds addresses, the buffers themselves
-- by address, the static state of the CRC check, and what the parsers may change. The parsers are other
-- parts of the program, and a parameter here: a function of the header and of the bytes that it is
-- handed; none of them reaches the packet buffers. The payload is the bytes that can be read behind
-- the pointer, and a pointer into it is an offset. A read elsewhere is `fault`.
-- In ts_parse_packet `payload_end` points at the last byte of the payload.
pub mod Psi
pub mod Pes
use demuxfs.Prelude.{
  ℕ, zero, suc, ◌+◌, ◌-◌, ◌%◌, ◌^◌, Bool, true, false, not, ◌&&◌, ◌||◌, Option, none, some, List,
  [], ◌∷◌, ◌++◌, ◌==◌, ltb, leb, if◌then◌else◌, ℤ, pos, negsuc, length, get_elem?, set, Run, ok,
  fault, ◌>>=◌,
}
use demuxfs.Crc32.{Crc32}
use demuxfs.Hash.{HashTable}
use demuxfs.Buffer.{Buffer}
use demuxfs.Ts.Header.{TsHeader, ts_sync_byte}
use demuxfs.Ts.Parsers.{Parser}

-- The fields of the options that the code reads; the last is `verbose_mask & CRC_ERROR`.
pub record Options : Type 0 where
  pub packet_size : ℕ
  pub packet_error_correction_bytes : ℕ
  pub warns_of_crc_errors : Bool

-- What a parser may change.
pub record Tables (W : Type 0) : Type 0 where
  pub psi_parsers : HashTable Parser
  pub pes_parsers : HashTable Parser
  pub others : W

pub record Store (W : Type 0) : Type 0 where
  pub packet_buffer : HashTable ℕ
  pub buffers : List Buffer
  pub crc32 : Crc32
  pub tables : Tables W

abbrev pub ebadmsg : ℤ
ebadmsg = negsuc 73

abbrev pub enobufs : ℤ
enobufs = negsuc 104

-- `payload[i]`
unfoldable pub read_at : List ℕ → ℕ → Run ℕ
read_at payload i = elim (get_elem? payload i) [ none ↦ fault | some b ↦ ok b ]

module _ {W : Type 0} where
  -- A buffer by its address, and its replacement.
  unfoldable pub load : Store W → ℕ → Run Buffer
  load s address = elim (get_elem? s.buffers address) [ none ↦ fault | some b ↦ ok b ]

  abbrev pub store : Store W → ℕ → Buffer → Store W
  store s address b = record s { buffers = set s.buffers address b }

  -- The function's last lines but one: the counter is noted in the buffer, if there is one.
  unfoldable pub note_counter : TsHeader → Option ℕ → Store W → Run (Store W)
  unfolding load
  note_counter header none s = ok s
  note_counter header (some address) s = load s address >>= λ b.
      ok (store s address (record b { continuity_counter = header.continuity_counter }))
