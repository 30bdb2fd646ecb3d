-- ===== src/Ts/Packet/Pes.antt =====
-- src/ts.c: the branch of ts_parse_packet for PES packets, and the whole function.
use demuxfs.Prelude.{
  ℕ, ◌+◌, ◌-◌, ◌%◌, ◌^◌, Bool, true, false, not, Option, none, some, List, [], ◌∷◌, ◌++◌, ◌==◌, ltb,
  leb, if◌then◌else◌, ℤ, pos, negsuc, length, take, drop, Run, ok, fault, ◌>>=◌,
}
use demuxfs.Byteops.{convert_to_16}
use demuxfs.Hash.{hashtable_get, hashtable_add}
use demuxfs.Buffer.{
  Buffer, Allocator, allocation, buffer_create, append_to, buffer_reset_size,
  buffer_contains_full_pes_section, buffer_is_unbounded,
}
use demuxfs.Ts.Header.{TsHeader, ts_sync_byte}
use demuxfs.Ts.Parsers.{Parser, ts_is_psi_packet, ts_is_pes_packet}
use demuxfs.Ts.Continuity.{continuity_counter_is_ok}
use demuxfs.Ts.Packet.{Options, Tables, Store, load, store, read_at, note_counter, ebadmsg, enobufs}
use demuxfs.Ts.Packet.Psi.{first_window, psi_loop}

-- `payload_end - payload_start + 1`, as a size_t.
abbrev pub span : ℕ → ℕ → ℕ
span payload_start payload_end = (payload_end + 1 + 2 ^ 64 - payload_start) % 2 ^ 64

-- What the appending leaves: `return 0`, or a buffer, by its address, that has got the payload.
pub data Ready (W : Type 0) : Type 0 where
  over : Store W → Ready W
  ready : ℕ → Buffer → Store W → Ready W

module _ {W : Type 0} (a : Allocator) (parse : Parser → TsHeader → List ℕ → Tables W → ℤ × Tables W)
    (header : TsHeader) (payload : List ℕ) (payload_start payload_end : ℕ) where
  -- The buffer of the PID, or a new one; `none` where there is no memory.
  unfoldable pub pes_buffer : ℕ → Store W → Option ℕ × Store W
  pes_buffer size s = elim (hashtable_get s.packet_buffer header.pid) [
    | some address ↦ (some address, s)
    | none ↦ elim (buffer_create a header.pid size true) [
      | none ↦ (none, s)
      | some b ↦
          let address = length s.buffers in
          (
            some address,
            record s {
              packet_buffer = (hashtable_add s.packet_buffer header.pid (some address) false).1;
              buffers = s.buffers ++ (b ∷ []);
            },
          )
    ]
  ]

  abbrev pub append_payload : Buffer → Run (ℤ × Buffer)
  append_payload b = append_to a b (drop payload_start payload) (span payload_start payload_end)

  -- The first payload of a packet.
  unfoldable pub pes_start : Store W → Run (Ready W)
  pes_start s =
      if leb payload_end (payload_start + 6)
      then ok (over s)
      else read_at payload (payload_start + 4) >>= λ hi.
          read_at payload (payload_start + 5) >>= λ lo.
          let (buffer, s') = pes_buffer (convert_to_16 hi lo) s in
          elim buffer [
            | none ↦ ok (over s')
            | some address ↦ load s' address >>= λ b.
                append_payload (buffer_reset_size b) >>= λ r. ok (ready address r.1 s')
          ]

  -- The tests on the buffer of a later payload: whether it goes on, and the buffer behind them.
  unfoldable pub pes_takes : Buffer → Bool × Buffer
  pes_takes b =
      let (fine, b') = continuity_counter_is_ok header b in
      if not fine
      then (false, b')
      else if b'.current_size == 0
      then buffer_is_unbounded b'
      else (true, b')

  unfoldable pub pes_continue : Store W → Run (Ready W)
  pes_continue s = elim (hashtable_get s.packet_buffer header.pid) [
    | none ↦ ok (over s)
    | some address ↦ load s address >>= λ b.
        let (goes_on, b') = pes_takes b in
        if not goes_on
        then ok (over (store s address b'))
        else append_payload b' >>= λ r. ok (ready address r.1 s)
  ]

  unfoldable pub pes_append : Store W → Run (Ready W)
  pes_append s = if header.payload_unit_start_indicator == 0 then pes_continue s else pes_start s

  -- A whole packet goes to the parser, and the counter is noted. The parser may read as many bytes as it is
  -- told, so to tell it more than the memory of the buffer has is a fault.
  unfoldable pub pes_deliver : Parser → ℕ → Buffer → Store W → Run (ℤ × Store W)
  pes_deliver parser address b s =
      let (whole, b') = buffer_contains_full_pes_section b in
      let r = parse parser header (take b'.current_size (allocation b'.bytes)) s.tables in
      if not whole
      then (note_counter header (some address) (store s address b') >>= λ s'. ok (pos 0, s'))
      else if ltb (length (allocation b'.bytes)) b'.current_size
      then fault
      else (note_counter header (some address)
            (record (store s address (buffer_reset_size b')) { tables = r.1 })
          >>= λ s'. ok (r.0, s'))

  unfoldable pub pes_finish : Parser → Ready W → Run (ℤ × Store W)
  pes_finish parser (over s) = ok (pos 0, s)
  pes_finish parser (ready address b s) = pes_deliver parser address b s

  unfoldable pub parse_pes : Store W → Run (ℤ × Store W)
  parse_pes s = elim (hashtable_get s.tables.pes_parsers header.pid) [
    | none ↦ ok (pos 0, s)
    | some parser ↦ pes_append s >>= λ r. pes_finish parser r
  ]

module _ {W : Type 0} (a : Allocator) (parse : Parser → TsHeader → List ℕ → Tables W → ℤ × Tables W)
    (opt : Options) (header : TsHeader) (payload : List ℕ) where
  unfoldable pub parse_psi : ℕ → ℕ → Store W → Run (ℤ × Store W)
  parse_psi payload_start payload_end s =
      first_window (not (header.payload_unit_start_indicator == 0)) payload payload_start
        payload_end
      >>= λ first. elim first [
        | none ↦ ok (enobufs, s)
        | some w ↦ psi_loop a parse opt header payload payload_end 2 w none s >>= λ r. elim r.0 [
          | none ↦ ok (pos 0, r.1)
          | some buffer ↦ note_counter header buffer r.1 >>= λ s'. ok (pos 0, s')
        ]
      ]

  -- From `payload_start` on; the packet is PSI, PES or neither.
  unfoldable pub parse_payload : ℕ → Store W → Run (ℤ × Store W)
  parse_payload payload_start s =
      let payload_end = opt.packet_size - 4 - 1 - opt.packet_error_correction_bytes in
      if ts_is_psi_packet header.pid s.tables.psi_parsers
      then parse_psi payload_start payload_end s
      else if ts_is_pes_packet header.pid s.tables.pes_parsers
      then parse_pes a parse header payload payload_start payload_end s
      else ok (pos 0, s)

  unfoldable pub ts_parse_packet : Store W → Run (ℤ × Store W)
  ts_parse_packet s =
      if not (header.sync_byte == ts_sync_byte)
      then ok (ebadmsg, s)
      else if header.adaptation_field == 0
      then ok (pos 0, s)
      else if header.adaptation_field == 1
      then parse_payload 0 s
      else if header.adaptation_field == 2
      then ok (pos 0, s)
      else read_at payload 0 >>= λ n.
          if ltb opt.packet_size (1 + n) then ok (enobufs, s) else parse_payload (1 + n) s

-- `ret < 0 && ret != -ENOBUFS`
unfoldable pub stops : ℤ → Bool
stops (pos n) = false
stops (negsuc n) = not (n == 104)

-- The loop of ts_parser_thread behind the backend: the headers and payloads of the packets, in
-- order, until one of them returns an error other than -ENOBUFS.
module _ {W : Type 0} (a : Allocator) (parse : Parser → TsHeader → List ℕ → Tables W → ℤ × Tables W)
    (opt : Options) where
  unfoldable pub parse_packets : List (TsHeader × List ℕ) → Store W → Run (Store W)
  parse_packets [] s = ok s
  parse_packets (p ∷ packets) s = ts_parse_packet a parse opt p.0 p.1 s >>= λ r.
      if stops r.0 then ok r.1 else parse_packets packets r.1
