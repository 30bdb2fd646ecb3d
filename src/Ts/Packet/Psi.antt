-- ===== src/Ts/Packet/Psi.antt =====
-- src/ts.c: the branch of ts_parse_packet for PSI sections.
use demuxfs.Prelude.{
  ℕ, zero, suc, ◌+◌, ◌-◌, Bool, true, false, not, ◌&&◌, ◌||◌, Option, none, some, List, [], ◌∷◌,
  ◌++◌, ◌==◌, ltb, leb, if◌then◌else◌, ℤ, pos, negsuc, length, take, drop, bit_and, Run, ok, fault,
  ◌>>=◌,
}
use demuxfs.Byteops.{convert_to_16}
use demuxfs.Crc32.{crc32_check}
use demuxfs.Hash.{hashtable_get, hashtable_add}
use demuxfs.Buffer.{
  Buffer, Allocator, allocation, byte_at, buffer_create, append_to, buffer_reset_size,
  buffer_contains_full_psi_section,
}
use demuxfs.Ts.Header.{TsHeader}
use demuxfs.Ts.Parsers.{Parser, ts_get_psi_parser}
use demuxfs.Ts.Continuity.{continuity_counter_is_ok}
use demuxfs.Ts.Packet.{Options, Tables, Store, load, store, read_at}

-- The local variables of the loop. `last` is `end`.
pub record Window : Type 0 where
  pub start : ℕ
  pub last : ℕ
  pub is_new_packet : Bool
  pub pusi : Bool
  pub pointer_field : ℕ
  pub section_length : ℕ

-- `CONVERT_TO_16(start[1], start[2]) & 0x0fff`
unfoldable pub length_field : List ℕ → ℕ → Run ℕ
length_field payload start = read_at payload (start + 1) >>= λ hi.
    read_at payload (start + 2) >>= λ lo. ok (bit_and (convert_to_16 hi lo) 0x0fff)

-- `IS_STUFFING_PACKET(start)`
unfoldable pub is_stuffing : List ℕ → ℕ → Run Bool
is_stuffing payload start = read_at payload start >>= λ b. ok (bit_and b 0xff == 0xff)

-- The window with which the loop begins; `none` is -ENOBUFS.
unfoldable pub first_window : Bool → List ℕ → ℕ → ℕ → Run (Option Window)
first_window false payload payload_start payload_end = ok (
    some record {
      start = payload_start;
      last = payload_end;
      is_new_packet = false;
      pusi = false;
      pointer_field = 0;
      section_length = 0;
    })
first_window true payload payload_start payload_end =
    read_at payload payload_start >>= λ pointer_field.
    if ltb payload_end (payload_start + pointer_field)
    then ok none
    else length_field payload (payload_start + 1) >>= λ n.
        let whole = payload_start + 3 + n in
        ok (
          some record {
            start = payload_start + 1;
            last =
                if ltb 0 pointer_field
                then payload_start + pointer_field
                else if leb whole payload_end
                then whole
                else payload_end;
            is_new_packet = not (ltb 0 pointer_field);
            pusi = true;
            pointer_field = pointer_field;
            section_length = n;
          })

-- The end of a round of the loop: leave it, or go on with another window.
unfoldable pub next_window : Window → List ℕ → ℕ → Run (Option Window)
next_window w payload payload_end =
    let start = w.last + 1 in
    if leb (payload_end - 1) start
    then ok none
    else length_field payload start >>= λ n. is_stuffing payload start >>= λ stuffing.
        if stuffing || n == 0
        then ok none
        else ok (
            some record {
              start = start;
              last = if leb (start + n + 2) payload_end then start + n + 2 else payload_end;
              is_new_packet = true;
              pusi = false;
              pointer_field = w.pointer_field;
              section_length = n;
            })

-- The choice of the buffer: `return 0`, or the buffer's address, `none` for NULL.
pub data Found (W : Type 0) : Type 0 where
  give_up : Store W → Found W
  found : Option ℕ → Store W → Found W

module _ {W : Type 0} (a : Allocator) (parse : Parser → TsHeader → List ℕ → Tables W → ℤ × Tables W)
    (opt : Options) (header : TsHeader) (payload : List ℕ) (payload_end : ℕ) where
  unfoldable pub new_buffer : Window → Store W → Found W
  new_buffer w s = elim (buffer_create a header.pid (w.section_length + 3) false) [
    | none ↦ give_up s
    | some b ↦
        let address = length s.buffers in
        found (some address) (record s {
          packet_buffer = (hashtable_add s.packet_buffer header.pid (some address) false).1;
          buffers = s.buffers ++ (record b { continuity_counter = header.continuity_counter } ∷ []);
        })
  ]

  unfoldable pub old_buffer : Window → Store W → ℕ → Buffer → Found W
  old_buffer w s address b =
      let (fine, b') = continuity_counter_is_ok header b in
      let s' = store s address b' in
      if not fine
      then give_up s'
      else if b'.current_size == 0 && not w.is_new_packet
      then if not w.pusi then give_up s' else found none s'
      else found (some address) s'

  unfoldable pub find_buffer : Window → Store W → Run (Found W)
  find_buffer w s = elim (hashtable_get s.packet_buffer header.pid) [
    | none ↦ ok (if w.is_new_packet then new_buffer w s else found none s)
    | some address ↦ load s address >>= λ b. ok (old_buffer w s address b)
  ]

  -- A whole section goes to its parser, unless the CRC is wrong and errors are reported.
  unfoldable pub hand_over : Buffer → Store W → Store W
  hand_over b s =
      let table_id = byte_at b 0 in
      let bytes = take b.current_size (allocation b.bytes) in
      let (right, crc32) = crc32_check bytes s.crc32 in
      let s' = record s { crc32 = crc32 } in
      if not right && opt.warns_of_crc_errors
      then s'
      else elim (ts_get_psi_parser header table_id s.tables.psi_parsers) [
        | none ↦ s'
        | some parser ↦ record s' { tables = (parse parser header bytes s.tables).1 }
      ]

  -- What is done once the bytes are appended, with what the append has returned.
  unfoldable pub deliver : ℤ → Buffer → Store W → Buffer × Store W
  deliver (negsuc n) b s = (b, s)
  deliver (pos n) b s =
      let (whole, b') = buffer_contains_full_psi_section b in
      if whole then (buffer_reset_size b', hand_over b' s) else (b', s)

  -- `if (buffer) { ... }`
  unfoldable pub fill : Window → Option ℕ → Store W → Run (Store W)
  fill w none s = ok s
  fill w (some address) s = load s address >>= λ b.
      append_to a b (drop w.start payload) (w.last + 1 - w.start) >>= λ r.
      let (b', s') = deliver r.0 r.1 s in ok (store s' address b')

  -- `if (buffer) buffer_reset_size(buffer)`
  unfoldable pub empty : Option ℕ → Store W → Run (Store W)
  empty none s = ok s
  empty (some address) s = load s address >>= λ b. ok (store s address (buffer_reset_size b))

  -- `buffer = NULL` where a new packet is stuffing.
  unfoldable pub skip_stuffing : Window → Option ℕ → Run (Option ℕ)
  skip_stuffing w buffer =
      if w.is_new_packet
      then (is_stuffing payload w.start >>= λ stuffing. ok (if stuffing then none else buffer))
      else ok buffer

  -- The end of a round: the buffer in use, the store, and the next window unless the loop is left.
  pub record Round : Type 0 where
    pub buffer : Option ℕ
    pub store : Store W
    pub next : Option Window

  unfoldable pub finish_round : Window → Option ℕ → Store W → Run Round
  finish_round w buffer s =
      if not w.pusi || w.pointer_field == 0
      then ok record { buffer = buffer; store = s; next = none }
      else empty buffer s >>= λ s'. next_window w payload payload_end >>= λ next.
          ok record { buffer = buffer; store = s'; next = next }

  unfoldable pub use_buffer : Window → Option ℕ → Store W → Run Round
  use_buffer w found_at s =
      skip_stuffing w found_at >>= λ buffer. fill w buffer s >>= λ s'. finish_round w buffer s'

  -- The loop, at most `rounds` times round: `none` is `return 0`, else the buffer that is in use
  -- at its end.
  unfoldable pub psi_loop : ℕ → Window → Option ℕ → Store W → Run (Option (Option ℕ) × Store W)
  psi_loop zero w buffer s = fault
  psi_loop (suc rounds) w buffer s =
      if ltb payload_end w.start
      then ok (some buffer, s)
      else find_buffer w s >>= λ f. elim f [
        | give_up s' ↦ ok (none, s')
        | found at s' ↦ use_buffer w at s' >>= λ r. elim r.next [
          | none ↦ ok (some r.buffer, r.store)
          | some w' ↦ psi_loop rounds w' r.buffer r.store
        ]
      ]
