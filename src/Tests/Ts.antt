-- ===== src/Tests/Ts.antt =====
-- src/ts.c at small packets.
use demuxfs.Prelude.{
  ℕ, ◌+◌, ◌%◌, ◌≡◌, ◌≢◌, refl, Bool, true, false, some, List, [], ◌∷◌, ◌==◌, if◌then◌else◌, ℤ, pos,
  length, replicate, fault, Returns, arith,
}
use demuxfs.Crc32.{fresh, crc32_check}
use demuxfs.Crc32.Table
use demuxfs.Crc32.Table.{crc}
use demuxfs.Hash.{hashtable_new, hashtable_get, probe, probe_loop}
use demuxfs.Buffer.{Buffer, buffer_reset_size}
use demuxfs.Tests.Allocator.{generous}
use demuxfs.Ts.Header.{TsHeader}
use demuxfs.Ts.Parsers.{
  Parser, pat_parse, find_parser, ts_get_psi_parser, ts_is_psi_packet, is_among,
}
use demuxfs.Ts.Continuity.{continuity_counter_is_ok, continuity_counter_is_ok_lem}
use demuxfs.Ts.Packet.{Options, Tables, Store}
use demuxfs.Ts.Packet.Psi.{hand_over}
use demuxfs.Ts.Packet.Pes.{ts_parse_packet, parse_packets}
use demuxfs.Ts.Laws.{hand_over-checked, hand_over-unchecked}
use demuxfs.Ts.Safety.{IsSafe}
use demuxfs.Ts.Safety.Packet.{IsReadable, IsRoomyPacket, ts_parse_packet-IsSafe}
use demuxfs.Ts.Safety.Stream.{
  started, started-IsSafe, parse_packets-IsSafe, adaptation_field_overrun,
}

-- The header of a PAT packet with an adaptation field of this kind.
abbrev pat_header : ℕ → TsHeader
pat_header kind = record {
  sync_byte = 0x47;
  transport_error_indicator = 0;
  payload_unit_start_indicator = 1;
  transport_priority = 0;
  pid = 0;
  transport_scrambling_control = 0;
  adaptation_field = kind;
  continuity_counter = 4;
}

abbrev options : Bool → Options
options warns = record {
  packet_size = 188;
  packet_error_correction_bytes = 0;
  warns_of_crc_errors = warns;
}

-- Parsers that write down what they are handed.
abbrev tables : List (List ℕ) → Tables (List (List ℕ))
tables seen = record { psi_parsers = hashtable_new 2; pes_parsers = hashtable_new 2; others = seen }

abbrev parse : Parser → TsHeader → List ℕ → Tables (List (List ℕ)) → ℤ × Tables (List (List ℕ))
parse parser header bytes t = (pos 0, record t { others = bytes ∷ t.others })

abbrev first_store : Store (List (List ℕ))
first_store = started fresh (tables [])

-- A section of four bytes, and stuffing.
abbrev payload : List ℕ
payload = 0 ∷ 0 ∷ 0xb0 ∷ 1 ∷ replicate 180 0xff

payload-IsReadable : (warns : Bool) → IsReadable (options warns) (pat_header 1) payload
payload-IsReadable warns = record {
  packet_size = omega arith;
  readable = omega arith;
  shortest = omega arith;
  adaptation_field = λ n e f. absurd (omega arith);
  two_bits = omega arith;
}

-- The packet is a PSI packet.
payload-IsRoomyPacket :
    (warns : Bool) → IsRoomyPacket generous parse (options warns) (pat_header 1) payload first_store
unfolding ts_is_psi_packet is_among
payload-IsRoomyPacket warns = record {
  plain = λ e other pes. absurd cc;
  behind_field = λ n e. absurd (omega arith);
}

ts_parse_packet-IsSafe_example :
    Returns
      (ts_parse_packet generous parse (options true) (pat_header 1) payload first_store)
      (λ r. IsSafe r.1)
ts_parse_packet-IsSafe_example =
    ts_parse_packet-IsSafe generous parse (options true) (pat_header 1) payload first_store
      (payload-IsReadable true) (started-IsSafe fresh (tables [])) (payload-IsRoomyPacket true)

parse_packets-IsSafe_example :
    Returns
      (parse_packets generous parse (options false) ((pat_header 1, payload) ∷ []) first_store)
      IsSafe
parse_packets-IsSafe_example =
    parse_packets-IsSafe generous parse (options false) ((pat_header 1, payload) ∷ []) first_store
      (started-IsSafe fresh (tables []))
      (payload-IsReadable false, payload-IsRoomyPacket false, λ r e on. tt)

adaptation_field_overrun_example :
    ts_parse_packet generous parse (options true) (pat_header 3) (2 ∷ 0 ∷ []) first_store ≡ fault
unfolding ts_is_psi_packet is_among
adaptation_field_overrun_example =
    adaptation_field_overrun generous parse (options true) (pat_header 3) (2 ∷ 0 ∷ []) 2 first_store
      refl refl refl refl refl (omega arith) (omega arith)

-- A buffer of `size` bytes of this allocation, with the last counter.
abbrev held : List ℕ → ℕ → ℕ → Buffer
held bytes size last = record {
  bytes = some bytes;
  pid = 0;
  max_size = length bytes;
  current_size = size;
  continuity_counter = last;
  holds_pes_data = false;
  pes_unbounded_data = false;
}

fresh-IsValid : Table.IsValid fresh
fresh-IsValid = record { filled = λ e. ground arith }

hand_over-checked_example :
    hand_over generous parse
      (options true)
      (pat_header 1)
      payload
      183
      (held (0 ∷ []) 1 3)
      first_store
    ≡ record first_store {
      crc32 = (crc32_check (0 ∷ []) fresh).1;
      tables = if crc (0 ∷ []) == 0 then tables ((0 ∷ []) ∷ []) else tables [];
    }
unfolding ts_get_psi_parser find_parser hashtable_get probe probe_loop hashtable_new
hand_over-checked_example =
    hand_over-checked generous parse (options true) (pat_header 1) payload 183 (held (0 ∷ []) 1 3)
      first_store pat_parse refl refl fresh-IsValid (omega arith, tt)

hand_over-unchecked_example :
    (hand_over generous parse
      (options false)
      (pat_header 1)
      payload
      183
      (held (0 ∷ []) 1 3)
      first_store).tables
    ≡ tables ((0 ∷ []) ∷ [])
unfolding ts_get_psi_parser find_parser hashtable_get probe probe_loop hashtable_new
hand_over-unchecked_example =
    hand_over-unchecked generous parse (options false) (pat_header 1) payload 183
      (held (0 ∷ []) 1 3) first_store pat_parse refl refl

-- The counter 4 where 2 was the last one.
continuity_counter_is_ok_lem_example :
    (2 ≡ (pat_header 1).continuity_counter
      → continuity_counter_is_ok (pat_header 1) (held (0 ∷ []) 1 2) ≡ (false, held (0 ∷ []) 1 2))
    × (2 ≢ (pat_header 1).continuity_counter
        → (held (0 ∷ []) 1 2).current_size ≡ 0
        → continuity_counter_is_ok (pat_header 1) (held (0 ∷ []) 1 2) ≡ (true, held (0 ∷ []) 1 2))
    × ((pat_header 1).continuity_counter ≡ (2 + 1) % 16
        → continuity_counter_is_ok (pat_header 1) (held (0 ∷ []) 1 2) ≡ (true, held (0 ∷ []) 1 2))
    × ((held (0 ∷ []) 1 2).current_size ≢ 0
        → 2 ≢ (pat_header 1).continuity_counter
        → (pat_header 1).continuity_counter ≢ 0
        → (pat_header 1).continuity_counter ≢ (2 + 1) % 16
        → continuity_counter_is_ok (pat_header 1) (held (0 ∷ []) 1 2)
          ≡ (false, buffer_reset_size (held (0 ∷ []) 1 2)))
continuity_counter_is_ok_lem_example =
    continuity_counter_is_ok_lem (pat_header 1) (held (0 ∷ []) 1 2) (omega arith) (omega arith)
