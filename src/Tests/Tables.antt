-- ===== src/Tests/Tables.antt =====
-- src/tables/ at concrete sections.
use demuxfs.Prelude.{
  ℕ, ◌+◌, ◌-◌, ◌/◌, ◌≤◌, ◌<◌, ◌≡◌, ◌≢◌, refl, true, false, some, none, List, [], ◌∷◌, ◌++◌, length,
  ok, fault, arith, All, ◌==◌, ◌||◌, ◌&&◌, ◌*◌, not, Bool,
}
use demuxfs.Hash.{HashTable, hashtable_new, hashtable_get, hashtable_add, probe, probe_loop}
use demuxfs.Hash.Laws.{IsValid}
use demuxfs.Hash.Add.{hashtable_new-IsValid}
use demuxfs.Ts.Header.{TsHeader}
use demuxfs.Ts.Parsers.{Parser, ts_is_psi_packet, ts_is_pes_packet}
use demuxfs.Psi.{PsiHeader}
use demuxfs.Tables.{at}
use demuxfs.Tables.Descriptors.{descriptors_count}
use demuxfs.Tables.Descriptors.Count.{descriptors_count-forever}
use demuxfs.Tables.Descriptors.Laws.{Descriptor}
use demuxfs.Tables.Sdt.{sdt_services}
use demuxfs.Tables.Sdt.Bounds.{Ends, sdt_services-Ends}
use demuxfs.Tables.Sdt.Encode.{Service}
use demuxfs.Tables.Pat.{PatProgram, Table, State, num_programs, programs_from, pat_populate}
use demuxfs.Tables.Pat.Programs.{
  IsProgram, write_programs, all_as_read, programs-bounds, programs_from-write,
}
use demuxfs.Tables.Pat.Versions.{HasRoom, parser_after_all, pat_populate-get}
use demuxfs.Tables.StreamType.{stream_type_is_audio, stream_type_is_video}
use demuxfs.Tables.Pmt.{is_carousel, pmt_streams, assign_parser}
use demuxfs.Tables.Pmt.Streams.{Halts, pmt_streams-Halts}
use demuxfs.Tables.Pmt.Encode.{Stream}
use demuxfs.Tables.Pmt.Assign.{assign_parser-packets}

-- A service descriptor of one byte.
abbrev descriptor : Descriptor
descriptor = record { tag = 0x48; body = 1 ∷ [] }

abbrev service : Service
service = (
  record {
    service_id = 0x1f40;
    reserved_future_use = 0x3f;
    eit_schedule_flag = 1;
    eit_present_following_flag = 0;
    running_status = 4;
    free_ca_mode = 1;
    descriptors_loop_length = 3;
  },
  descriptor ∷ [],
)

abbrev ten : List ℕ
ten = 0x42 ∷ 0xf0 ∷ 0x14 ∷ 0 ∷ 1 ∷ 0xc1 ∷ 0 ∷ 0 ∷ 0 ∷ 1 ∷ []

abbrev eleven : List ℕ
eleven = 0x42 ∷ 0xf0 ∷ 0x14 ∷ 0 ∷ 1 ∷ 0xc1 ∷ 0 ∷ 0 ∷ 0 ∷ 1 ∷ 0xff ∷ []

abbrev four : List ℕ
four = 1 ∷ 2 ∷ 3 ∷ 4 ∷ []

sdt_services-Ends_example : Ends (sdt_services (eleven ++ four))
sdt_services-Ends_example = sdt_services-Ends (eleven ++ four) (omega arith)

second_byte : at (0x48 ∷ 0xfe ∷ []) (0 + 1) ≡ ok 0xfe
unfolding at
second_byte = refl

descriptors_count-forever_example : descriptors_count 1000 (0x48 ∷ 0xfe ∷ []) 0 20 0 ≡ ok none
descriptors_count-forever_example =
    descriptors_count-forever (0x48 ∷ 0xfe ∷ []) 0 20 0 second_byte (omega arith) 1000

-- A section of eight bytes that announces no byte.
abbrev eight : List ℕ
eight = 0 ∷ 0xb0 ∷ 0 ∷ 0 ∷ 1 ∷ 0xc1 ∷ 0 ∷ 0 ∷ []

programs-bounds_example :
    (6 ≤ 0
      → (ps : List PatProgram) × (programs_from (num_programs 0) eight 0 ≡ ok ps)
        × (length ps ≡ (0 - 9) / 4))
    × (0 < 6 → programs_from (num_programs 0) eight 0 ≡ fault)
programs-bounds_example = programs-bounds eight 0 (omega arith) (omega arith) (omega arith)

abbrev program : PatProgram
program = record { program_number = 1; reserved = 7; pid = 0x1020 }

program-IsProgram : IsProgram program
program-IsProgram = record {
  program_number = omega arith;
  reserved = omega arith;
  pid = omega arith;
}

programs_from-write_example :
    programs_from (num_programs (1 * 4 + 9)) (eight ++ (write_programs (program ∷ []) ++ four)) 0
    ≡ ok (all_as_read (program ∷ []))
programs_from-write_example =
    programs_from-write eight four (program ∷ []) refl (program-IsProgram, tt) (omega arith)

abbrev psi : PsiHeader
psi = record {
  table_id = 0;
  section_syntax_indicator = 1;
  reserved_1 = 0;
  reserved_2 = 3;
  section_length = 6;
  identifier = 1;
  reserved_3 = 3;
  version_number = 0;
  current_next_indicator = 1;
  section_number = 0;
  last_section_number = 0;
}

abbrev packet : TsHeader
packet = record {
  sync_byte = 0x47;
  transport_error_indicator = 0;
  payload_unit_start_indicator = 1;
  transport_priority = 0;
  pid = 0;
  transport_scrambling_control = 0;
  adaptation_field = 1;
  continuity_counter = 0;
}

abbrev no_tables : HashTable Table
no_tables = hashtable_new 3

abbrev no_parsers : HashTable Parser
no_parsers = hashtable_new 3

parsers-IsValid : IsValid no_parsers
parsers-IsValid = hashtable_new-IsValid 3 (omega arith)

abbrev start : State
start = record { psi_parsers = no_parsers; pes_parsers = no_parsers; others = no_tables }

-- A section of six bytes, which holds no program.
abbrev section : List ℕ
section = 0 ∷ 0xb0 ∷ 6 ∷ 0 ∷ 1 ∷ 0xc1 ∷ 0 ∷ 0 ∷ 9 ∷ []

parsers_have_room : HasRoom no_tables no_parsers (program ∷ [])
unfolding hashtable_add probe probe_loop hashtable_new
parsers_have_room = (refl, tt)

pat_populate-get_example :
    IsValid (pat_populate no_tables no_parsers (program ∷ []))
    × ((q : ℕ)
        → hashtable_get (pat_populate no_tables no_parsers (program ∷ [])) q
          ≡ parser_after_all no_tables (program ∷ []) q (hashtable_get no_parsers q))
pat_populate-get_example =
    pat_populate-get no_tables no_parsers (program ∷ []) parsers-IsValid parsers_have_room

-- The bytes of a list that passes a test are not 0xfe.
abbrev no_0xfe : List ℕ → Bool
no_0xfe [] = true
no_0xfe (b ∷ bs) = not (b == 0xfe) && no_0xfe bs

no_0xfe_lem : (bs : List ℕ) → no_0xfe bs ≡ true → All (λ b. b ≢ 0xfe) bs
no_0xfe_lem [] e = tt
no_0xfe_lem (b ∷ bs) e = ((λ h. ground (arith, e, h)), no_0xfe_lem bs (ground (arith, e)))

none_is_0xfe : All (λ b. b ≢ 0xfe) (eleven ++ four)
none_is_0xfe = no_0xfe_lem (eleven ++ four) refl

pmt_streams-Halts_example : Halts (pmt_streams (eleven ++ four) 12)
pmt_streams-Halts_example = pmt_streams-Halts (eleven ++ four) 12 (omega arith) none_is_0xfe

-- A private stream, whose descriptor is a stream identifier.
abbrev stream : Stream
stream = (
  record {
    stream_type_identifier = 0x80;
    reserved_1 = 7;
    elementary_stream_pid = 0x111;
    reserved_2 = 15;
    es_information_length = 3;
  },
  record { tag = 0x52; body = 0x40 ∷ [] } ∷ [],
)

room_for_any : (parser : Parser) → (hashtable_add no_parsers 0x111 (some parser) false).0 ≡ true
unfolding hashtable_add probe probe_loop hashtable_new
room_for_any parser = refl

assign_parser-packets_example :
    (is_carousel 0x80 ≡ true
      → ts_is_psi_packet 0x111 (assign_parser (stream.0) start).psi_parsers ≡ true)
    × (is_carousel 0x80 ≡ false
        → (stream_type_is_audio 0x80 || stream_type_is_video 0x80) ≡ true
        → (ts_is_pes_packet 0x111 (assign_parser (stream.0) start).pes_parsers ≡ true)
          × (ts_is_psi_packet 0x111 (assign_parser (stream.0) start).psi_parsers
              ≡ ts_is_psi_packet 0x111 no_parsers))
    × (is_carousel 0x80 ≡ false
        → stream_type_is_audio 0x80 ≡ false
        → stream_type_is_video 0x80 ≡ false
        → ts_is_pes_packet 0x111 no_parsers ≡ false
        → (ts_is_psi_packet 0x111 (assign_parser (stream.0) start).psi_parsers ≡ true)
          × (ts_is_pes_packet 0x111 (assign_parser (stream.0) start).pes_parsers ≡ false))
assign_parser-packets_example =
    assign_parser-packets (stream.0) start parsers-IsValid parsers-IsValid room_for_any room_for_any
