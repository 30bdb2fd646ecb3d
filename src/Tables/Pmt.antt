-- ===== src/Tables/Pmt.antt =====
-- src/tables/pmt.c, src/tables/pmt.h: the streams of a program map table, the directories that they are
-- sorted into, and the parsers that are registered for their PIDs. The entries themselves are left out.
pub mod Streams
pub mod Encode
pub mod Assign
use demuxfs.Prelude.{
  ℕ, zero, suc, ◌+◌, ◌-◌, ◌*◌, ◌/◌, ◌%◌, ◌^◌, Bool, true, false, not, ◌&&◌, ◌||◌, Option, none,
  some, List, [], ◌∷◌, ◌++◌, ltb, leb, ◌==◌, if◌then◌else◌, Run, ok, ◌>>=◌, bit_and,
}
use demuxfs.Byteops.{char_shift_right}
use demuxfs.Hash.{HashTable, hashtable_get, hashtable_add}
use demuxfs.Ts.Parsers.{Parser, registered, is_set}
use demuxfs.Ts.Packet.{Tables}
use demuxfs.Tables.{at, at16, Parsed, parsed, refused, unfinished, then_parse}
use demuxfs.Tables.Descriptors.{Call, descriptors_parse, descriptors_count}
use demuxfs.Tables.StreamType.{
  stream_type_is_video, stream_type_is_audio, stream_type_is_data_carousel,
  stream_type_is_event_message, stream_type_is_mpe, stream_type_is_object_carousel,
  component_is_video, component_is_audio, component_is_caption, component_is_superimposed,
  component_is_object_carousel, component_is_event_message, component_is_data_carousel,
  component_is_one_seg,
}

pub record PmtStream : Type 0 where
  pub stream_type_identifier : ℕ
  pub reserved_1 : ℕ
  pub elementary_stream_pid : ℕ
  pub reserved_2 : ℕ
  pub es_information_length : ℕ

-- `descriptor_info[0]` and `descriptor_info[2]`
pub record StreamInfo : Type 0 where
  pub tag : ℕ
  pub component_tag : ℕ

unfoldable pub stream_at : List ℕ → ℕ → Run PmtStream
stream_at payload o = at payload o >>= λ kind. at payload (o + 1) >>= λ b1.
    at16 payload (o + 1) >>= λ pid. at payload (o + 3) >>= λ b3. at16 payload (o + 3) >>= λ len.
    ok record {
      stream_type_identifier = kind;
      reserved_1 = bit_and (char_shift_right b1 5) 0x7;
      elementary_stream_pid = bit_and pid 0x1fff;
      reserved_2 = bit_and (char_shift_right b3 4) 0x0f;
      es_information_length = bit_and len 0x0fff;
    }

-- The loop over the descriptors of a stream, which stand from `place` on: the n-th byte of `len`. It gives
-- what pmt_populate_stream_dir reads of each of them, and the calls of their parsers.
unfoldable pub stream_infos : ℕ → List ℕ → ℕ → ℕ → ℕ → Run (Parsed (List StreamInfo × List Call))
stream_infos zero payload place n len = ok unfinished
stream_infos (suc rounds) payload place n len =
    if ltb n len
    then (at payload (place + n) >>= λ tag. at payload (place + n + 2) >>= λ component_tag.
        descriptors_parse 1 payload (place + n) >>= λ one.
        stream_infos rounds payload place (n + one.0) len
        >>= then_parse (λ rest.
          ok (
            parsed
              (record { tag = tag; component_tag = component_tag } ∷ rest.0, one.1 ++ rest.1))))
    else ok (parsed ([], []))

-- A stream with what is read of its descriptors.
abbrev pub StreamRead : Type 0
StreamRead = PmtStream × List StreamInfo × List Call

-- `3 + pmt->section_length - sizeof(pmt->crc)`, in the 64 bits of the size.
unfoldable pub streams_end : ℕ → ℕ
streams_end section_length = (3 + section_length + (2 ^ 64 - 4)) % 2 ^ 64

-- The loop over the streams, from the offset `o` on. An information length has twelve bits.
unfoldable pub streams_from : ℕ → List ℕ → ℕ → ℕ → Run (Parsed (List StreamRead))
streams_from zero payload o end_ = ok unfinished
streams_from (suc rounds) payload o end_ =
    if ltb o end_
    then (stream_at payload o >>= λ stream.
        stream_infos 4096 payload (o + 5) 0 stream.es_information_length
        >>= then_parse (λ infos.
          streams_from rounds payload ((o + (5 + stream.es_information_length)) % 2 ^ 32) end_
          >>= then_parse (λ rest. ok (parsed ((stream, infos.0, infos.1) ∷ rest)))))
    else ok (parsed [])

-- What stands behind the descriptors of the program: the loop over the streams begins where the parsing of
-- as many descriptors has ended as an eight-bit number says.
unfoldable pub streams_behind : List ℕ → ℕ → Option ℕ → Run (Parsed (List Call × List StreamRead))
streams_behind payload section_length none = ok unfinished
streams_behind payload section_length (some num_descriptors) =
    descriptors_parse (num_descriptors % 2 ^ 8) payload 12 >>= λ descriptors.
    streams_from (2 ^ 16) payload (12 + descriptors.0) (streams_end section_length)
    >>= then_parse (λ streams. ok (parsed (descriptors.1, streams)))

-- The calls of the parsers of the program's descriptors, and the streams that pmt_parse finds.
unfoldable pub pmt_streams : List ℕ → ℕ → Run (Parsed (List Call × List StreamRead))
pmt_streams payload section_length = at16 payload 10 >>= λ v.
    descriptors_count 4097 payload 12 (bit_and v 0x0fff) 0 >>= λ num_descriptors.
    streams_behind payload section_length num_descriptors

-- The directories of streams.
pub data StreamsName : Type 0 where
  reserved_streams one_seg_video video one_seg_audio audio closed_caption superimposed : StreamsName
  object_carousel data_carousel event_message mpe : StreamsName

-- Where a stream goes, and whether it is the primary or a secondary component there.
pub record Sorted : Type 0 where
  pub streams : StreamsName
  pub is_primary : Bool
  pub is_secondary : Bool

abbrev pub component : StreamsName → Bool → Sorted
component streams primary = record {
  streams = streams;
  is_primary = primary;
  is_secondary = not primary;
}

-- The chain of tests on the component tag.
unfoldable pub by_component : ℕ → Sorted
by_component t =
    if (component_is_video t).0
    then component (if component_is_one_seg t then one_seg_video else video)
        (component_is_video t).1
    else if (component_is_audio t).0
    then component (if component_is_one_seg t then one_seg_audio else audio)
        (component_is_audio t).1
    else if (component_is_caption t).0
    then component closed_caption (component_is_caption t).1
    else if (component_is_superimposed t).0
    then component superimposed (component_is_superimposed t).1
    else if (component_is_object_carousel t).0
    then component object_carousel (component_is_object_carousel t).1
    else if (component_is_data_carousel t).0
    then component data_carousel (component_is_data_carousel t).1
    else if component_is_event_message t
    then component event_message (component_is_data_carousel t).1
    else record {
      streams = reserved_streams;
      is_primary = (component_is_data_carousel t).1;
      is_secondary = false;
    }

-- The chain of tests on the stream type.
unfoldable pub by_stream_type : ℕ → StreamsName
by_stream_type t =
    if stream_type_is_data_carousel t
    then data_carousel
    else if stream_type_is_event_message t
    then event_message
    else if stream_type_is_mpe t
    then mpe
    else if stream_type_is_object_carousel t
    then object_carousel
    else if stream_type_is_video t
    then video
    else if stream_type_is_audio t
    then audio
    else reserved_streams

-- 0x52 is the tag of a stream identifier descriptor; a stream without descriptors has none.
unfoldable pub sort_stream : ℕ → Option StreamInfo → Sorted
sort_stream kind none = record {
  streams = by_stream_type kind;
  is_primary = false;
  is_secondary = false;
}
sort_stream kind (some info) =
    if info.tag == 0x52
    then by_component info.component_tag
    else record { streams = by_stream_type kind; is_primary = false; is_secondary = false }

-- The parsers that are registered for streams.
abbrev pub dsmcc_parser : Parser
dsmcc_parser = registered 0

abbrev pub pes_audio_parser : Parser
pes_audio_parser = registered 1

abbrev pub pes_video_parser : Parser
pes_video_parser = registered 2

abbrev pub pes_other_parser : Parser
pes_other_parser = registered 3

abbrev pub add_unless : Bool → HashTable Parser → ℕ → Parser → HashTable Parser
add_unless true t pid parser = t
add_unless false t pid parser = (hashtable_add t pid (some parser) false).1

unfoldable pub is_carousel : ℕ → Bool
is_carousel kind =
    stream_type_is_data_carousel kind
    || stream_type_is_event_message kind
    || stream_type_is_mpe kind
    || stream_type_is_object_carousel kind

-- The end of pmt_populate_stream_dir.
unfoldable pub assign_parser : {W : Type 0} → PmtStream → Tables W → Tables W
assign_parser stream s =
    let pid = stream.elementary_stream_pid in
    let kind = stream.stream_type_identifier in
    let psi_known = is_set (hashtable_get s.psi_parsers pid) in
    let pes_known = is_set (hashtable_get s.pes_parsers pid) in
    if is_carousel kind
    then record s { psi_parsers = add_unless psi_known s.psi_parsers pid dsmcc_parser }
    else if stream_type_is_audio kind
    then record s { pes_parsers = add_unless pes_known s.pes_parsers pid pes_audio_parser }
    else if stream_type_is_video kind
    then record s { pes_parsers = add_unless pes_known s.pes_parsers pid pes_video_parser }
    else record s { psi_parsers = add_unless pes_known s.psi_parsers pid pes_other_parser }
