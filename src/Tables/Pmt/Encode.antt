-- ===== src/Tables/Pmt/Encode.antt =====
-- src/tables/pmt.c: the streams that are written in a table are read back.
use demuxfs.Prelude.{
  ℕ, ◌+◌, ◌*◌, ◌/◌, ◌%◌, ◌^◌, ◌≤◌, ◌<◌, ◌≡◌, List, [], ◌∷◌, ◌++◌, length, get_or, All,
}
use demuxfs.Tables.Fields.{write_length}
use demuxfs.Tables.Descriptors.Laws.{Descriptor, write_descriptors, calls_of}
use demuxfs.Tables.Pmt.{PmtStream, StreamInfo, StreamRead}

-- A stream and its descriptors.
abbrev pub Stream : Type 0
Stream = PmtStream × List Descriptor

abbrev pid_bits : PmtStream → ℕ
pid_bits s = s.reserved_1 * 32 + s.elementary_stream_pid / 256

abbrev length_bits : PmtStream → ℕ
length_bits s = s.reserved_2 * 16 + s.es_information_length / 256

abbrev pub write_stream : PmtStream → List ℕ
write_stream s =
    s.stream_type_identifier
    ∷ pid_bits s
    ∷ (s.elementary_stream_pid % 256)
    ∷ length_bits s
    ∷ (s.es_information_length % 256)
    ∷ []

abbrev pub write_streams : List Stream → List ℕ
write_streams [] = []
write_streams (s ∷ ss) = write_stream s.0 ++ (write_descriptors s.1 ++ write_streams ss)

-- A descriptor with at least one byte.
abbrev pub IsFilled : Descriptor → Type 0
IsFilled d = 1 ≤ length d.body

pub record IsStream (s : Stream) : Type 0 where
  pub reserved_1 : s.0.reserved_1 < 8
  pub elementary_stream_pid : s.0.elementary_stream_pid < 2 ^ 13
  pub reserved_2 : s.0.reserved_2 < 16
  pub short : length (write_descriptors s.1) < 2 ^ 12
  pub es_information_length : s.0.es_information_length ≡ length (write_descriptors s.1)
  pub filled : All IsFilled s.1

-- The tag and the first byte of each descriptor.
abbrev pub infos_of : List Descriptor → List StreamInfo
infos_of [] = []
infos_of (d ∷ ds) = record { tag = d.tag; component_tag = get_or d.body 0 0 } ∷ infos_of ds

abbrev pub streams_read : ℕ → List Stream → List StreamRead
streams_read o [] = []
streams_read o (s ∷ ss) =
    (s.0, infos_of s.1, calls_of (o + 5) s.1)
    ∷ streams_read (o + (5 + s.0.es_information_length)) ss

abbrev pub write_program_map : ℕ → List Descriptor → List Stream → List ℕ
write_program_map reserved ds ss =
    write_length reserved (length (write_descriptors ds))
    ++ (write_descriptors ds ++ write_streams ss)
