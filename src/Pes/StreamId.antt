-- ===== src/Pes/StreamId.antt =====
-- src/tables/pes.c and pes.h: the kinds of elementary streams and the stream ids that name them.
use demuxfs.Prelude.{ℕ, Bool, ◌&&◌, ◌==◌, leb, if◌then◌else◌}

-- The constants PES_PROGRAM_STREAM_MAP to PES_UNKNOWN_STREAM.
pub data StreamType : Type 0 where
  program_stream_map private_stream_1 padding_stream private_stream_2 : StreamType
  audio_stream video_stream ecm_stream emm_stream dsmcc_stream iso_iec_13522_stream : StreamType
  h222_1_type_a h222_1_type_b h222_1_type_c h222_1_type_d h222_1_type_e : StreamType
  ancillary_stream sl_packetized_stream flexmux_stream reserved_data_stream : StreamType
  program_stream_directory unknown_stream : StreamType

unfoldable pub pes_identify_stream_id : ℕ → StreamType
pes_identify_stream_id id =
    if id == 0xbc
    then program_stream_map
    else if id == 0xbd
    then private_stream_1
    else if id == 0xbe
    then padding_stream
    else if id == 0xbf
    then private_stream_2
    else if leb 0xc0 id && leb id 0xdf
    then audio_stream
    else if leb 0xe0 id && leb id 0xef
    then video_stream
    else if id == 0xf0
    then ecm_stream
    else if id == 0xf1
    then emm_stream
    else if id == 0xf2
    then dsmcc_stream
    else if id == 0xf3
    then iso_iec_13522_stream
    else if id == 0xf4
    then h222_1_type_a
    else if id == 0xf5
    then h222_1_type_b
    else if id == 0xf6
    then h222_1_type_c
    else if id == 0xf7
    then h222_1_type_d
    else if id == 0xf8
    then h222_1_type_e
    else if id == 0xf9
    then ancillary_stream
    else if id == 0xfa
    then sl_packetized_stream
    else if id == 0xfb
    then flexmux_stream
    else if leb 0xfc id && leb id 0xfe
    then reserved_data_stream
    else if id == 0xff
    then program_stream_directory
    else unknown_stream

-- The comparisons of a stream type with one of the constants that the callers make.
abbrev pub is_video : StreamType → Bool
is_video video_stream = Bool.true
is_video _ = Bool.false

abbrev pub is_audio : StreamType → Bool
is_audio audio_stream = Bool.true
is_audio _ = Bool.false
