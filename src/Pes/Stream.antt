-- ===== src/Pes/Stream.antt =====
-- src/tables/pes.c, src/priv.h: the parsers of audio and video packets, which feed two FIFOs.
-- The entries that pes_get_dentry gives are arguments, `none` where it gives NULL.
use demuxfs.Prelude.{
  ℕ, zero, suc, ap, take, [], ◌∷◌, ◌+◌, ◌-◌, ◌%◌, ◌^◌, ◌≤◌, ◌<◌, ◌≡◌, refl, Bool, true, false, ◌&&◌,
  not, Option, none, some, List, ◌++◌, length, drop, ltb, ◌==◌, if◌then◌else◌, ℤ, pos, negsuc, Run,
  ok, ◌>>=◌, arith,
}
use demuxfs.Byteops.{convert_to_16}
use demuxfs.Ts.Packet.{read_at}
use demuxfs.Fifo.{Fifo, Written, wrote, settle, Appended, fifo_is_open, append_loop, fifo_append}
use demuxfs.Pes.StreamId.{
  StreamType, program_stream_map, private_stream_2, padding_stream, ecm_stream, emm_stream,
  program_stream_directory, dsmcc_stream, h222_1_type_e, pes_identify_stream_id, is_video, is_audio,
}
use demuxfs.Pes.Payload.{pes_parse_audio_video_payload}
use demuxfs.Pes.Feed.{
  EsStreamType, es_video_stream, es_audio_stream, es_other_stream, skip_delta_frames,
  pes_append_to_fifo,
}

pub record AvFifoPriv : Type 0 where
  pub fifo : Fifo
  pub pes_packet_initialized : Bool
  pub pes_packet_length : ℕ
  pub pes_packet_parsed_length : ℕ

-- What is chosen from a payload: an offset, `none` for NULL, and a number of bytes.
pub record Chosen : Type 0 where
  pub data_ : Option ℕ
  pub data_len : ℕ
  pub kind : EsStreamType

-- `uint32_t data_len = payload_len - 4`
abbrev pub minus_32 : ℕ → ℕ → ℕ
minus_32 a b = (a + 2 ^ 32 - b) % 2 ^ 32

-- The packet's length is noted, and the bytes that have been parsed of it.
abbrev pub packet_started : AvFifoPriv → ℕ → AvFifoPriv
packet_started p n = record p {
  pes_packet_initialized = true;
  pes_packet_length = n;
  pes_packet_parsed_length = 0;
}

abbrev pub bytes_parsed : AvFifoPriv → ℕ → AvFifoPriv
bytes_parsed p n = record p { pes_packet_parsed_length = (p.pes_packet_parsed_length + n) % 2 ^ 32 }

-- The data behind the header; `none` when the parser refuses it.
abbrev pub behind_header : AvFifoPriv → EsStreamType → Option (ℕ × ℕ) → AvFifoPriv × Option Chosen
behind_header p kind none = (p, none)
behind_header p kind (some (offset, n)) =
    (bytes_parsed p n, some record { data_ = some offset; data_len = n; kind = kind })

abbrev audio_kind : Bool → EsStreamType
audio_kind true = es_audio_stream
audio_kind false = es_other_stream

abbrev video_kind : Bool → EsStreamType
video_kind true = es_video_stream
video_kind false = es_other_stream

-- The first packet: `choose` is what is done for the kind of stream.
unfoldable pub first_packet :
    (StreamType → AvFifoPriv → Run (AvFifoPriv × Option Chosen))
    → AvFifoPriv
    → List ℕ
    → Run (AvFifoPriv × Option Chosen)
first_packet choose p memory = read_at memory 3 >>= λ id. read_at memory 4 >>= λ high.
    read_at memory 5 >>= λ low.
    choose (pes_identify_stream_id id) (packet_started p (convert_to_16 high low))

-- Of a packet with a length, the data are counted without four bytes.
abbrev pub continued : AvFifoPriv → ℕ → ℕ
continued p payload_len = if p.pes_packet_length == 0 then payload_len else minus_32 payload_len 4

unfoldable pub audio_data : Bool → AvFifoPriv → List ℕ → ℕ → Run (AvFifoPriv × Option Chosen)
audio_data pusi p memory payload_len =
    if pusi
    then first_packet
        (λ kind p'. pes_parse_audio_video_payload memory payload_len >>= λ r.
          ok (behind_header p' (audio_kind (is_audio kind)) r))
        p memory
    else ok (
      p,
      some record {
        data_ = some 0;
        data_len = if p.pes_packet_initialized then continued p payload_len else payload_len;
        kind = es_audio_stream;
      },
    )

-- The streams whose packets hold data bytes alone.
abbrev pub data_alone : StreamType → Bool
data_alone program_stream_map = true
data_alone private_stream_2 = true
data_alone ecm_stream = true
data_alone emm_stream = true
data_alone program_stream_directory = true
data_alone dsmcc_stream = true
data_alone h222_1_type_e = true
data_alone _ = false

abbrev pub is_padding : StreamType → Bool
is_padding padding_stream = true
is_padding _ = false

unfoldable pub video_first : List ℕ → ℕ → StreamType → AvFifoPriv → Run (AvFifoPriv × Option Chosen)
video_first memory payload_len kind p =
    if data_alone kind
    then ok (
      bytes_parsed p (minus_32 (minus_32 payload_len 4) 6),
      some record {
        data_ = some 6;
        data_len = minus_32 (minus_32 payload_len 4) 6;
        kind = video_kind (is_video kind);
      },
    )
    else if is_padding kind
    then ok (p, some record { data_ = none; data_len = 0; kind = video_kind (is_video kind) })
    else (pes_parse_audio_video_payload memory payload_len >>= λ r.
        ok (behind_header p (video_kind (is_video kind)) r))

unfoldable pub video_data : Bool → AvFifoPriv → List ℕ → ℕ → Run (AvFifoPriv × Option Chosen)
video_data pusi p memory payload_len =
    if pusi
    then first_packet (video_first memory payload_len) p memory
    else ok (
      p,
      some (
          if p.pes_packet_initialized
          then record { data_ = some 0; data_len = continued p payload_len; kind = es_other_stream }
          else record { data_ = none; data_len = 0; kind = es_other_stream }),
    )

pub record Streams : Type 0 where
  pub es : Option AvFifoPriv
  pub pes : Option Fifo
  pub answers : List Written
  pub es_bytes : List ℕ
  pub pes_bytes : List ℕ

abbrev pub es_appended : Streams → AvFifoPriv → Appended → Streams
es_appended s p a = record s {
  es = some (record p { fifo = a.fifo });
  answers = a.answers;
  es_bytes = s.es_bytes ++ a.bytes;
}

-- The data go into the FIFO of the elementary stream, if there are any.
unfoldable pub feed_es : Option ℕ → Streams → AvFifoPriv → Chosen → List ℕ → Run (Option Streams)
feed_es opened s p c memory = elim c.data_ [
  | none ↦ ok (some (record s { es = some p }))
  | some offset ↦
      if c.data_len == 0
      then ok (some (record s { es = some p }))
      else (pes_append_to_fifo opened s.answers p.fifo (drop offset memory) c.data_len c.kind
          >>= λ r. elim r [ none ↦ ok none | some a ↦ ok (some (es_appended s p a)) ])
]

-- The whole payload goes into the FIFO of the packets.
unfoldable pub feed_pes : Option ℕ → Streams → List ℕ → ℕ → Run (Option (ℤ × Streams))
feed_pes opened s memory payload_len = elim s.pes [
  | none ↦ ok (some (negsuc 1, s))
  | some f ↦ pes_append_to_fifo opened s.answers f memory payload_len es_other_stream >>= λ r.
      elim r [
        | none ↦ ok none
        | some a ↦ ok (
            some (
              pos 0,
              record s {
                pes = some a.fifo;
                answers = a.answers;
                pes_bytes = s.pes_bytes ++ a.bytes;
              },
            ))
      ]
]

-- The part that both parsers have in common; `choose` is where they differ, `opened` and `opened'` are what
-- open() answers for the two FIFOs. -ENOENT is `negsuc 1`.
unfoldable pub parse_stream :
    (Bool → AvFifoPriv → List ℕ → ℕ → Run (AvFifoPriv × Option Chosen))
    → Bool
    → Option ℕ
    → Option ℕ
    → Bool
    → Streams
    → List ℕ
    → ℕ
    → Run (Option (ℤ × Streams))
parse_stream choose parse_pes opened opened' pusi s memory payload_len =
    if pusi && ltb payload_len 6
    then ok (some (negsuc 0, s))
    else if not parse_pes
    then feed_pes opened' s memory payload_len
    else elim s.es [
      | none ↦ ok (some (negsuc 1, s))
      | some p ↦ choose pusi p memory payload_len >>= λ r. elim r.1 [
        | none ↦ ok (some (negsuc 0, record s { es = some r.0 }))
        | some c ↦ feed_es opened s r.0 c memory >>= λ fed. elim fed [
          | none ↦ ok none
          | some s' ↦ feed_pes opened' s' memory payload_len
        ]
      ]
    ]

unfoldable pub pes_parse_audio :
    Bool → Option ℕ → Option ℕ → Bool → Streams → List ℕ → ℕ → Run (Option (ℤ × Streams))
pes_parse_audio parse_pes opened opened' pusi s memory payload_len =
    parse_stream audio_data parse_pes opened opened' pusi s memory payload_len

unfoldable pub pes_parse_video :
    Bool → Option ℕ → Option ℕ → Bool → Streams → List ℕ → ℕ → Run (Option (ℤ × Streams))
pes_parse_video parse_pes opened opened' pusi s memory payload_len =
    parse_stream video_data parse_pes opened opened' pusi s memory payload_len

take-take : (n : ℕ) (xs : List ℕ) → take n (take n xs) ≡ take n xs
take-take zero xs = refl
take-take (suc n) [] = refl
take-take (suc n) (x ∷ xs) = ap (λ l. x ∷ l) (take-take n xs)

-- Of a whole video packet whose last payload came without PUSI, after a packet with a length, the reader of
-- the packets gets every byte, and the reader of the elementary stream all but the last four, when both FIFOs
-- are open and each write() takes what it is given.
pub last_four_lost :
    (opened opened' : Option ℕ) (s : Streams) (p : AvFifoPriv) (f : Fifo) (n m : ℕ)
    (rest : List Written) (memory : List ℕ) (payload_len : ℕ)
    → s.es ≡ some p
    → p.pes_packet_initialized ≡ true
    → 1 ≤ p.pes_packet_length
    → p.fifo.fd ≡ some n
    → s.pes ≡ some f
    → f.fd ≡ some m
    → s.answers ≡ wrote (payload_len - 4) ∷ wrote payload_len ∷ rest
    → 6 ≤ payload_len
    → payload_len ≤ length memory
    → payload_len < 2 ^ 32
    → (s' : Streams) × (pes_parse_video true opened opened' false s memory payload_len
        ≡ ok (some (pos 0, s')))
      × (s'.es_bytes ≡ s.es_bytes ++ take (payload_len - 4) memory)
      × (s'.pes_bytes ≡ s.pes_bytes ++ take payload_len memory)
unfolding pes_parse_video parse_stream video_data feed_es feed_pes pes_append_to_fifo
    skip_delta_frames fifo_is_open fifo_append append_loop
last_four_lost opened opened' s p f n m rest memory payload_len es init bounded open_ pes open_'
      answers six fits small =
    let has_length : (p.pes_packet_length == 0) ≡ false = ground arith in
    let size : minus_32 payload_len 4 ≡ payload_len - 4 = omega arith in
    let some_data : (payload_len - 4 == 0) ≡ false = ground arith in
    let some_bytes : (payload_len == 0) ≡ false = ground arith in
    let room : ltb (length memory) (payload_len - 4) ≡ false = ground arith in
    let room' : ltb (length memory) payload_len ≡ false = ground arith in
    let after : Streams = record s {
      es = some (record p { fifo = settle (wrote (payload_len - 4)) p.fifo });
      pes = some (settle (wrote payload_len) f);
      answers = rest;
      es_bytes = s.es_bytes ++ take (payload_len - 4) (take (payload_len - 4) memory);
      pes_bytes = s.pes_bytes ++ take payload_len (take payload_len memory);
    } in
    (
      after,
      rw (es, init, has_length, size)
          (rw (some_data, open_)
            (rw (room, answers) (rw (pes, some_bytes) (rw (open_', room') refl)))),
      ap (λ l. s.es_bytes ++ l) (take-take (payload_len - 4) memory),
      ap (λ l. s.pes_bytes ++ l) (take-take payload_len memory),
    )
