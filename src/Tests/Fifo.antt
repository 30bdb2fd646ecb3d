-- ===== src/Tests/Fifo.antt =====
-- src/fifo.c and the FIFOs of src/tables/pes.c at concrete packets.
use demuxfs.Prelude.{
  ℕ, pos, suc, take, ◌-◌, ◌≡◌, refl, true, false, none, some, List, [], ◌∷◌, ◌++◌, drop, ◌==◌,
  if◌then◌else◌, ok, arith,
}
use demuxfs.Fifo.{
  Fifo, wrote, again, failed, fifo_init, fifo_is_open, fifo_append, fifo_append_ends,
}
use demuxfs.Pes.Feed.{
  is_nal_idc_reference, StopsAt, pes_append_to_fifo, es_video_stream, nothing_appended,
  pes_append_to_fifo-video,
}
use demuxfs.Pes.Stream.{AvFifoPriv, Streams, pes_parse_video, last_four_lost}

abbrev open_fifo : Fifo
open_fifo = record { flushed = true; fd = some 5 }

-- Two refusals, and then an answer.
fifo_append_ends_example :
    ((n : ℕ)
      → fifo_append (again ∷ again ∷ wrote (suc n) ∷ failed ∷ []) open_fifo (1 ∷ 2 ∷ 3 ∷ []) 2
        ≡ ok (
            some record {
              fifo = record { flushed = false; fd = some 5 };
              bytes = take (suc n) (1 ∷ 2 ∷ []);
              answers = failed ∷ [];
            }))
    × (fifo_append (again ∷ again ∷ wrote 0 ∷ failed ∷ []) open_fifo (1 ∷ 2 ∷ 3 ∷ []) 2
        ≡ ok (
            some record {
              fifo = record { flushed = true; fd = none };
              bytes = [];
              answers = failed ∷ [];
            }))
    × (fifo_append (again ∷ again ∷ failed ∷ failed ∷ []) open_fifo (1 ∷ 2 ∷ 3 ∷ []) 2
        ≡ ok (
            some record {
              fifo = record { flushed = true; fd = none };
              bytes = [];
              answers = failed ∷ [];
            }))
fifo_append_ends_example =
    fifo_append_ends 2 2 (failed ∷ []) open_fifo (1 ∷ 2 ∷ 3 ∷ []) (omega arith)

abbrev frames : List ℕ
frames = 7 ∷ 0 ∷ 0 ∷ 0 ∷ 1 ∷ 0x67 ∷ 8 ∷ []

abbrev behind : List ℕ
behind = 0 ∷ 0 ∷ 0 ∷ 0 ∷ []

pes_append_to_fifo-video_example :
    (k : ℕ) × StopsAt is_nal_idc_reference (frames ++ behind) 7 k
    × (pes_append_to_fifo (some 5) (wrote 6 ∷ []) fifo_init (frames ++ behind) 7 es_video_stream ≡ (
        if 7 - k == 0
        then ok (some (nothing_appended open_fifo (wrote 6 ∷ [])))
        else fifo_append (wrote 6 ∷ []) open_fifo (drop k (frames ++ behind)) (7 - k)))
unfolding fifo_init fifo_is_open
pes_append_to_fifo-video_example =
    pes_append_to_fifo-video (some 5) (wrote 6 ∷ []) fifo_init open_fifo frames behind refl
      (omega arith) (omega arith)

abbrev av : AvFifoPriv
av = record {
  fifo = open_fifo;
  pes_packet_initialized = true;
  pes_packet_length = 300;
  pes_packet_parsed_length = 170;
}

abbrev streams : Streams
streams = record {
  es = some av;
  pes = some open_fifo;
  answers = wrote 4 ∷ wrote 8 ∷ [];
  es_bytes = [];
  pes_bytes = [];
}

abbrev eight : List ℕ
eight = 1 ∷ 2 ∷ 3 ∷ 4 ∷ 5 ∷ 6 ∷ 7 ∷ 8 ∷ []

last_four_lost_example :
    (s' : Streams) × (pes_parse_video true none none false streams eight 8 ≡ ok (some (pos 0, s')))
    × (s'.es_bytes ≡ [] ++ take 4 eight)
    × (s'.pes_bytes ≡ [] ++ take 8 eight)
last_four_lost_example =
    last_four_lost none none streams av open_fifo 5 5 [] eight 8 refl refl (omega arith) refl refl
      refl refl (omega arith) (omega arith) (omega arith)
