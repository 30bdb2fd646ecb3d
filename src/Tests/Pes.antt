-- ===== src/Tests/Pes.antt =====
-- src/tables/pes.c at a concrete packet.
use demuxfs.Prelude.{◌≡◌, refl, some, [], ◌∷◌, ◌++◌, List, ℕ, arith, replicate, ok}
use demuxfs.Pes.Payload.{pes_parse_audio_video_payload, pes_parse_audio_video_payload_lem}

-- A header with a time stamp, one stuffing byte and one byte of data.
abbrev packet : List ℕ
packet = replicate 7 0 ++ (0x80 ∷ 6 ∷ 0 ∷ 0 ∷ 0 ∷ 0 ∷ 0 ∷ 0xff ∷ 1 ∷ [])

pes_parse_audio_video_payload_lem_example :
    pes_parse_audio_video_payload packet 16 ≡ ok (some (14, 2))
pes_parse_audio_video_payload_lem_example =
    pes_parse_audio_video_payload_lem packet 16 0x80 0xff refl (omega arith) refl refl (omega arith)
      (omega arith) (omega arith)
