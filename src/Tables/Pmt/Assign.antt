-- ===== src/Tables/Pmt/Assign.antt =====
-- src/tables/pmt.c, src/ts.c: how the packets of a stream are routed once its parser is registered.
use demuxfs.Prelude.{
  ℕ, ◌≡◌, refl, Bool, true, false, ◌||◌, some, ◌==◌, arith, Bool-cases, inl, inr, Option-cases,
}
use demuxfs.Hash.{HashTable, hashtable_get, hashtable_add}
use demuxfs.Hash.Laws.{IsValid}
use demuxfs.Hash.Add.{get-add}
use demuxfs.Ts.Parsers.{Parser, is_set, is_among, psi_pids, ts_is_psi_packet, ts_is_pes_packet}
use demuxfs.Ts.Packet.{Tables}
use demuxfs.Tables.StreamType.{stream_type_is_audio, stream_type_is_video}
use demuxfs.Tables.Pmt.{
  PmtStream, add_unless, is_carousel, assign_parser, dsmcc_parser, pes_audio_parser,
  pes_video_parser, pes_other_parser,
}

-- Every parser that is registered for the PID finds room.
abbrev pub HasRoom : HashTable Parser → ℕ → Type 0
HasRoom t pid = (parser : Parser) → (hashtable_add t pid (some parser) false).0 ≡ true

added_or_known :
    (t : HashTable Parser) (pid : ℕ) (parser : Parser)
    → IsValid t
    → HasRoom t pid
    → is_set (hashtable_get (add_unless (is_set (hashtable_get t pid)) t pid parser) pid) ≡ true
added_or_known t pid parser v room = elim (Option-cases (hashtable_get t pid)) [
  | inr (known, e) ↦ rw e (rw e refl)
  | inl e ↦
      let same : (pid == pid) ≡ true = ground arith in
      let got = get-add t v pid (some parser) false (room parser) pid in
      rw e (rw got (rw same refl))
]

psi_packet :
    (pid : ℕ) (t : HashTable Parser)
    → is_set (hashtable_get t pid) ≡ true
    → ts_is_psi_packet pid t ≡ true
unfolding ts_is_psi_packet
psi_packet pid t e = rw e (or_true (is_among pid psi_pids))
  where
    or_true : (b : Bool) → (b || true) ≡ true
    or_true true = refl
    or_true false = refl

or_right : (a b : Bool) → a ≡ false → (a || b) ≡ true → b ≡ true
or_right true b e f = cc e
or_right false b e f = f

-- With room for its parser, the packets of a carousel are taken as PSI packets. The PID of an audio or video
-- stream has a PES parser then, and the test for PSI packets, which comes first, says of it what it has said
-- before. A stream of another type whose PID has no PES parser is registered among the PSI parsers: its
-- packets are taken as PSI packets, and no parser is registered for them as PES packets.
pub assign_parser-packets :
    {W : Type 0} (stream : PmtStream) (s : Tables W)
    → IsValid s.psi_parsers
    → IsValid s.pes_parsers
    → HasRoom s.psi_parsers stream.elementary_stream_pid
    → HasRoom s.pes_parsers stream.elementary_stream_pid
    → (is_carousel stream.stream_type_identifier ≡ true
        → ts_is_psi_packet stream.elementary_stream_pid (assign_parser stream s).psi_parsers ≡ true)
      × (is_carousel stream.stream_type_identifier ≡ false
          → (stream_type_is_audio stream.stream_type_identifier
              || stream_type_is_video stream.stream_type_identifier)
            ≡ true
          → (ts_is_pes_packet stream.elementary_stream_pid (assign_parser stream s).pes_parsers
              ≡ true)
            × (ts_is_psi_packet stream.elementary_stream_pid (assign_parser stream s).psi_parsers
                ≡ ts_is_psi_packet stream.elementary_stream_pid s.psi_parsers))
      × (is_carousel stream.stream_type_identifier ≡ false
          → stream_type_is_audio stream.stream_type_identifier ≡ false
          → stream_type_is_video stream.stream_type_identifier ≡ false
          → ts_is_pes_packet stream.elementary_stream_pid s.pes_parsers ≡ false
          → (ts_is_psi_packet stream.elementary_stream_pid (assign_parser stream s).psi_parsers
              ≡ true)
            × (ts_is_pes_packet stream.elementary_stream_pid (assign_parser stream s).pes_parsers
                ≡ false))
unfolding assign_parser ts_is_pes_packet
assign_parser-packets stream s v w room room' =
    let pid = stream.elementary_stream_pid in
    let kind = stream.stream_type_identifier in
    (
      λ e. rw e (psi_packet pid _ (added_or_known s.psi_parsers pid dsmcc_parser v room)),
      λ e f. rw e (elim (Bool-cases (stream_type_is_audio kind)) [
        | inl a ↦ rw a (added_or_known s.pes_parsers pid pes_audio_parser w room', refl)
        | inr a ↦
            let b : stream_type_is_video kind ≡ true = or_right _ _ a f in
            rw (a, b) (added_or_known s.pes_parsers pid pes_video_parser w room', refl)
      ]),
      λ e f g unknown.
          let same : (pid == pid) ≡ true = ground arith in
          let got =
            get-add s.psi_parsers v pid (some pes_other_parser) false (room pes_other_parser) pid in
          rw (e, f, g) (rw unknown (psi_packet pid _ (rw got (rw same refl)), refl)),
    )
