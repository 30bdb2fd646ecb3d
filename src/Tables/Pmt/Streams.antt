-- ===== src/Tables/Pmt/Streams.antt =====
-- src/tables/pmt.c: the loops over the streams and their descriptors end.
use demuxfs.Prelude.{
  ℕ, zero, suc, ◌+◌, ◌%◌, ◌^◌, ◌≤◌, ◌<◌, ◌≡◌, ◌≢◌, refl, ap, List, [], ◌++◌, length, get_or, ltb,
  Run, ok, fault, ◌>>=◌, arith, Bool-cases, inl, inr, bit_and, Option, none, some, All,
}
use demuxfs.Prelude.Bits.{bit_and_mask}
use demuxfs.Byteops.{convert_to_16}
use demuxfs.Tables.{at, at16, Parsed, parsed, refused, unfinished, then_parse}
use demuxfs.Tables.Laws.{at-in, at16-in, at16-partly, faults_after}
use demuxfs.Tables.Descriptors.{Call, called, descriptors_parse}
use demuxfs.Tables.Descriptors.Count.{descriptors_count-ends}
use demuxfs.Tables.Pmt.{
  PmtStream, StreamInfo, stream_at, stream_infos, streams_end, streams_from, streams_behind,
  pmt_streams,
}

-- The loop has not run out of rounds: it has faulted, or ended.
abbrev pub Halts {ℓ} : {A : Type ℓ} → Run (Parsed A) → Type ℓ
Halts run = run ≢ ok unfinished

module _ {ℓ κ} {A : Type ℓ} {B : Type κ} where
  bind-Halts : (run : Run A) (f : A → Run (Parsed B)) → ((a : A) → Halts (f a)) → Halts (run >>= f)
  bind-Halts fault f h = λ e. cc e
  bind-Halts (ok a) f h = h a

  then_parse-Halts :
      (run : Run (Parsed A)) (f : A → Run (Parsed B))
      → Halts run
      → ((a : A) → Halts (f a))
      → Halts (run >>= then_parse f)
  then_parse-Halts fault f r h = λ e. cc e
  then_parse-Halts (ok (parsed a)) f r h = h a
  then_parse-Halts (ok refused) f r h = λ e. cc e
  then_parse-Halts (ok unfinished) f r h = absurd (r refl)

infos-Halts :
    (payload : List ℕ) (rounds place n len : ℕ)
    → len < n + rounds
    → 1 ≤ rounds
    → Halts (stream_infos rounds payload place n len)
unfolding stream_infos descriptors_parse
infos-Halts payload zero place n len l r = absurd (omega arith)
infos-Halts payload (suc rounds) place n len l r = elim (Bool-cases (ltb n len)) [
  | inr e ↦ rw e (λ e'. cc e')
  | inl e ↦
      let inside : n < len = ground (arith, e) in
      rw e (
        bind-Halts (at payload (place + n)) _ (λ tag.
          bind-Halts (at payload (place + n + 2)) _ (λ component_tag.
            one (at payload (place + n)) (at payload (place + n + 1)) _ (λ t len'.
              then_parse-Halts _ _
                (infos-Halts payload rounds place (n + (2 + len' + 0)) len (omega arith)
                  (omega arith))
                (λ rest e'. cc e')))))
]
  where
    one :
        (r r' : Run ℕ) (f : ℕ × List Call → Run (Parsed (List StreamInfo × List Call)))
        → ((tag len' : ℕ) → Halts (f (2 + len' + 0, called tag (place + n) len' ++ [])))
        → Halts (
            (r >>= λ tag. r' >>= λ len'. ok (2 + len' + 0, called tag (place + n) len' ++ []))
            >>= f)
    one fault r' f h = λ e. cc e
    one (ok tag) fault f h = λ e. cc e
    one (ok tag) (ok len') f h = h tag len'

stream-in :
    (payload : List ℕ) (o : ℕ)
    → o + 4 < length payload
    → (s : PmtStream) × (stream_at payload o ≡ ok s) × (s.es_information_length < 4096)
unfolding stream_at
stream-in payload o h =
    rw
      (
        at-in payload o (omega arith),
        at-in payload (o + 1) (omega arith),
        at16-in payload (o + 1) (omega arith),
        at-in payload (o + 3) (omega arith),
        at16-in payload (o + 3) (omega arith),
      )
      (
        _,
        refl,
        omega (
          arith,
          bit_and_mask 12 (convert_to_16 (get_or payload (o + 3) 0) (get_or payload (o + 3 + 1) 0)),
        ),
      )

stream-out : (payload : List ℕ) (o : ℕ) → length payload ≤ o + 4 → stream_at payload o ≡ fault
unfolding stream_at
stream-out payload o h = faults_after (at payload o) _ (λ kind.
    faults_after (at payload (o + 1)) _ (λ b1. faults_after (at16 payload (o + 1)) _ (λ pid.
      faults_after (at payload (o + 3)) _
        (λ b3. rw (at16-partly payload (o + 3) (omega arith)) refl))))

-- Whatever a payload of less than 2 ^ 31 bytes says, and wherever the loop over its streams begins and should
-- end, as many rounds as the payload has bytes behind that place, and one more, are enough: the loop ends, or
-- reads behind the payload.
pub streams_from-Halts :
    (payload : List ℕ) (rounds o end_ : ℕ)
    → length payload < 2 ^ 31
    → length payload < o + rounds
    → 1 ≤ rounds
    → Halts (streams_from rounds payload o end_)
unfolding streams_from
streams_from-Halts payload zero o end_ short l r = absurd (omega arith)
streams_from-Halts payload (suc rounds) o end_ short l r = elim (Bool-cases (ltb o end_)) [
  | inr e ↦ rw e (λ e'. cc e')
  | inl e ↦ elim (Bool-cases (ltb (o + 4) (length payload))) [
    | inr out ↦ rw e (rw (stream-out payload o (ground (arith, out))) (λ e'. cc e'))
    | inl within ↦
        let inside : o + 4 < length payload = ground (arith, within) in
        let (s, s_eq, small) = stream-in payload o inside in
        let len = s.es_information_length in
        let same : (o + (5 + len)) % 2 ^ 32 ≡ o + (5 + len) = omega arith in
        rw e (
          rw s_eq (
            then_parse-Halts _ _
              (infos-Halts payload 4096 (o + 5) 0 len (omega arith) (omega arith))
              (λ infos. rw same (
                then_parse-Halts _ _
                  (streams_from-Halts payload rounds (o + (5 + len)) end_ short (omega arith)
                    (omega arith))
                  (λ rest e'. cc e')))))
  ]
]

behind-Halts :
    (payload : List ℕ) (section_length : ℕ) (o : Option ℕ)
    → length payload < 2 ^ 16
    → o ≢ none
    → Halts (streams_behind payload section_length o)
unfolding streams_behind
behind-Halts payload section_length none short h = absurd (h refl)
behind-Halts payload section_length (some n) short h =
    bind-Halts (descriptors_parse (n % 2 ^ 8) payload 12) _ (λ descriptors.
      then_parse-Halts _ _
        (streams_from-Halts payload (2 ^ 16) (12 + descriptors.0) (streams_end section_length)
          (omega arith) (omega arith) (omega arith))
        (λ streams e'. cc e'))

counted-Halts :
    (payload : List ℕ) (section_length : ℕ) (r : Run (Option ℕ))
    → length payload < 2 ^ 16
    → r ≢ ok none
    → Halts (r >>= streams_behind payload section_length)
counted-Halts payload section_length fault short h = λ e. cc e
counted-Halts payload section_length (ok o) short h =
    behind-Halts payload section_length o short (λ e. h (ap ok e))

-- In a payload of less than 2 ^ 16 bytes none of which is 0xfe, the search for the streams of a program ends,
-- or reads behind the payload, whatever section length is announced.
pub pmt_streams-Halts :
    (payload : List ℕ) (section_length : ℕ)
    → length payload < 2 ^ 16
    → All (λ b. b ≢ 0xfe) payload
    → Halts (pmt_streams payload section_length)
unfolding pmt_streams
pmt_streams-Halts payload section_length short h = bind-Halts (at16 payload 10) _ (λ v.
    counted-Halts payload section_length _ short (
      descriptors_count-ends payload 4097 12 (bit_and v 0x0fff) 0 h
        (omega (arith, bit_and_mask 12 v))))
