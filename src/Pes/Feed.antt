-- ===== src/Pes/Feed.antt =====
-- src/tables/pes.c, src/tables/pes.h: what of a payload goes into a FIFO.
-- `memory` is the bytes that can be read at the pointer, `payload_len` of which are the payload.
use demuxfs.Prelude.{
  ℕ, zero, suc, ◌+◌, ◌-◌, ◌≤◌, ◌<◌, ◌≡◌, refl, ap, ◌∙◌, Bool, true, false, not, Option, some, List,
  [], ◌∷◌, ◌++◌, length, length-append, drop, bit_and, ◌==◌, if◌then◌else◌, Run, ok, fault, ◌>>=◌,
  arith, Bool-cases, ◌⊎◌, inl, inr,
}
use demuxfs.Fifo.{Fifo, Written, Appended, fifo_is_open, fifo_append}

pub data EsStreamType : Type 0 where
  es_video_stream es_audio_stream es_other_stream : EsStreamType

-- `s[i] == v`, and what is asked if it holds.
abbrev is_at : List ℕ → ℕ → Run Bool → Run Bool
is_at [] v next = fault
is_at (x ∷ xs) v next = if x == v then next else ok false

-- The tests stop at the first byte that differs.
abbrev pub differs : List ℕ → ℕ → Run Bool
differs [] v = fault
differs (x ∷ xs) v = ok (not (x == v))

unfoldable pub is_nal_idc_reference : List ℕ → Run Bool
is_nal_idc_reference s =
    is_at s 0 (is_at (drop 1 s) 0 (is_at (drop 2 s) 0 (is_at (drop 3 s) 1 (differs (drop 4 s) 9))))

abbrev sync_byte_2 : List ℕ → Run Bool
sync_byte_2 [] = fault
sync_byte_2 (x ∷ xs) = ok (bit_and x 0xe0 == 0xe0)

unfoldable pub is_aac_latm_syncword : List ℕ → Run Bool
is_aac_latm_syncword s = is_at s 0x56 (sync_byte_2 (drop 1 s))

-- The loops that move `ptr` to the first place at which the test holds.
unfoldable pub seek : (List ℕ → Run Bool) → List ℕ → ℕ → Run (List ℕ × ℕ)
seek test memory zero = ok (memory, 0)
seek test memory (suc n) =
    let rest = seek test (drop 1 memory) n in
    test memory >>= λ holds. if holds then ok (memory, suc n) else rest

unfoldable pub skip_delta_frames : EsStreamType → List ℕ → ℕ → Run (List ℕ × ℕ)
skip_delta_frames es_video_stream memory n = seek is_nal_idc_reference memory n
skip_delta_frames es_audio_stream memory n = seek is_aac_latm_syncword memory n
skip_delta_frames es_other_stream memory n = ok (memory, n)

abbrev pub nothing_appended : Fifo → List Written → Appended
nothing_appended f answers = record { fifo = f; bytes = []; answers = answers }

-- An entry without a FIFO is left to the caller.
unfoldable pub pes_append_to_fifo :
    Option ℕ → List Written → Fifo → List ℕ → ℕ → EsStreamType → Run (Option Appended)
pes_append_to_fifo opened answers f memory payload_len kind =
    if payload_len == 0
    then ok (some (nothing_appended f answers))
    else (let (is_open, f') = fifo_is_open opened f in
        if is_open
        then (skip_delta_frames kind memory payload_len >>= λ r.
            if r.1 == 0
            then ok (some (nothing_appended f' answers))
            else fifo_append answers f' r.0 r.1)
        else ok (some (nothing_appended f' answers)))

-- Five bytes are enough for a test.
is_at-ok :
    (x : ℕ) (xs : List ℕ) (v : ℕ) (next : Run Bool)
    → ((b : Bool) × (next ≡ ok b))
    → (b : Bool) × (is_at (x ∷ xs) v next ≡ ok b)
is_at-ok x xs v next (b, e) = elim (Bool-cases (x == v)) [
  | inl t ↦ (b, rw t e)
  | inr f ↦ (false, rw f refl)
]

nal-ok : (s : List ℕ) → 5 ≤ length s → (b : Bool) × (is_nal_idc_reference s ≡ ok b)
unfolding is_nal_idc_reference
nal-ok (a ∷ b ∷ c ∷ d ∷ e ∷ s) h =
    is_at-ok a [] 0 _
      (is_at-ok b [] 0 _ (is_at-ok c [] 0 _ (is_at-ok d [] 1 _ (not (e == 9), refl))))
nal-ok [] h = absurd (omega arith)
nal-ok (a ∷ []) h = absurd (omega arith)
nal-ok (a ∷ b ∷ []) h = absurd (omega arith)
nal-ok (a ∷ b ∷ c ∷ []) h = absurd (omega arith)
nal-ok (a ∷ b ∷ c ∷ d ∷ []) h = absurd (omega arith)

-- The pointer has stopped behind `k` bytes: at the first place where the test holds, or at the end.
pub record StopsAt (test : List ℕ → Run Bool) (memory : List ℕ) (n k : ℕ) : Type 0 where
  pub within : k ≤ n
  pub before : (i : ℕ) → i < k → test (drop i memory) ≡ ok false
  pub there : (k ≡ n) ⊎ (test (drop k memory) ≡ ok true)

stop_here :
    (test : List ℕ → Run Bool) (memory : List ℕ) (n : ℕ)
    → test memory ≡ ok true
    → StopsAt test memory n 0
stop_here test memory n e = record {
  within = omega arith;
  before = λ i l. absurd (omega arith);
  there = inr e;
}

before_suc :
    (test : List ℕ → Run Bool) (x : ℕ) (memory : List ℕ) (k : ℕ)
    → test (x ∷ memory) ≡ ok false
    → ((i : ℕ) → i < k → test (drop i memory) ≡ ok false)
    → (i : ℕ) → i < suc k
    → test (drop i (x ∷ memory)) ≡ ok false
before_suc test x memory k e h zero l = e
before_suc test x memory k e h (suc i) l = h i (omega arith)

stop_later :
    (test : List ℕ → Run Bool) (x : ℕ) (memory : List ℕ) (n k : ℕ)
    → test (x ∷ memory) ≡ ok false
    → StopsAt test memory n k
    → StopsAt test (x ∷ memory) (suc n) (suc k)
stop_later test x memory n k e s = record {
  within = omega (arith, s.within);
  before = before_suc test x memory k e s.before;
  there = elim s.there [ inl end ↦ inl (ap suc end) | inr found ↦ inr found ];
}

abbrev IsTotal : (List ℕ → Run Bool) → Type 0
IsTotal test = (s : List ℕ) → 5 ≤ length s → (b : Bool) × (test s ≡ ok b)

seek_lem :
    (test : List ℕ → Run Bool) (n : ℕ) (memory : List ℕ)
    → IsTotal test
    → n + 4 ≤ length memory
    → (k : ℕ) × StopsAt test memory n k × (seek test memory n ≡ ok (drop k memory, n - k))
unfolding seek
seek_lem test zero memory total h = (
  0,
  record { within = omega arith; before = λ i l. absurd (omega arith); there = inl refl },
  refl,
)
seek_lem test (suc n) [] total h = absurd (omega arith)
seek_lem test (suc n) (x ∷ memory) total h =
    let (b, e) = total (x ∷ memory) (omega arith) in
    elim (Bool-cases b) [
      | inl t ↦ (
        0,
        stop_here test (x ∷ memory) (suc n) (e ∙ ap ok t),
        rw (e, t) (ap (λ m. ok (x ∷ memory, m)) (omega arith)),
      )
      | inr f ↦
          let (k, stops, rest) = seek_lem test n memory total (omega arith) in
          (
            suc k,
            stop_later test x memory n k (e ∙ ap ok f) stops,
            rw (e, f) (rest ∙ ap (λ m. ok (drop k memory, m)) (omega arith)),
          )
    ]

-- The first packet of a picture, with four bytes or more behind it that can be read: of its bytes, those in front
-- of the first reference are left out, and the others are handed to the FIFO; where there is no reference, none
-- are.
pub pes_append_to_fifo-video :
    (opened : Option ℕ) (answers : List Written) (f f' : Fifo) (payload behind : List ℕ)
    → fifo_is_open opened f ≡ (true, f')
    → 1 ≤ length payload
    → 4 ≤ length behind
    → (k : ℕ) × StopsAt is_nal_idc_reference (payload ++ behind) (length payload) k
      × (pes_append_to_fifo opened answers f (payload ++ behind) (length payload) es_video_stream
          ≡ (if length payload - k == 0
              then ok (some (nothing_appended f' answers))
              else fifo_append answers f' (drop k (payload ++ behind)) (length payload - k)))
unfolding pes_append_to_fifo skip_delta_frames
pes_append_to_fifo-video opened answers f f' payload behind o h b =
    let room : length payload + 4 ≤ length (payload ++ behind) =
      omega (arith, length-append payload behind) in
    let (k, stops, e) =
      seek_lem is_nal_idc_reference (length payload) (payload ++ behind) nal-ok room in
    let some_bytes : (length payload == 0) ≡ false = ground arith in
    (k, stops, rw (some_bytes, o, e) refl)
