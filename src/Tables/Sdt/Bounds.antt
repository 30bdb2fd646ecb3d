-- ===== src/Tables/Sdt/Bounds.antt =====
-- src/tables/sdt.c: the loops over the services stay inside the payload, and end.
use demuxfs.Prelude.{
  ℕ, zero, suc, ◌+◌, ◌-◌, ◌≤◌, ◌<◌, ◌≡◌, refl, List, [], length, get_or, ltb, Run, ok, ◌>>=◌, arith,
  Bool-cases, inl, inr, bit_and, Returns,
}
use demuxfs.Prelude.Bits.{bit_and_mask}
use demuxfs.Byteops.{convert_to_16}
use demuxfs.Tables.{at16, Parsed, parsed, refused, then_parse}
use demuxfs.Tables.Laws.{at-in, at16-in}
use demuxfs.Tables.Descriptors.{descriptors_parse}
use demuxfs.Tables.Sdt.{
  count_services, service_at, service_descriptors, parse_services, sdt_services,
}

-- A loop that has ended.
pub data Ended {ℓ} {A : Type ℓ} : Parsed A → Type ℓ where
  with_result : (a : A) → Ended (parsed a)
  with_error : Ended refused

-- A run without a fault that has ended.
abbrev pub Ends {ℓ} : {A : Type ℓ} → Run (Parsed A) → Type ℓ
Ends run = Returns run Ended

then_parse-Ends {ℓ κ} :
    {A : Type ℓ} {B : Type κ} (run : Run (Parsed A)) (f : A → Run (Parsed B))
    → Ends run
    → ((a : A) → run ≡ ok (parsed a) → Ends (f a))
    → Ends (run >>= then_parse f)
then_parse-Ends run f (_, e, with_result a) k = rw e (k a e)
then_parse-Ends run f (_, e, with_error) k = rw e (refused, refl, with_error)

parse_one :
    (payload : List ℕ) (i : ℕ)
    → i + 1 < length payload
    → Returns (descriptors_parse 1 payload i) (λ r. Unit {0})
unfolding descriptors_parse
parse_one payload i h = rw (at-in payload i (omega arith), at-in payload (i + 1) h) (_, refl, tt)

descriptors-Ends :
    (payload : List ℕ) (rounds place n len : ℕ)
    → place + len + 1 ≤ length payload
    → len < n + rounds
    → 1 ≤ rounds
    → Ends (service_descriptors rounds payload place n len)
unfolding service_descriptors
descriptors-Ends payload zero place n len h l r = absurd (omega arith)
descriptors-Ends payload (suc rounds) place n len h l r = elim (Bool-cases (ltb n len)) [
  | inr e ↦ rw e (parsed [], refl, with_result [])
  | inl e ↦
      let inside : n < len = ground (arith, e) in
      let (one, one_eq, _) = parse_one payload (place + n) (omega arith) in
      rw e (
        rw (at-in payload (place + n + 1) (omega arith)) (
          rw one_eq (
            then_parse-Ends _ _
              (descriptors-Ends payload rounds place (n + (2 + get_or payload (place + n + 1) 0))
                len h (omega arith) (omega arith))
              (λ rest _. (parsed _, refl, with_result _)))))
]

-- So many services stand one behind the other in front of the last four bytes.
abbrev Fit : List ℕ → ℕ → ℕ → Type 0
Fit payload i zero = Unit {0}
Fit payload i (suc n) =
    (loop_length : ℕ) × (at16 payload (i + 3) ≡ ok loop_length)
    × (i + (5 + bit_and loop_length 0x0fff) + 4 ≤ length payload)
    × Fit payload (i + (5 + bit_and loop_length 0x0fff)) n

-- What the first loop has counted from `n` on fits.
data Counted (payload : List ℕ) (i n : ℕ) : Parsed ℕ → Type 0 where
  fits : (k m : ℕ) → m ≡ n + k → Fit payload i k → Counted payload i n (parsed m)
  too_long : Counted payload i n refused

one_more :
    (payload : List ℕ) (i n loop_length : ℕ) (r : Parsed ℕ)
    → at16 payload (i + 3) ≡ ok loop_length
    → i + (5 + bit_and loop_length 0x0fff) + 4 ≤ length payload
    → Counted payload (i + (5 + bit_and loop_length 0x0fff)) (n + 1) r
    → Counted payload i n r
one_more payload i n loop_length _ e h (fits k m s f) =
    fits (suc k) m (omega arith) (loop_length, e, h, f)
one_more payload i n loop_length _ e h too_long = too_long

count-Counted :
    (payload : List ℕ) (rounds i n : ℕ)
    → 8 ≤ length payload
    → length payload < i + rounds
    → 1 ≤ rounds
    → Returns (count_services rounds payload i n) (Counted payload i n)
unfolding count_services
count-Counted payload zero i n long h r = absurd (omega arith)
count-Counted payload (suc rounds) i n long h r = elim (Bool-cases (ltb i (length payload - 4))) [
  | inr e ↦ rw e (parsed n, refl, fits 0 n (omega arith) tt)
  | inl e ↦
      let inside : i + 4 < length payload = ground (arith, e) in
      let found = at16-in payload (i + 3) (omega arith) in
      let size =
        bit_and (convert_to_16 (get_or payload (i + 3) 0) (get_or payload (i + 3 + 1) 0)) 0x0fff in
      elim (Bool-cases (ltb (length payload - 4) (i + (5 + size)))) [
        | inl e' ↦ rw (e, found) (rw e' (refused, refl, too_long))
        | inr e' ↦
            let fit : i + (5 + size) + 4 ≤ length payload = ground (arith, e', long) in
            let (m, m_eq, c) =
              count-Counted payload rounds (i + (5 + size)) (n + 1) long (omega arith)
                (omega arith) in
            rw (e, found) (rw e' (rw m_eq (m, refl, one_more payload i n _ m found fit c)))
      ]
]

parse-Ends : (payload : List ℕ) (n i : ℕ) → Fit payload i n → Ends (parse_services n payload i)
unfolding parse_services service_at
parse-Ends payload zero i f = (parsed [], refl, with_result [])
parse-Ends payload (suc n) i (loop_length, e, h, f) =
    let size : bit_and loop_length 0x0fff < 4096 = omega (arith, bit_and_mask 12 loop_length) in
    rw
      (
        at16-in payload i (omega arith),
        at-in payload (i + 2) (omega arith),
        at-in payload (i + 3) (omega arith),
      )
      (rw e (
        then_parse-Ends _ _
          (descriptors-Ends payload 4096 (i + 5) 0 (bit_and loop_length 0x0fff) (omega arith)
            (omega arith) (omega arith))
          (λ calls _.
            then_parse-Ends _ _ (parse-Ends payload n (i + (5 + bit_and loop_length 0x0fff)) f)
              (λ rest _. (parsed _, refl, with_result _)))))

-- Whatever a payload of eleven bytes or more says, the loops over its services read none but its bytes,
-- and they end, with the services or with an error.
pub sdt_services-Ends : (payload : List ℕ) → 11 ≤ length payload → Ends (sdt_services payload)
unfolding sdt_services
sdt_services-Ends payload h =
    let (m, m_eq, c) =
      count-Counted payload (length payload + 1) 11 0 (omega arith) (omega arith) (omega arith) in
    rw m_eq (go_on m c)
  where
    go_on :
        (m : Parsed ℕ)
        → Counted payload 11 0 m
        → Ends (then_parse (λ n. parse_services n payload 11) m)
    go_on _ (fits k n e f) = let same : n ≡ k = omega arith in rw same (parse-Ends payload k 11 f)
    go_on _ too_long = (refused, refl, with_error)
