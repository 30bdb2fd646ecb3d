-- ===== src/Iop/Encode.antt =====
-- src/dsm-cc/iop.c: object references are read back.
use demuxfs.Prelude.{
  ℕ, ◌+◌, ◌-◌, ◌%◌, ◌^◌, ◌<◌, ◌≡◌, refl, ap, Bool, true, false, Option, none, some, List, [], ◌∷◌,
  ◌++◌, length, ok, arith, All, ◌==◌, ltb, if◌then◌else◌,
}
use demuxfs.Cursor.{cursor, give, bytes}
use demuxfs.Cursor.Laws.{
  as_int_lem, be32, u32-be32, bytes_lem, write_all, size_all, ReadsBack, repeat-write_all, and_then,
}
use demuxfs.Cursor.Forward.{left_over}
use demuxfs.Biop.{ProfileBody}
use demuxfs.Biop.Profile.{biop_parse_profile_body}
use demuxfs.Biop.Forward.{biop_parse_profile_body-Forward}
use demuxfs.Biop.Encode.Profiles.{
  IsProfileBody, write_profile_body, size_profile_body, biop_parse_profile_body-write,
}
use demuxfs.Iop.{
  IopTaggedProfile, IopIor, biop_profile_tag, move, profile_of, iop_parse_tagged_profile,
  iop_parse_tagged_profiles, gap_of, iop_parse_ior,
}

-- The bytes of a tagged profile behind the lengths: its body, as the announced length counts it.
pub data IsTaggedProfile : IopTaggedProfile → Type 0 where
  body :
      (b : ProfileBody)
      → b.profile_id_tag ≡ biop_profile_tag
      → b.profile_data_length + 8 ≡ size_profile_body b
      → size_profile_body b < 2 ^ 31
      → IsProfileBody b
      → IsTaggedProfile record { profile_body = some b }

abbrev pub write_body : Option ProfileBody → List ℕ → List ℕ
write_body none s = s
write_body (some b) s = write_profile_body b s

abbrev pub size_body : Option ProfileBody → ℕ
size_body none = 0
size_body (some b) = size_profile_body b

abbrev pub write_tagged_profile : IopTaggedProfile → List ℕ → List ℕ
write_tagged_profile t s = write_body t.profile_body s

abbrev pub size_tagged_profile : IopTaggedProfile → ℕ
size_tagged_profile t = size_body t.profile_body

-- Behind the length that it announces, a profile body has been left.
moved :
    (b : ProfileBody) (s : List ℕ) (j : ℕ)
    → b.profile_data_length + 8 ≡ size_profile_body b
    → size_profile_body b < 2 ^ 31
    → IsProfileBody b
    → move (8 + b.profile_data_length) (cursor (write_profile_body b s) j)
      ≡ ok (tt, cursor s (j + size_profile_body b))
unfolding move
moved b s j n h v =
    let e : 8 + b.profile_data_length ≡ size_profile_body b = omega arith in
    let small : size_profile_body b % 2 ^ 32 ≡ size_profile_body b = omega arith in
    let test : ltb (size_profile_body b) (2 ^ 31) ≡ true = ground arith in
    let rest =
      left_over biop_parse_profile_body b (write_profile_body b s) s j (size_profile_body b)
        biop_parse_profile_body-Forward (biop_parse_profile_body-write b s j v) in
    rw e (rw small (rw test (ap (λ l. ok (tt, cursor l (j + size_profile_body b))) rest)))

iop_parse_tagged_profile-write :
    ReadsBack IsTaggedProfile iop_parse_tagged_profile write_tagged_profile size_tagged_profile
unfolding iop_parse_tagged_profile profile_of
iop_parse_tagged_profile-write _ s j (body b e n h v) =
    let test : (b.profile_id_tag == biop_profile_tag) ≡ true = ground arith in
    and_then _ _ (u32-be32 b.profile_id_tag _ j v.tag) (
      and_then _ _ (u32-be32 b.profile_data_length _ _ v.data_length) (
        rw test (
          and_then _ _ (and_then _ _ (biop_parse_profile_body-write b s j v) refl)
            (and_then _ _ (moved b s j n h v) refl))))

-- The filling of the type id, of as many bytes as it takes to a multiple of four.
abbrev pub gap_length : ℕ → ℕ
gap_length n = if n % 4 == 0 then 0 else 4 - n % 4

gap_step :
    (aligned : Bool) (n : ℕ) (gap s : List ℕ) (j : ℕ)
    → length gap ≡ (if aligned then 0 else n)
    → (if aligned then give [] else bytes n) (cursor (gap ++ s) j)
      ≡ ok (gap, cursor s (j + (if aligned then 0 else n)))
gap_step true n [] s j e = ap (λ k. ok ([], cursor s k)) (omega arith)
gap_step true n (x ∷ gap) s j e = absurd (omega arith)
gap_step false n gap s j e = bytes_lem n gap s j e

gap_of-write :
    (n : ℕ) (gap s : List ℕ) (j : ℕ)
    → length gap ≡ gap_length n
    → gap_of n (cursor (gap ++ s) j) ≡ ok (gap, cursor s (j + gap_length n))
unfolding gap_of
gap_of-write n gap s j e = gap_step (n % 4 == 0) (4 - n % 4) gap s j e

abbrev pub size_ior : IopIor → ℕ
size_ior r =
    8
    + r.type_id_length
    + gap_length r.type_id_length
    + size_all size_tagged_profile r.tagged_profiles

pub record IsIor (r : IopIor) : Type 0 where
  pub type_id_length : r.type_id_length < 2 ^ 32
  pub type_id : length r.type_id ≡ r.type_id_length
  pub gap : length r.alignment_gap ≡ gap_length r.type_id_length
  pub tagged_profiles_count : r.tagged_profiles_count < 2 ^ 32
  pub count : length r.tagged_profiles ≡ r.tagged_profiles_count
  pub profiles : All IsTaggedProfile r.tagged_profiles
  pub small : size_ior r < 2 ^ 31

abbrev pub write_ior : IopIor → List ℕ → List ℕ
write_ior r s =
    be32 r.type_id_length
    ++ (r.type_id
        ++ (r.alignment_gap
            ++ (be32 r.tagged_profiles_count
                ++ write_all write_tagged_profile r.tagged_profiles s)))

-- Parsing an object reference of less than 2 ^ 31 bytes gives it back, whatever the length of its type id and
-- however many profiles follow, each a profile body as long as it announces; and leaves what follows it.
pub iop_parse_ior-write :
    (r : IopIor) (s : List ℕ) (j : ℕ)
    → IsIor r
    → iop_parse_ior (cursor (write_ior r s) j) ≡ ok (r, cursor s (j + size_ior r))
unfolding iop_parse_ior iop_parse_tagged_profiles
iop_parse_ior-write r s j v =
    as_int_lem _ r (write_ior r s) s j (size_ior r)
      (and_then _ _ (u32-be32 r.type_id_length _ j v.type_id_length) (
        and_then _ _ (bytes_lem r.type_id_length r.type_id _ _ v.type_id) (
          and_then _ _ (gap_of-write r.type_id_length r.alignment_gap _ _ v.gap) (
            and_then _ _ (u32-be32 r.tagged_profiles_count _ _ v.tagged_profiles_count) (
              and_then _ _
                (repeat-write_all IsTaggedProfile iop_parse_tagged_profile write_tagged_profile
                  size_tagged_profile iop_parse_tagged_profile-write r.tagged_profiles_count
                  r.tagged_profiles s _ v.count v.profiles)
                (ap (λ k. ok (r, cursor s k)) (omega arith)))))))
      v.small
