-- ===== src/Iop.antt =====
-- src/dsm-cc/iop.c: interoperable object references, which carry the location of an object.
-- The parsers of the other profiles are not written in the program; it passes over their bytes. The
-- ConnBinder profile is only parsed into a profile body that is there before, which is never so.
pub mod Encode
use demuxfs.Prelude.{
  ℕ, ◌+◌, ◌-◌, ◌%◌, ◌^◌, Option, none, some, List, [], ◌==◌, ltb, if◌then◌else◌, Run, ok, fault,
  ◌>>=◌,
}
use demuxfs.Cursor.{Cursor, Parse, ◌>>-◌, give, skip, u32, bytes, repeat, as_int}
use demuxfs.Biop.{ProfileBody}
use demuxfs.Biop.Profile.{biop_parse_profile_body}

pub record IopTaggedProfile : Type 0 where
  pub profile_body : Option ProfileBody

pub record IopIor : Type 0 where
  pub type_id_length : ℕ
  pub type_id : List ℕ
  pub alignment_gap : List ℕ
  pub tagged_profiles_count : ℕ
  pub tagged_profiles : List IopTaggedProfile

-- The BIOP profile.
abbrev pub biop_profile_tag : ℕ
biop_profile_tag = 0x49534f06

-- `j += n` for a 32-bit number. From 2 ^ 31 on the int `j` falls, to memory in front of what the
-- parser was given: a fault.
unfoldable pub move : ℕ → Parse (Unit {0})
move n c = if ltb (n % 2 ^ 32) (2 ^ 31) then skip (n % 2 ^ 32) c else fault

-- The `switch` on the tag of a profile.
unfoldable pub profile_of : ℕ → Cursor → Run (Option ProfileBody)
profile_of id_tag c =
    if id_tag == biop_profile_tag
    then (biop_parse_profile_body c >>= λ r. ok (some r.0))
    else ok none

-- One round of the loop. The next profile begins behind the data length that this one announces,
-- wherever its parser came to.
unfoldable pub iop_parse_tagged_profile : Parse IopTaggedProfile
iop_parse_tagged_profile c = u32 c >>= λ id_tag. u32 id_tag.1 >>= λ data_length.
    profile_of id_tag.0 c >>= λ body.
    move (8 + data_length.0) c >>= λ c'. ok (record { profile_body = body }, c'.1)

unfoldable pub iop_parse_tagged_profiles : ℕ → Parse (List IopTaggedProfile)
iop_parse_tagged_profiles count = repeat count iop_parse_tagged_profile

-- The bytes that fill the type id up to a multiple of four.
unfoldable pub gap_of : ℕ → Parse (List ℕ)
gap_of n = if n % 4 == 0 then give [] else bytes (4 - n % 4)

unfoldable pub iop_parse_ior : Parse IopIor
iop_parse_ior = as_int (
    u32 >>- λ type_id_length. bytes type_id_length >>- λ type_id.
    gap_of type_id_length >>- λ alignment_gap. u32 >>- λ count.
    iop_parse_tagged_profiles count >>- λ profiles. give record {
      type_id_length = type_id_length;
      type_id = type_id;
      alignment_gap = alignment_gap;
      tagged_profiles_count = count;
      tagged_profiles = profiles;
    })
