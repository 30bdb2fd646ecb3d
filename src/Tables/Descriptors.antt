-- ===== src/Tables/Descriptors.antt =====
-- src/tables/descriptors/descriptors.c: the loops over the descriptors of a table. What the parsers of
-- the descriptors do is left to the caller: the calls that are made of them are listed in their order.
pub mod Laws
pub mod Count
use demuxfs.Prelude.{
  ℕ, zero, suc, ◌+◌, ◌-◌, Bool, true, false, Option, none, some, List, [], ◌∷◌, ◌++◌, ◌==◌, ltb,
  if◌then◌else◌, Run, ok, ◌>>=◌,
}
use demuxfs.Tables.{at}

-- The tags for which descriptors_init registers a parser.
abbrev pub registered : List ℕ
registered =
    0x02 ∷ 0x03 ∷ 0x04 ∷ 0x05 ∷ 0x06 ∷ 0x07 ∷ 0x08 ∷ 0x09 ∷ 0x0a ∷ 0x0b ∷ 0x0c ∷ 0x0d ∷ 0x0e ∷ 0x0f
    ∷ 0x10 ∷ 0x11 ∷ 0x12 ∷ 0x13 ∷ 0x14 ∷ 0x15 ∷ 0x1b ∷ 0x1c ∷ 0x1d ∷ 0x1e ∷ 0x1f ∷ 0x20 ∷ 0x21
    ∷ 0x22 ∷ 0x23 ∷ 0x24 ∷ 0x25 ∷ 0x26 ∷ 0x27 ∷ 0x28 ∷ 0x2a ∷ 0x2b ∷ 0x2c ∷ 0x40 ∷ 0x41 ∷ 0x42
    ∷ 0x43 ∷ 0x47 ∷ 0x48 ∷ 0x49 ∷ 0x4a ∷ 0x4b ∷ 0x4c ∷ 0x4d ∷ 0x4e ∷ 0x4f ∷ 0x50 ∷ 0x51 ∷ 0x52
    ∷ 0x53 ∷ 0x54 ∷ 0x55 ∷ 0x58 ∷ 0x63 ∷ 0x7c ∷ 0xa0 ∷ 0xc0 ∷ 0xc1 ∷ 0xc2 ∷ 0xc3 ∷ 0xc4 ∷ 0xc5
    ∷ 0xc6 ∷ 0xc7 ∷ 0xc8 ∷ 0xc9 ∷ 0xca ∷ 0xcb ∷ 0xcc ∷ 0xcd ∷ 0xce ∷ 0xcf ∷ 0xd0 ∷ 0xd1 ∷ 0xd2
    ∷ 0xd3 ∷ 0xd4 ∷ 0xd5 ∷ 0xd6 ∷ 0xd7 ∷ 0xd8 ∷ 0xd9 ∷ 0xda ∷ 0xdb ∷ 0xdc ∷ 0xdd ∷ 0xde ∷ 0xe0
    ∷ 0xf7 ∷ 0xf8 ∷ 0xfa ∷ 0xfb ∷ 0xfc ∷ 0xfd ∷ 0xfe ∷ 0xff ∷ []

abbrev pub holds : List ℕ → ℕ → Bool
holds [] tag = false
holds (t ∷ ts) tag = if t == tag then true else holds ts tag

unfoldable pub descriptors_find : ℕ → Bool
descriptors_find tag = holds registered tag

-- A call of the parser of a tag, with the place of the descriptor and the length that it announces.
pub record Call : Type 0 where
  pub tag : ℕ
  pub place : ℕ
  pub len : ℕ

abbrev pub called : ℕ → ℕ → ℕ → List Call
called tag i len =
    if descriptors_find tag then record { tag = tag; place = i; len = len } ∷ [] else []

-- The loop over `n` descriptors from `i` on: the number of bytes that they take, and the calls.
unfoldable pub descriptors_parse : ℕ → List ℕ → ℕ → Run (ℕ × List Call)
descriptors_parse zero payload i = ok (0, [])
descriptors_parse (suc n) payload i = at payload i >>= λ tag. at payload (i + 1) >>= λ len.
    descriptors_parse n payload (i + (2 + len)) >>= λ rest.
    ok (2 + len + rest.0, called tag i len ++ rest.1)

-- `p[1] + 2`, where `p[1]` is a signed char; `none` for a negative count.
unfoldable pub next_count : ℕ → Option ℕ
next_count b = if ltb b 128 then some (b + 2) else if ltb b 254 then none else some (b - 254)

-- What a negative count does, and what another one does.
abbrev pub advance : (ℕ → Run (Option ℕ)) → Option ℕ → Run (Option ℕ)
advance again none = ok (some 0)
advance again (some count) = again count

-- The loop of descriptors_count from `i` on, with `len` bytes left and `num` descriptors counted; a
-- length that is below 0 ends it as 0 does. `none` when as many as `rounds` rounds are used up.
unfoldable pub descriptors_count : ℕ → List ℕ → ℕ → ℕ → ℕ → Run (Option ℕ)
descriptors_count zero payload i len num = ok none
descriptors_count (suc rounds) payload i len num =
    if len == 0
    then ok (some num)
    else if ltb len 2
    then ok (some 0)
    else (at payload (i + 1) >>= λ b.
        advance (λ count. descriptors_count rounds payload (i + count) (len - count) (num + 1))
          (next_count b))

-- The test that the parsers of descriptors begin with.
unfoldable pub descriptor_is_parseable : ℕ → ℕ → Bool
descriptor_is_parseable expected found = if ltb found (expected - 2) then false else true
