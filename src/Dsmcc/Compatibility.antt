-- ===== src/Dsmcc/Compatibility.antt =====
-- src/dsm-cc/dsmcc.c, src/dsm-cc/dsmcc.h: the compatibility descriptors of a DII.
-- The structures are allocated with calloc: what is not reached is zero, or NULL.
pub mod Encode
use demuxfs.Prelude.{
  ℕ, zero, suc, ◌+◌, ℤ, pos, negsuc, Bool, true, false, List, [], ◌∷◌, ltb, if◌then◌else◌, Run, ok,
  ◌>>=◌, replicate,
}
use demuxfs.Cursor.{Cursor, cursor, Parse, ◌>>-◌, give, u8, u16, bytes}

pub record SubDescriptor : Type 0 where
  pub sub_descriptor_type : ℕ
  pub sub_descriptor_length : ℕ
  pub additional_information : List ℕ

pub record DescriptorEntry : Type 0 where
  pub descriptor_type : ℕ
  pub descriptor_length : ℕ
  pub specifier_type : ℕ
  pub specifier_data : List ℕ
  pub model : ℕ
  pub version : ℕ
  pub sub_descriptor_count : ℕ
  pub sub_descriptors : List SubDescriptor

pub record CompatibilityDescriptor : Type 0 where
  pub compatibility_descriptor_length : ℕ
  pub descriptor_count : ℕ
  pub descriptors : List DescriptorEntry

abbrev pub sub_with : ℕ → ℕ → List ℕ → SubDescriptor
sub_with kind len info = record {
  sub_descriptor_type = kind;
  sub_descriptor_length = len;
  additional_information = info;
}

-- An entry of which only the first two bytes have been read.
abbrev pub entry_with : ℕ → ℕ → DescriptorEntry
entry_with kind len = record {
  descriptor_type = kind;
  descriptor_length = len;
  specifier_type = 0;
  specifier_data = 0 ∷ 0 ∷ 0 ∷ [];
  model = 0;
  version = 0;
  sub_descriptor_count = 0;
  sub_descriptors = [];
}

-- `n > payload_len`, for an int.
abbrev pub exceeds : ℕ → ℤ → Bool
exceeds n (pos payload_len) = ltb payload_len n
exceeds n (negsuc m) = true

-- The loops give what they have read, and whether they have come to their end: where they have not, the
-- function returns.
unfoldable pub parse_sub_descriptors : ℕ → ℤ → Parse (List SubDescriptor × Bool)
parse_sub_descriptors zero payload_len = give ([], true)
parse_sub_descriptors (suc n) payload_len = u8 >>- λ kind. u8 >>- λ len.
    if exceeds len payload_len
    then give (sub_with kind len [] ∷ replicate n (sub_with 0 0 []), false)
    else (bytes len >>- λ info. parse_sub_descriptors n payload_len >>- λ rest.
        give (sub_with kind len info ∷ rest.0, rest.1))

-- The rest of an entry.
unfoldable pub parse_entry : ℕ → ℕ → ℤ → Parse (DescriptorEntry × Bool)
parse_entry kind len payload_len = u8 >>- λ specifier_type. bytes 3 >>- λ specifier_data.
    u16 >>- λ model. u16 >>- λ version. u8 >>- λ count.
    parse_sub_descriptors count payload_len >>- λ subs. give (
      record {
        descriptor_type = kind;
        descriptor_length = len;
        specifier_type = specifier_type;
        specifier_data = specifier_data;
        model = model;
        version = version;
        sub_descriptor_count = count;
        sub_descriptors = subs.0;
      },
      subs.1,
    )

-- After an entry, unless it has made the function return.
abbrev pub go_on_if :
    Bool → ℕ → Parse (List DescriptorEntry × Bool) → Parse (List DescriptorEntry × Bool)
go_on_if true n rest = rest
go_on_if false n rest = give (replicate n (entry_with 0 0), false)

-- The function's `i`, which the cursor keeps as its `j`.
abbrev pub place : Parse ℕ
place c = ok (c.j, c)

-- The loop over the entries. `i + 2 + descriptor_length` is compared with
-- `compatibility_descriptor_length - 2`.
unfoldable pub parse_entries : ℕ → ℕ → ℤ → Parse (List DescriptorEntry × Bool)
parse_entries zero total payload_len = give ([], true)
parse_entries (suc n) total payload_len = place >>- λ i. u8 >>- λ kind. u8 >>- λ len.
    if ltb total (i + 2 + len + 2)
    then give (entry_with kind len ∷ replicate n (entry_with 0 0), false)
    else (parse_entry kind len payload_len >>- λ entry.
        go_on_if entry.1 n (parse_entries n total payload_len) >>- λ others.
        give (entry.0 ∷ others.0, others.1))

-- What the function returns: the place that it has reached, or the one that the length announces.
abbrev pub returned : Bool → ℕ → ℕ → ℕ
returned true j total = j
returned false j total = 2 + total

unfoldable pub dsmcc_parse_compatibility_descriptors :
    ℤ → List ℕ → Run (CompatibilityDescriptor × ℕ)
dsmcc_parse_compatibility_descriptors payload_len payload = u16 (cursor payload 0) >>= λ total.
    if ltb total.0 2
    then ok (
      record { compatibility_descriptor_length = total.0; descriptor_count = 0; descriptors = [] },
      2 + total.0,
    )
    else (u16 total.1 >>= λ count. parse_entries count.0 total.0 payload_len count.1 >>= λ entries.
        ok (
          record {
            compatibility_descriptor_length = total.0;
            descriptor_count = count.0;
            descriptors = entries.0.0;
          },
          returned entries.0.1 entries.1.j total.0,
        ))
