-- ===== src/Dsmcc/Compatibility/Encode.antt =====
-- src/dsm-cc/dsmcc.c: what becomes of compatibility descriptors that are written as the standard says.
use demuxfs.Prelude.{
  ℕ, zero, suc, ◌+◌, ◌^◌, ◌≤◌, ◌<◌, ◌≡◌, refl, pos, true, false, List, [], ◌∷◌, ◌++◌, length, ltb,
  ok, arith, All,
}
use demuxfs.Cursor.{Cursor, cursor}
use demuxfs.Cursor.Laws.{
  be16, u8_lem, u16-be16, bytes_lem, and_then, same_place, write_all, size_all,
}
use demuxfs.Dsmcc.Compatibility.{
  SubDescriptor, DescriptorEntry, entry_with, parse_sub_descriptors, parse_entry, parse_entries,
  dsmcc_parse_compatibility_descriptors,
}

-- Additional information of as many bytes as announced, no more than the payload has.
pub record IsSubDescriptor (payload_len : ℕ) (d : SubDescriptor) : Type 0 where
  pub fits : d.sub_descriptor_length ≤ payload_len
  pub filled : length d.additional_information ≡ d.sub_descriptor_length

abbrev pub write_sub_descriptor : SubDescriptor → List ℕ → List ℕ
write_sub_descriptor d s =
    d.sub_descriptor_type ∷ d.sub_descriptor_length ∷ (d.additional_information ++ s)

abbrev pub size_sub_descriptor : SubDescriptor → ℕ
size_sub_descriptor d = 2 + d.sub_descriptor_length

sub_descriptors-write :
    (payload_len n : ℕ) (ds : List SubDescriptor) (s : List ℕ) (j : ℕ)
    → length ds ≡ n
    → All (IsSubDescriptor payload_len) ds
    → parse_sub_descriptors n (pos payload_len) (cursor (write_all write_sub_descriptor ds s) j)
      ≡ ok ((ds, true), cursor s (j + size_all size_sub_descriptor ds))
unfolding parse_sub_descriptors write_all size_all
sub_descriptors-write payload_len zero [] s j e v = same_place ([], true) s (omega arith)
sub_descriptors-write payload_len (suc n) [] s j e v = absurd (omega arith)
sub_descriptors-write payload_len zero (d ∷ ds) s j e v = absurd (omega arith)
sub_descriptors-write payload_len (suc n) (d ∷ ds) s j e (v, vs) =
    let fits : ltb payload_len d.sub_descriptor_length ≡ false = ground (arith, v.fits) in
    and_then _ _ (u8_lem _ _ _) (
      and_then _ _ (u8_lem _ _ _) (
        rw fits (
          and_then _ _ (bytes_lem d.sub_descriptor_length d.additional_information _ _ v.filled) (
            and_then _ _ (sub_descriptors-write payload_len n ds s _ (omega arith) vs)
              (same_place (d ∷ ds, true) s (omega arith))))))

pub record IsEntry (payload_len : ℕ) (d : DescriptorEntry) : Type 0 where
  pub specifier_data : length d.specifier_data ≡ 3
  pub model : d.model < 2 ^ 16
  pub version : d.version < 2 ^ 16
  pub count : length d.sub_descriptors ≡ d.sub_descriptor_count
  pub sub_descriptors : All (IsSubDescriptor payload_len) d.sub_descriptors
  pub descriptor_length : d.descriptor_length ≡ 9 + size_all size_sub_descriptor d.sub_descriptors

abbrev write_rest : DescriptorEntry → List ℕ → List ℕ
write_rest d s =
    d.specifier_type
    ∷ (d.specifier_data
        ++ (be16 d.model
            ++ (be16 d.version
                ++ (d.sub_descriptor_count ∷ write_all write_sub_descriptor d.sub_descriptors s))))

abbrev pub write_entry : DescriptorEntry → List ℕ → List ℕ
write_entry d s = d.descriptor_type ∷ d.descriptor_length ∷ write_rest d s

abbrev pub size_entry : DescriptorEntry → ℕ
size_entry d = 2 + d.descriptor_length

entry-write :
    (payload_len : ℕ) (d : DescriptorEntry) (s : List ℕ) (j : ℕ)
    → IsEntry payload_len d
    → parse_entry d.descriptor_type d.descriptor_length
        (pos payload_len)
        (cursor (write_rest d s) j)
      ≡ ok ((d, true), cursor s (j + d.descriptor_length))
unfolding parse_entry
entry-write payload_len d s j v = and_then _ _ (u8_lem _ _ _) (
    and_then _ _ (bytes_lem 3 d.specifier_data _ _ v.specifier_data) (
      and_then _ _ (u16-be16 d.model _ _ v.model) (
        and_then _ _ (u16-be16 d.version _ _ v.version) (
          and_then _ _ (u8_lem _ _ _) (
            and_then _ _
              (sub_descriptors-write payload_len d.sub_descriptor_count d.sub_descriptors s _
                v.count v.sub_descriptors)
              (same_place (d, true) s (omega (arith, v.descriptor_length))))))))

-- The last entry of a list: of it, the first two bytes are read.
abbrev pub last_refused : DescriptorEntry → List DescriptorEntry → List DescriptorEntry
last_refused d [] = entry_with d.descriptor_type d.descriptor_length ∷ []
last_refused d (e ∷ es) = d ∷ last_refused e es

entries-write :
    (payload_len total n : ℕ) (d : DescriptorEntry) (ds : List DescriptorEntry) (s : List ℕ) (j : ℕ)
    → suc (length ds) ≡ n
    → All (IsEntry payload_len) (d ∷ ds)
    → total + 2 ≡ j + size_all size_entry (d ∷ ds)
    → (c : Cursor) × (parse_entries n total
          (pos payload_len)
          (cursor (write_all write_entry (d ∷ ds) s) j)
        ≡ ok ((last_refused d ds, false), c))
unfolding parse_entries write_all size_all
entries-write payload_len total zero d ds s j e v t = absurd (omega arith)
entries-write payload_len total (suc n) d [] s j e v t =
    let test : ltb total (j + 2 + d.descriptor_length + 2) ≡ true = ground arith in
    let none_left : n ≡ 0 = omega (arith, e) in
    (
      cursor (write_rest d s) (j + 1 + 1),
      and_then _ _ (u8_lem _ _ _) (and_then _ _ (u8_lem _ _ _) (rw test (rw none_left refl))),
    )
entries-write payload_len total (suc n) d (d' ∷ ds) s j e (v, (v', vs)) t =
    let long = v'.descriptor_length in
    let test : ltb total (j + 2 + d.descriptor_length + 2) ≡ false = ground (arith, t, long) in
    let (c, ih) =
      entries-write payload_len total n d' ds s (j + 1 + 1 + d.descriptor_length) (omega (arith, e))
        (v', vs) (omega (arith, t)) in
    (
      c,
      and_then _ _ (u8_lem _ _ _) (
          and_then _ _ (u8_lem _ _ _)
            (rw test (and_then _ _ (entry-write payload_len d _ _ v) (and_then _ _ ih refl)))),
    )

-- Of compatibility descriptors that are written as the standard says, with their lengths, the last entry is
-- always refused: of it, only the type and the length are read, the entries before it are read as they are
-- written, and the function returns the number of bytes that the descriptors take.
pub dsmcc_parse_compatibility_descriptors-write :
    (payload_len total : ℕ) (d : DescriptorEntry) (ds : List DescriptorEntry) (s : List ℕ)
    → All (IsEntry payload_len) (d ∷ ds)
    → total ≡ 2 + size_all size_entry (d ∷ ds)
    → total < 2 ^ 16
    → suc (length ds) < 2 ^ 16
    → dsmcc_parse_compatibility_descriptors
        (pos payload_len)
        (be16 total ++ (be16 (suc (length ds)) ++ write_all write_entry (d ∷ ds) s))
      ≡ ok (
        record {
          compatibility_descriptor_length = total;
          descriptor_count = suc (length ds);
          descriptors = last_refused d ds;
        },
        2 + total,
      )
unfolding dsmcc_parse_compatibility_descriptors
dsmcc_parse_compatibility_descriptors-write payload_len total d ds s v e long few =
    let test : ltb total 2 ≡ false = ground (arith, e) in
    let (c, entries) =
      entries-write payload_len total (suc (length ds)) d ds s (0 + 2 + 2) refl v
        (omega (arith, e)) in
    and_then _ _ (u16-be16 total _ 0 long)
      (rw test (and_then _ _ (u16-be16 (suc (length ds)) _ _ few) (and_then _ _ entries refl)))
