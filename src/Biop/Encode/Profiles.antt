-- ===== src/Biop/Encode/Profiles.antt =====
-- src/dsm-cc/biop.c: profile bodies are read back.
use demuxfs.Prelude.{
  ℕ, ◌+◌, ◌^◌, ◌<◌, ◌≡◌, ◌≢◌, refl, ap, false, Option, none, some, List, ◌∷◌, ◌++◌, length, ok,
  arith, All, ◌==◌, if◌then◌else◌,
}
use demuxfs.Cursor.{cursor}
use demuxfs.Cursor.Laws.{
  be16, be24, be32, u8_lem, u16-be16, u24-be24, u32-be32, write_all, size_all, ReadsBack,
  repeat-write_all, and_then,
}
use demuxfs.Biop.{
  ObjectLocation, MessageSelector, DsmccTap, Connbinder, ProfileBody, biop_delivery_para_use,
  biop_object_use,
}
use demuxfs.Biop.Profile.{
  location_key, biop_parse_object_location, biop_parse_message_selector, selector_of,
  biop_parse_tap, biop_parse_connbinder, biop_parse_profile_body,
}

-- A key of one to four bytes.
pub data IsKey : ℕ → ℕ → Type 0 where
  key_8 : (n k : ℕ) → n ≡ 1 → IsKey n k
  key_16 : (n k : ℕ) → n ≡ 2 → k < 2 ^ 16 → IsKey n k
  key_24 : (n k : ℕ) → n ≡ 3 → k < 2 ^ 24 → IsKey n k
  key_32 : (n k : ℕ) → n ≡ 4 → k < 2 ^ 32 → IsKey n k

unfoldable pub write_key : ℕ → ℕ → List ℕ → List ℕ
write_key n k s =
    if n == 1
    then k ∷ s
    else if n == 2
    then be16 k ++ s
    else if n == 3
    then be24 k ++ s
    else be32 k ++ s

location_key-write :
    (n k : ℕ) (s : List ℕ) (j : ℕ)
    → IsKey n k
    → location_key n (cursor (write_key n k s) j) ≡ ok ((n, k), cursor s (j + n))
unfolding location_key write_key
location_key-write n k s j (key_8 _ _ e) = rw e (and_then _ _ (u8_lem k s j) refl)
location_key-write n k s j (key_16 _ _ e h) = rw e (and_then _ _ (u16-be16 k s j h) refl)
location_key-write n k s j (key_24 _ _ e h) = rw e (and_then _ _ (u24-be24 k s j h) refl)
location_key-write n k s j (key_32 _ _ e h) = rw e (and_then _ _ (u32-be32 k s j h) refl)

pub record IsObjectLocation (l : ObjectLocation) : Type 0 where
  pub tag : l.object_location_tag < 2 ^ 32
  pub carousel_id : l.carousel_id < 2 ^ 32
  pub module_id : l.module_id < 2 ^ 16
  pub key : IsKey l.object_key_length l.object_key

abbrev pub write_object_location : ObjectLocation → List ℕ → List ℕ
write_object_location l s =
    be32 l.object_location_tag
    ++ (l.object_location_length
        ∷ (be32 l.carousel_id
            ++ (be16 l.module_id
                ++ (l.version_major
                    ∷ l.version_minor
                    ∷ l.object_key_length
                    ∷ write_key l.object_key_length l.object_key s))))

biop_parse_object_location-write :
    ReadsBack IsObjectLocation biop_parse_object_location write_object_location
      (λ l. 14 + l.object_key_length)
unfolding biop_parse_object_location
biop_parse_object_location-write l s j v = and_then _ _ (u32-be32 l.object_location_tag _ j v.tag) (
    and_then _ _ (u8_lem _ _ _) (
      and_then _ _ (u32-be32 l.carousel_id _ _ v.carousel_id) (
        and_then _ _ (u16-be16 l.module_id _ _ v.module_id) (
          and_then _ _ (u8_lem _ _ _) (
            and_then _ _ (u8_lem _ _ _) (
              and_then _ _ (u8_lem _ _ _) (
                and_then _ _ (location_key-write l.object_key_length l.object_key s _ v.key)
                  (ap (λ k. ok (l, cursor s k)) (omega arith)))))))))

pub record IsMessageSelector (m : MessageSelector) : Type 0 where
  pub kind : m.selector_type < 2 ^ 16
  pub transaction_id : m.transaction_id < 2 ^ 32
  pub timeout : m.timeout < 2 ^ 32

abbrev pub write_message_selector : MessageSelector → List ℕ → List ℕ
write_message_selector m s =
    m.selector_length ∷ (be16 m.selector_type ++ (be32 m.transaction_id ++ (be32 m.timeout ++ s)))

biop_parse_message_selector-write :
    ReadsBack IsMessageSelector biop_parse_message_selector write_message_selector (λ m. 11)
unfolding biop_parse_message_selector
biop_parse_message_selector-write m s j v = and_then _ _ (u8_lem _ _ _) (
    and_then _ _ (u16-be16 m.selector_type _ _ v.kind) (
      and_then _ _ (u32-be32 m.transaction_id _ _ v.transaction_id) (
        and_then _ _ (u32-be32 m.timeout _ _ v.timeout)
          (ap (λ k. ok (m, cursor s k)) (omega arith)))))

-- The selector that the use of a tap calls for.
pub data IsSelector : ℕ → Option MessageSelector → Type 0 where
  delivery :
      (use_ : ℕ) (m : MessageSelector)
      → use_ ≡ biop_delivery_para_use
      → IsMessageSelector m
      → IsSelector use_ (some m)
  object : (use_ : ℕ) → use_ ≡ biop_object_use → IsSelector use_ none
  other : (use_ : ℕ) → use_ ≢ biop_delivery_para_use → use_ ≢ biop_object_use → IsSelector use_ none

abbrev pub write_selector : ℕ → Option MessageSelector → List ℕ → List ℕ
write_selector use_ (some m) s = write_message_selector m s
write_selector use_ none s = if use_ == biop_object_use then 0 ∷ s else s

abbrev pub size_selector : ℕ → Option MessageSelector → ℕ
size_selector use_ (some m) = 11
size_selector use_ none = if use_ == biop_object_use then 1 else 0

selector_of-write :
    (use_ : ℕ) (m : Option MessageSelector) (s : List ℕ) (j : ℕ)
    → IsSelector use_ m
    → selector_of use_ (cursor (write_selector use_ m s) j)
      ≡ ok (m, cursor s (j + size_selector use_ m))
unfolding selector_of
selector_of-write use_ _ s j (delivery _ m e v) =
    rw e (and_then _ _ (biop_parse_message_selector-write m s j v) refl)
selector_of-write use_ _ s j (object _ e) = rw e (and_then _ _ (u8_lem 0 s j) refl)
selector_of-write use_ _ s j (other _ ne no_) =
    let first : (use_ == biop_delivery_para_use) ≡ false = ground arith in
    let second : (use_ == biop_object_use) ≡ false = ground arith in
    rw (first, second) (ap (λ k. ok (none, cursor s k)) (omega arith))

pub record IsTap (t : DsmccTap) : Type 0 where
  pub tap_id : t.tap_id < 2 ^ 16
  pub tap_use : t.tap_use < 2 ^ 16
  pub association_tag : t.association_tag < 2 ^ 16
  pub selector : IsSelector t.tap_use t.message_selector

abbrev pub write_tap : DsmccTap → List ℕ → List ℕ
write_tap t s =
    be16 t.tap_id
    ++ (be16 t.tap_use ++ (be16 t.association_tag ++ write_selector t.tap_use t.message_selector s))

abbrev pub size_tap : DsmccTap → ℕ
size_tap t = 6 + size_selector t.tap_use t.message_selector

biop_parse_tap-write : ReadsBack IsTap biop_parse_tap write_tap size_tap
unfolding biop_parse_tap
biop_parse_tap-write t s j v = and_then _ _ (u16-be16 t.tap_id _ j v.tap_id) (
    and_then _ _ (u16-be16 t.tap_use _ _ v.tap_use) (
      and_then _ _ (u16-be16 t.association_tag _ _ v.association_tag) (
        and_then _ _ (selector_of-write t.tap_use t.message_selector s _ v.selector)
          (ap (λ k. ok (t, cursor s k)) (omega arith)))))

pub record IsConnbinder (c : Connbinder) : Type 0 where
  pub tag : c.connbinder_tag < 2 ^ 32
  pub count : length c.taps ≡ c.tap_count
  pub taps : All IsTap c.taps

abbrev pub write_connbinder : Connbinder → List ℕ → List ℕ
write_connbinder c s =
    be32 c.connbinder_tag ++ (c.connbinder_length ∷ c.tap_count ∷ write_all write_tap c.taps s)

abbrev pub size_connbinder : Connbinder → ℕ
size_connbinder c = 6 + size_all size_tap c.taps

biop_parse_connbinder-write :
    ReadsBack IsConnbinder biop_parse_connbinder write_connbinder size_connbinder
unfolding biop_parse_connbinder
biop_parse_connbinder-write c s j v = and_then _ _ (u32-be32 c.connbinder_tag _ j v.tag) (
    and_then _ _ (u8_lem _ _ _) (
      and_then _ _ (u8_lem _ _ _) (
        and_then _ _
          (repeat-write_all IsTap biop_parse_tap write_tap size_tap biop_parse_tap-write c.tap_count
            c.taps s _ v.count v.taps)
          (ap (λ k. ok (c, cursor s k)) (omega arith)))))

pub record IsProfileBody (b : ProfileBody) : Type 0 where
  pub tag : b.profile_id_tag < 2 ^ 32
  pub data_length : b.profile_data_length < 2 ^ 32
  pub location : IsObjectLocation b.object_location
  pub connbinder : IsConnbinder b.connbinder

abbrev pub write_profile_body : ProfileBody → List ℕ → List ℕ
write_profile_body b s =
    be32 b.profile_id_tag
    ++ (be32 b.profile_data_length
        ++ (b.profile_data_byte_order
            ∷ b.component_count
            ∷ write_object_location b.object_location (write_connbinder b.connbinder s)))

abbrev pub size_profile_body : ProfileBody → ℕ
size_profile_body b = 24 + b.object_location.object_key_length + size_connbinder b.connbinder

-- Parsing a profile body gives it back, with the location of its object, whose key has one to four
-- bytes, and its taps, each with the selector that its use calls for.
pub biop_parse_profile_body-write :
    (b : ProfileBody) (s : List ℕ) (j : ℕ)
    → IsProfileBody b
    → biop_parse_profile_body (cursor (write_profile_body b s) j)
      ≡ ok (b, cursor s (j + size_profile_body b))
unfolding biop_parse_profile_body
biop_parse_profile_body-write b s j v = and_then _ _ (u32-be32 b.profile_id_tag _ j v.tag) (
    and_then _ _ (u32-be32 b.profile_data_length _ _ v.data_length) (
      and_then _ _ (u8_lem _ _ _) (
        and_then _ _ (u8_lem _ _ _) (
          and_then _ _ (biop_parse_object_location-write b.object_location _ _ v.location) (
            and_then _ _ (biop_parse_connbinder-write b.connbinder s _ v.connbinder)
              (ap (λ k. ok (b, cursor s k)) (omega arith)))))))
