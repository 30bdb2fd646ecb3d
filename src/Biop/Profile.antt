-- ===== src/Biop/Profile.antt =====
-- src/dsm-cc/biop.c: profile bodies, with the location of an object and the taps of its connbinder.
use demuxfs.Prelude.{ℕ, Option, none, some, ◌==◌, if◌then◌else◌}
use demuxfs.Cursor.{Parse, ◌>>-◌, give, skip, u8, u16, u24, u32, repeat}
use demuxfs.Biop.{
  ObjectLocation, MessageSelector, DsmccTap, Connbinder, ProfileBody, biop_delivery_para_use,
  biop_object_use,
}

-- The `switch` on the length of the key. A key of no length that it knows is 0, and is taken to have
-- four bytes, which are passed over.
unfoldable pub location_key : ℕ → Parse (ℕ × ℕ)
location_key length =
    if length == 1
    then (u8 >>- λ key. give (length, key))
    else if length == 2
    then (u16 >>- λ key. give (length, key))
    else if length == 3
    then (u24 >>- λ key. give (length, key))
    else if length == 4
    then (u32 >>- λ key. give (length, key))
    else (skip 4 >>- λ _. give (4, 0))

unfoldable pub biop_parse_object_location : Parse ObjectLocation
biop_parse_object_location = u32 >>- λ tag. u8 >>- λ length. u32 >>- λ carousel_id.
    u16 >>- λ module_id. u8 >>- λ major. u8 >>- λ minor. u8 >>- λ key_length.
    location_key key_length >>- λ key. give record {
      object_location_tag = tag;
      object_location_length = length;
      carousel_id = carousel_id;
      module_id = module_id;
      version_major = major;
      version_minor = minor;
      object_key_length = key.0;
      object_key = key.1;
    }

unfoldable pub biop_parse_message_selector : Parse MessageSelector
biop_parse_message_selector = u8 >>- λ length. u16 >>- λ kind. u32 >>- λ transaction_id.
    u32 >>- λ timeout. give record {
      selector_length = length;
      selector_type = kind;
      transaction_id = transaction_id;
      timeout = timeout;
    }

-- What follows the association tag: a selector, a byte that is only looked at, or nothing.
unfoldable pub selector_of : ℕ → Parse (Option MessageSelector)
selector_of tap_use =
    if tap_use == biop_delivery_para_use
    then (biop_parse_message_selector >>- λ s. give (some s))
    else if tap_use == biop_object_use
    then (u8 >>- λ b. give none)
    else give none

unfoldable pub biop_parse_tap : Parse DsmccTap
biop_parse_tap = u16 >>- λ tap_id. u16 >>- λ tap_use. u16 >>- λ association_tag.
    selector_of tap_use >>- λ selector. give record {
      tap_id = tap_id;
      tap_use = tap_use;
      association_tag = association_tag;
      message_selector = selector;
    }

unfoldable pub biop_parse_connbinder : Parse Connbinder
biop_parse_connbinder = u32 >>- λ tag. u8 >>- λ length. u8 >>- λ tap_count.
    repeat tap_count biop_parse_tap >>- λ taps.
    give record {
      connbinder_tag = tag;
      connbinder_length = length;
      tap_count = tap_count;
      taps = taps;
    }

unfoldable pub biop_parse_profile_body : Parse ProfileBody
biop_parse_profile_body = u32 >>- λ tag. u32 >>- λ data_length. u8 >>- λ byte_order.
    u8 >>- λ component_count. biop_parse_object_location >>- λ object_location.
    biop_parse_connbinder >>- λ connbinder. give record {
      profile_id_tag = tag;
      profile_data_length = data_length;
      profile_data_byte_order = byte_order;
      component_count = component_count;
      object_location = object_location;
      connbinder = connbinder;
    }
