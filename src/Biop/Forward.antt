-- ===== src/Biop/Forward.antt =====
-- src/dsm-cc/biop.c: the parsers only move forward.
use demuxfs.Prelude.{ℕ, refl, ◌==◌}
use demuxfs.Cursor.{u8, u16, u24, u32}
use demuxfs.Cursor.Forward.{
  Forward, reads_bind, reads_if, stays, repeat-Forward, u8-Forward, u16-Forward, u24-Forward,
  u32-Forward,
}
use demuxfs.Biop.{biop_delivery_para_use, biop_object_use}
use demuxfs.Biop.Profile.{
  location_key, biop_parse_object_location, biop_parse_message_selector, selector_of,
  biop_parse_tap, biop_parse_connbinder, biop_parse_profile_body,
}

key-Forward : (n : ℕ) → Forward (location_key n)
unfolding location_key
key-Forward n = reads_if (n == 1) _ _ (reads_bind u8 _ u8-Forward (λ k. stays)) (
    reads_if (n == 2) _ _ (reads_bind u16 _ u16-Forward (λ k. stays)) (
      reads_if (n == 3) _ _ (reads_bind u24 _ u24-Forward (λ k. stays))
        (reads_if (n == 4) _ _ (reads_bind u32 _ u32-Forward (λ k. stays)) (λ c. (4, refl)))))

object_location-Forward : Forward biop_parse_object_location
unfolding biop_parse_object_location
object_location-Forward = reads_bind _ _ u32-Forward (λ tag. reads_bind _ _ u8-Forward (λ length.
    reads_bind _ _ u32-Forward (λ carousel_id. reads_bind _ _ u16-Forward (λ module_id.
      reads_bind _ _ u8-Forward (λ major. reads_bind _ _ u8-Forward (λ minor.
        reads_bind _ _ u8-Forward (λ n. reads_bind _ _ (key-Forward n) (λ key. stays))))))))

message_selector-Forward : Forward biop_parse_message_selector
unfolding biop_parse_message_selector
message_selector-Forward = reads_bind _ _ u8-Forward (λ length. reads_bind _ _ u16-Forward (λ kind.
    reads_bind _ _ u32-Forward (λ transaction_id. reads_bind _ _ u32-Forward (λ timeout. stays))))

selector-Forward : (tap_use : ℕ) → Forward (selector_of tap_use)
unfolding selector_of
selector-Forward tap_use =
    reads_if (tap_use == biop_delivery_para_use) _ _
      (reads_bind _ _ message_selector-Forward (λ s. stays))
      (reads_if (tap_use == biop_object_use) _ _ (reads_bind _ _ u8-Forward (λ b. stays)) stays)

tap-Forward : Forward biop_parse_tap
unfolding biop_parse_tap
tap-Forward = reads_bind _ _ u16-Forward (λ tap_id. reads_bind _ _ u16-Forward (λ tap_use.
    reads_bind _ _ u16-Forward
      (λ association_tag. reads_bind _ _ (selector-Forward tap_use) (λ selector. stays))))

connbinder-Forward : Forward biop_parse_connbinder
unfolding biop_parse_connbinder
connbinder-Forward = reads_bind _ _ u32-Forward (λ tag. reads_bind _ _ u8-Forward (λ length.
    reads_bind _ _ u8-Forward
      (λ tap_count. reads_bind _ _ (repeat-Forward tap_count _ tap-Forward) (λ taps. stays))))

pub biop_parse_profile_body-Forward : Forward biop_parse_profile_body
unfolding biop_parse_profile_body
biop_parse_profile_body-Forward = reads_bind _ _ u32-Forward (λ tag.
    reads_bind _ _ u32-Forward (λ data_length. reads_bind _ _ u8-Forward (λ byte_order.
      reads_bind _ _ u8-Forward (λ component_count.
        reads_bind _ _ object_location-Forward
          (λ object_location. reads_bind _ _ connbinder-Forward (λ connbinder. stays))))))
