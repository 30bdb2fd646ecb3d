-- ===== src/Tables/StreamType.antt =====
-- src/tables/descriptors/stream_type.c, src/tables/descriptors/component_tag.c: what a stream carries, by
-- its type and by its component tag.
use demuxfs.Prelude.{ℕ, Bool, ◌&&◌, ◌||◌, leb, ◌==◌}

unfoldable pub stream_type_is_video : ℕ → Bool
stream_type_is_video t = t == 0x01 || t == 0x02 || t == 0x1b

unfoldable pub stream_type_is_audio : ℕ → Bool
stream_type_is_audio t = t == 0x03 || t == 0x04 || t == 0x0f || t == 0x11 || t == 0x81

unfoldable pub stream_type_is_data_carousel : ℕ → Bool
stream_type_is_data_carousel t = t == 0x05 || t == 0x0b || t == 0x0d

unfoldable pub stream_type_is_event_message : ℕ → Bool
stream_type_is_event_message t = t == 0x0c || t == 0x0d

unfoldable pub stream_type_is_mpe : ℕ → Bool
stream_type_is_mpe t = t == 0x0a

unfoldable pub stream_type_is_object_carousel : ℕ → Bool
stream_type_is_object_carousel t = t == 0x06 || t == 0x0a || t == 0x0c || t == 0x0d || t == 0x7e

-- A test on a component tag, and what it leaves in `*is_primary`.
abbrev pub Test : Type 0
Test = ℕ → Bool × Bool

unfoldable pub component_is_video : Test
component_is_video t = (leb t 0x0f || t == 0x81 || t == 0x82, t == 0x00 || t == 0x81)

unfoldable pub component_is_audio : Test
component_is_audio t = (
  leb 0x10 t && leb t 0x2f || leb 0x83 t && leb t 0x86 || t == 0x90 || t == 0x91,
  t == 0x10 || t == 0x83 || t == 0x85 || t == 0x90,
)

unfoldable pub component_is_caption : Test
component_is_caption t = (leb 0x30 t && leb t 0x37 || t == 0x87, t == 0x30 || t == 0x87)

unfoldable pub component_is_superimposed : Test
component_is_superimposed t = (leb 0x38 t && leb t 0x3f || t == 0x88, t == 0x38 || t == 0x88)

unfoldable pub component_is_object_carousel : Test
component_is_object_carousel t = (leb 0x40 t && leb t 0x6f, t == 0x40)

unfoldable pub component_is_event_message : ℕ → Bool
component_is_event_message t = leb 0x70 t && leb t 0x7f

unfoldable pub component_is_data_carousel : Test
component_is_data_carousel t = (t == 0x80, t == 0x80)

unfoldable pub component_is_one_seg : ℕ → Bool
component_is_one_seg t = leb 0x80 t && leb t 0x8f
