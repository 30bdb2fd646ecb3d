-- ===== src/Biop/Message.antt =====
-- src/dsm-cc/biop.c: the headers of a message, and names.
use demuxfs.Prelude.{
  ℕ, ◌-◌, Option, none, some, ◌==◌, if◌then◌else◌, get_elem?, Run, ok, fault, ◌>>=◌,
}
use demuxfs.Cursor.{Parse, ◌>>-◌, give, skip, u8, u16, u32, u64, bytes, repeat, u32_of}
use demuxfs.Biop.{MessageHeader, ServiceContext, MessageSubHeader, Name, file_kind}

unfoldable pub biop_parse_message_header : Parse MessageHeader
biop_parse_message_header = u32 >>- λ magic. u8 >>- λ major. u8 >>- λ minor. u8 >>- λ order.
    u8 >>- λ kind. u32 >>- λ size. give record {
      magic = magic;
      biop_version_major = major;
      biop_version_minor = minor;
      byte_order = order;
      message_type = kind;
      message_size = size;
    }

-- `buf[j+i]`, with `j` where it is.
unfoldable pub peek : ℕ → Parse ℕ
peek i c = elim (get_elem? c.left i) [ none ↦ fault | some b ↦ ok (b, c) ]

-- One round of the loops over the descriptors of the object info, which read a length and skip
-- as many bytes.
unfoldable pub skip_info : Parse (Unit {0})
unfolding peek
skip_info = peek 1 >>- λ descriptor_length. skip descriptor_length

unfoldable pub biop_parse_service_context : Parse ServiceContext
biop_parse_service_context = u32 >>- λ context_id. u16 >>- λ context_data_length.
    bytes context_data_length >>- λ context_data. give record {
      context_id = context_id;
      context_data_length = context_data_length;
      context_data = context_data;
    }

-- The object info: the size of a file, and descriptors. The loop counts descriptors up to the number
-- of bytes of the info, less 8 for a file; as an int, so that it may be negative.
unfoldable pub object_info : ℕ → ℕ → Parse (Option ℕ)
object_info kind length =
    if kind == file_kind
    then (u64 >>- λ content_size. repeat (length - 8) skip_info >>- λ _. give (some content_size))
    else (repeat length skip_info >>- λ _. give none)

unfoldable pub biop_parse_message_sub_header : Parse MessageSubHeader
biop_parse_message_sub_header = u8 >>- λ object_key_length.
    bytes object_key_length >>- λ object_key. u32 >>- λ object_kind_length.
    u32 >>- λ object_kind_data. u16 >>- λ object_info_length.
    object_info object_kind_data object_info_length >>- λ content_size.
    u8 >>- λ service_context_list_count.
    repeat service_context_list_count biop_parse_service_context >>- λ service_context.
    give record {
      object_key_length = object_key_length;
      object_key = object_key;
      object_kind_length = object_kind_length;
      object_kind_data = object_kind_data;
      object_info_length = object_info_length;
      content_size = content_size;
      service_context_list_count = service_context_list_count;
      service_context = service_context;
    }

-- The inode of an object is its key; a key of fewer than four bytes is read past its end.
unfoldable pub biop_get_sub_header_inode : MessageSubHeader → Run ℕ
biop_get_sub_header_inode h = u32_of h.object_key 0 >>= λ r. ok r.0

-- The kind is read in four bytes, and `kind_length` bytes are passed over.
unfoldable pub kind_of_name : ℕ → Parse ℕ
kind_of_name kind_length c = u32 c >>= λ r. skip kind_length c >>= λ c'. ok (r.0, c'.1)

unfoldable pub biop_parse_name : Parse Name
biop_parse_name = u8 >>- λ name_component_count. u8 >>- λ id_length. bytes id_length >>- λ id_byte.
    u8 >>- λ kind_length. kind_of_name kind_length >>- λ kind_data. give record {
      name_component_count = name_component_count;
      id_length = id_length;
      id_byte = id_byte;
      kind_length = kind_length;
      kind_data = kind_data;
    }
