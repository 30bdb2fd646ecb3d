-- ===== src/Biop/Directory.antt =====
-- src/dsm-cc/biop.c: directory and file messages, behind their headers.
pub mod Encode
use demuxfs.Prelude.{
  ℕ, zero, suc, ◌+◌, ◌-◌, ◌%◌, ◌^◌, Option, none, some, List, [], ◌∷◌, ◌==◌, if◌then◌else◌, Run, ok,
  fault, ◌>>=◌,
}
use demuxfs.Cursor.{
  Cursor, cursor, Parse, ◌>>-◌, give, skip, u8, u16, u32, u64, bytes, repeat, as_int,
}
use demuxfs.Cursor.Forward.{advanced}
use demuxfs.Biop.{MessageSubHeader, Name, file_kind}
use demuxfs.Biop.Message.{peek, biop_parse_message_sub_header, biop_parse_name}
use demuxfs.Iop.{IopIor, IopTaggedProfile, iop_parse_ior}

-- What the child's object info says of a child. A field that it leaves out is zero.
pub record ChildInfo : Type 0 where
  pub content_size : ℕ
  pub content_type : Option (List ℕ)
  pub timestamp : ℕ

pub record Binding : Type 0 where
  pub name : Name
  pub binding_type : ℕ
  pub iop_ior : IopIor
  pub child_object_info_length : ℕ
  pub info : ChildInfo
  pub inode : ℕ

pub record DirectoryMessage : Type 0 where
  pub sub_header : MessageSubHeader
  pub message_body_length : ℕ
  pub bindings_count : ℕ
  pub bindings : List Binding

-- `contents` points into the buffer: the bytes from there to its end, when there are any contents.
pub record FileMessage : Type 0 where
  pub sub_header : MessageSubHeader
  pub message_body_length : ℕ
  pub content_length : ℕ
  pub contents : Option (List ℕ)

-- The `switch` on the tag of a descriptor, at its first byte behind tag and length.
unfoldable pub descriptor_value : ℕ → ℕ → ChildInfo → Cursor → Run ChildInfo
descriptor_value tag length info c =
    if tag == 0x72
    then (bytes length c >>= λ r. ok (record info { content_type = some r.0 }))
    else if tag == 0x81
    then (u64 c >>= λ r. ok (record info { timestamp = r.0 }))
    else ok info

unfoldable pub biop_parse_descriptor : ChildInfo → Parse ChildInfo
unfolding peek
biop_parse_descriptor info c = peek 0 c >>= λ tag. peek 1 c >>= λ length.
    descriptor_value tag.0 length.0 info (advanced 2 c) >>= λ info'.
    ok (info', advanced (2 + length.0) c)

unfoldable pub biop_parse_descriptors : ℕ → ChildInfo → Parse ChildInfo
biop_parse_descriptors zero info = give info
biop_parse_descriptors (suc n) info =
    biop_parse_descriptor info >>- λ info'. biop_parse_descriptors n info'

-- The child's object info. The loops run once for each byte that is announced, less 8 for a file.
unfoldable pub child_object_info : ℕ → ℕ → Parse ChildInfo
child_object_info kind length =
    let none_yet : ChildInfo = record { content_size = 0; content_type = none; timestamp = 0 } in
    if length == 0
    then give none_yet
    else if kind == file_kind
    then (u64 >>- λ content_size.
        biop_parse_descriptors (length - 8) (record none_yet { content_size = content_size }))
    else biop_parse_descriptors length none_yet

-- The key in the first profile that has a body.
unfoldable pub inode_of : List IopTaggedProfile → ℕ
inode_of [] = 0
inode_of (p ∷ ps) = elim p.profile_body [
  | none ↦ inode_of ps
  | some b ↦ b.object_location.object_key
]

unfoldable pub biop_parse_binding : Parse Binding
biop_parse_binding = biop_parse_name >>- λ name. u8 >>- λ binding_type. iop_parse_ior >>- λ ior.
    u16 >>- λ info_length. child_object_info name.kind_data info_length >>- λ info. give record {
      name = name;
      binding_type = binding_type;
      iop_ior = ior;
      child_object_info_length = info_length;
      info = info;
      inode = inode_of ior.tagged_profiles;
    }

-- The body of a directory, and the number of bytes that the message is said to have: the length of
-- the sub-header, that of the body and four, in 32 bits, which are those of an int. Not the bytes that were read.
unfoldable pub directory_body : ℕ → MessageSubHeader → Parse (DirectoryMessage × ℕ)
directory_body start sub_header c =
    let j = c.j - start in
    (u32 >>- λ message_body_length. u16 >>- λ bindings_count.
    repeat bindings_count biop_parse_binding >>- λ bindings. give (
      record {
        sub_header = sub_header;
        message_body_length = message_body_length;
        bindings_count = bindings_count;
        bindings = bindings;
      },
      (message_body_length + j + 4) % 2 ^ 32,
    ))
      c

unfoldable pub biop_parse_directory_message : Parse (DirectoryMessage × ℕ)
biop_parse_directory_message =
    as_int (λ c. (biop_parse_message_sub_header >>- λ sub_header. directory_body c.j sub_header) c)

unfoldable pub file_body : ℕ → MessageSubHeader → Parse (FileMessage × ℕ)
file_body start sub_header c =
    let j = c.j - start in
    (u32 >>- λ message_body_length. u32 >>- λ content_length. λ c'. ok (
      (
        record {
          sub_header = sub_header;
          message_body_length = message_body_length;
          content_length = content_length;
          contents = if content_length == 0 then none else some c'.left;
        },
        (message_body_length + j + 4) % 2 ^ 32,
      ),
      c',
    ))
      c

unfoldable pub biop_parse_file_message : Parse (FileMessage × ℕ)
biop_parse_file_message c =
    (biop_parse_message_sub_header >>- λ sub_header. file_body c.j sub_header) c
