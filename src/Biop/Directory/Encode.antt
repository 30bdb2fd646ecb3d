-- ===== src/Biop/Directory/Encode.antt =====
-- src/dsm-cc/biop.c: directory and file messages are read back.
use demuxfs.Prelude.{
  ℕ, ◌+◌, ◌-◌, ◌%◌, ◌^◌, ◌<◌, ◌≡◌, refl, ap, ◌∙◌, none, some, List, [], ◌∷◌, ◌++◌, length, ok,
  arith, All, ◌==◌, if◌then◌else◌,
}
use demuxfs.Cursor.{cursor}
use demuxfs.Cursor.Laws.{
  as_int_lem, be16, be32, be64, u8_lem, u16-be16, u32-be32, u64-be64, write_all, size_all,
  ReadsBack, repeat-write_all, and_then, same_place,
}
use demuxfs.Biop.{file_kind, ProfileBody}
use demuxfs.Iop.{IopTaggedProfile}
use demuxfs.Biop.Encode.Headers.{
  IsMessageSubHeader, write_message_sub_header, size_message_sub_header,
  biop_parse_message_sub_header-write, IsName, write_name, biop_parse_name-write,
}
use demuxfs.Iop.Encode.{IsIor, write_ior, size_ior, iop_parse_ior-write}
use demuxfs.Biop.Directory.{
  ChildInfo, Binding, DirectoryMessage, FileMessage, biop_parse_descriptors, child_object_info,
  inode_of, biop_parse_binding, directory_body, biop_parse_directory_message, file_body,
  biop_parse_file_message,
}

-- No info, or the size of a file; without descriptors.
pub data IsChildInfo : ℕ → ℕ → ChildInfo → Type 0 where
  no_info :
      (kind n : ℕ)
      → n ≡ 0
      → IsChildInfo kind n record { content_size = 0; content_type = none; timestamp = 0 }
  file_size :
      (kind n size : ℕ)
      → kind ≡ file_kind
      → n ≡ 8
      → size < 2 ^ 64
      → IsChildInfo kind n record { content_size = size; content_type = none; timestamp = 0 }

abbrev pub write_child_info : ℕ → ChildInfo → List ℕ → List ℕ
write_child_info n i s = if n == 0 then s else be64 i.content_size ++ s

child_object_info-write :
    (kind n : ℕ) (i : ChildInfo) (s : List ℕ) (j : ℕ)
    → IsChildInfo kind n i
    → child_object_info kind n (cursor (write_child_info n i s) j) ≡ ok (i, cursor s (j + n))
unfolding child_object_info biop_parse_descriptors
child_object_info-write kind n _ s j (no_info _ _ e) = rw e (same_place _ s (omega arith))
child_object_info-write kind n _ s j (file_size _ _ size k e h) =
    rw (e, k) (and_then _ _ (u64-be64 size s j h) refl)

-- The key in the first profile of an object reference, each of which has a body.
pub data FirstKey : List IopTaggedProfile → ℕ → Type 0 where
  no_profile : FirstKey [] 0
  first_profile :
      (b : ProfileBody) (ps : List IopTaggedProfile)
      → FirstKey (record { profile_body = some b } ∷ ps) b.object_location.object_key

inode_of-FirstKey : (ps : List IopTaggedProfile) (key : ℕ) → FirstKey ps key → inode_of ps ≡ key
unfolding inode_of
inode_of-FirstKey _ _ no_profile = refl
inode_of-FirstKey _ _ (first_profile b ps) = refl

-- The inode is the key of the first profile.
pub record IsBinding (b : Binding) : Type 0 where
  pub name : IsName b.name
  pub ior : IsIor b.iop_ior
  pub info_length : b.child_object_info_length < 2 ^ 16
  pub info : IsChildInfo b.name.kind_data b.child_object_info_length b.info
  pub inode : FirstKey b.iop_ior.tagged_profiles b.inode

abbrev pub write_binding : Binding → List ℕ → List ℕ
write_binding b s = write_name b.name (
    b.binding_type
    ∷ write_ior b.iop_ior
        (be16 b.child_object_info_length ++ write_child_info b.child_object_info_length b.info s))

abbrev pub size_binding : Binding → ℕ
size_binding b = 10 + b.name.id_length + size_ior b.iop_ior + b.child_object_info_length

biop_parse_binding-write : ReadsBack IsBinding biop_parse_binding write_binding size_binding
unfolding biop_parse_binding
biop_parse_binding-write b s j v = and_then _ _ (biop_parse_name-write b.name _ j v.name) (
    and_then _ _ (u8_lem _ _ _) (
      and_then _ _ (iop_parse_ior-write b.iop_ior _ _ v.ior) (
        and_then _ _ (u16-be16 b.child_object_info_length _ _ v.info_length) (
          and_then _ _
            (child_object_info-write b.name.kind_data b.child_object_info_length b.info s _ v.info)
            (rw (inode_of-FirstKey _ _ v.inode) (ap (λ k. ok (b, cursor s k)) (omega arith)))))))

pub record IsDirectoryMessage (m : DirectoryMessage) : Type 0 where
  pub sub_header : IsMessageSubHeader m.sub_header
  pub message_body_length : m.message_body_length < 2 ^ 32
  pub bindings_count : m.bindings_count < 2 ^ 16
  pub count : length m.bindings ≡ m.bindings_count
  pub bindings : All IsBinding m.bindings

abbrev pub write_directory_message : DirectoryMessage → List ℕ → List ℕ
write_directory_message m s =
    write_message_sub_header m.sub_header (
      be32 m.message_body_length ++ (be16 m.bindings_count ++ write_all write_binding m.bindings s))

-- The bytes of the body that its length counts.
abbrev pub size_directory_body : DirectoryMessage → ℕ
size_directory_body m = 2 + size_all size_binding m.bindings

pub directory_message-write :
    (m : DirectoryMessage) (s : List ℕ) (j : ℕ)
    → IsDirectoryMessage m
    → size_message_sub_header m.sub_header + 4 + size_directory_body m < 2 ^ 31
    → biop_parse_directory_message (cursor (write_directory_message m s) j)
      ≡ ok (
        (m, (m.message_body_length + size_message_sub_header m.sub_header + 4) % 2 ^ 32),
        cursor s (j + (size_message_sub_header m.sub_header + 4 + size_directory_body m)),
      )
unfolding biop_parse_directory_message directory_body
directory_message-write m s j v h =
    let e : j + size_message_sub_header m.sub_header - j ≡ size_message_sub_header m.sub_header =
      omega arith in
    as_int_lem _ _ (write_directory_message m s) s j _
      (and_then _ _ (biop_parse_message_sub_header-write m.sub_header _ j v.sub_header) (
        and_then _ _ (u32-be32 m.message_body_length _ _ v.message_body_length) (
          and_then _ _ (u16-be16 m.bindings_count _ _ v.bindings_count) (
            and_then _ _
              (repeat-write_all IsBinding biop_parse_binding write_binding size_binding
                biop_parse_binding-write m.bindings_count m.bindings s _ v.count v.bindings)
              (rw e (same_place _ s (omega arith)))))))
      h

-- Parsing a directory message whose bindings carry no descriptors gives back its sub-header and its
-- bindings, each with the key in the first profile of its object reference as the inode, or 0 when it has no
-- profile. The length of the body is that of its bytes, and the message is shorter than 2 ^ 31 bytes: what the parser returns is how far it has read.
pub biop_parse_directory_message-write :
    (m : DirectoryMessage) (s : List ℕ) (j : ℕ)
    → IsDirectoryMessage m
    → m.message_body_length ≡ size_directory_body m
    → size_message_sub_header m.sub_header + 4 + size_directory_body m < 2 ^ 31
    → (n : ℕ) × (biop_parse_directory_message (cursor (write_directory_message m s) j)
        ≡ ok ((m, n), cursor s (j + n)))
biop_parse_directory_message-write m s j v e h =
    let n = size_message_sub_header m.sub_header + 4 + size_directory_body m in
    let ret : (m.message_body_length + size_message_sub_header m.sub_header + 4) % 2 ^ 32 ≡ n =
      omega arith in
    (n, directory_message-write m s j v h ∙ ap (λ k. ok ((m, k), cursor s (j + n))) ret)

pub record IsFileMessage (m : FileMessage) (s : List ℕ) : Type 0 where
  pub sub_header : IsMessageSubHeader m.sub_header
  pub message_body_length : m.message_body_length < 2 ^ 32
  pub content_length : m.content_length < 2 ^ 32
  pub contents : (if m.content_length == 0 then none else some s) ≡ m.contents

abbrev pub write_file_message : FileMessage → List ℕ → List ℕ
write_file_message m s =
    write_message_sub_header m.sub_header
      (be32 m.message_body_length ++ (be32 m.content_length ++ s))

-- Parsing a file message gives back its sub-header and its lengths, and its contents are the bytes
-- behind them, which stay unread.
pub biop_parse_file_message-write :
    (m : FileMessage) (s : List ℕ) (j : ℕ)
    → IsFileMessage m s
    → biop_parse_file_message (cursor (write_file_message m s) j)
      ≡ ok (
        (m, (m.message_body_length + size_message_sub_header m.sub_header + 4) % 2 ^ 32),
        cursor s (j + (size_message_sub_header m.sub_header + 8)),
      )
unfolding biop_parse_file_message file_body
biop_parse_file_message-write m s j v =
    let e : j + size_message_sub_header m.sub_header - j ≡ size_message_sub_header m.sub_header =
      omega arith in
    and_then _ _ (biop_parse_message_sub_header-write m.sub_header _ j v.sub_header) (
      and_then _ _ (u32-be32 m.message_body_length _ _ v.message_body_length) (
        and_then _ _ (u32-be32 m.content_length _ _ v.content_length)
          (rw (e, v.contents) (same_place _ s (omega arith)))))
