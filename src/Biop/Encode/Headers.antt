-- ===== src/Biop/Encode/Headers.antt =====
-- src/dsm-cc/biop.c: the headers of a message, and names, are read back.
use demuxfs.Prelude.{
  ℕ, ◌+◌, ◌^◌, ◌<◌, ◌≡◌, ◌≢◌, refl, ap, true, false, Option, none, some, List, ◌∷◌, ◌++◌, length,
  ok, arith, All, ◌==◌,
}
use demuxfs.Cursor.{cursor, repeat}
use demuxfs.Cursor.Laws.{
  be16, be32, be64, u8_lem, u16-be16, u32-be32, u64-be64, bytes_lem, write_all, size_all, ReadsBack,
  repeat-write_all, and_then,
}
use demuxfs.Biop.{MessageHeader, ServiceContext, MessageSubHeader, Name, file_kind}
use demuxfs.Biop.Message.{
  biop_parse_message_header, biop_parse_service_context, object_info, biop_parse_message_sub_header,
  biop_parse_name, kind_of_name,
}

pub record IsMessageHeader (h : MessageHeader) : Type 0 where
  pub magic : h.magic < 2 ^ 32
  pub message_size : h.message_size < 2 ^ 32

abbrev pub write_message_header : MessageHeader → List ℕ → List ℕ
write_message_header h s =
    be32 h.magic
    ++ (h.biop_version_major
        ∷ h.biop_version_minor
        ∷ h.byte_order
        ∷ h.message_type
        ∷ (be32 h.message_size ++ s))

-- Parsing the twelve bytes of a message header gives it back, and leaves what follows them.
pub biop_parse_message_header-write :
    ReadsBack IsMessageHeader biop_parse_message_header write_message_header (λ h. 12)
unfolding biop_parse_message_header
biop_parse_message_header-write h s j v = and_then _ _ (u32-be32 h.magic _ j v.magic) (
    and_then _ _ (u8_lem _ _ _) (
      and_then _ _ (u8_lem _ _ _) (
        and_then _ _ (u8_lem _ _ _) (
          and_then _ _ (u8_lem _ _ _) (
            and_then _ _ (u32-be32 h.message_size _ _ v.message_size)
              (ap (λ k. ok (h, cursor s k)) (omega arith)))))))

pub record IsServiceContext (x : ServiceContext) : Type 0 where
  pub context_id : x.context_id < 2 ^ 32
  pub length_field : x.context_data_length < 2 ^ 16
  pub sized : length x.context_data ≡ x.context_data_length

abbrev pub write_service_context : ServiceContext → List ℕ → List ℕ
write_service_context x s =
    be32 x.context_id ++ (be16 x.context_data_length ++ (x.context_data ++ s))

abbrev pub size_service_context : ServiceContext → ℕ
size_service_context x = 6 + x.context_data_length

biop_parse_service_context-write :
    ReadsBack IsServiceContext biop_parse_service_context write_service_context size_service_context
unfolding biop_parse_service_context
biop_parse_service_context-write x s j v = and_then _ _ (u32-be32 x.context_id _ j v.context_id) (
    and_then _ _ (u16-be16 x.context_data_length _ _ v.length_field) (
      and_then _ _ (bytes_lem x.context_data_length x.context_data _ _ v.sized)
        (ap (λ k. ok (x, cursor s k)) (omega arith))))

-- The object info of a file is its size, and that of another object is empty.
pub data IsObjectInfo : ℕ → ℕ → Option ℕ → Type 0 where
  file_info :
      (n kind size : ℕ) → kind ≡ file_kind → size ≡ 8 → n < 2 ^ 64 → IsObjectInfo kind size (some n)
  no_info : (kind size : ℕ) → kind ≢ file_kind → size ≡ 0 → IsObjectInfo kind size none

abbrev pub write_object_info : Option ℕ → List ℕ → List ℕ
write_object_info none s = s
write_object_info (some n) s = be64 n ++ s

object_info-write :
    (kind size : ℕ) (info : Option ℕ) (s : List ℕ) (j : ℕ)
    → IsObjectInfo kind size info
    → object_info kind size (cursor (write_object_info info s) j) ≡ ok (info, cursor s (j + size))
unfolding object_info repeat
object_info-write kind size _ s j (file_info n _ _ e z h) =
    let test : (kind == file_kind) ≡ true = ground arith in
    rw (test, z) (and_then _ _ (u64-be64 n s j h) refl)
object_info-write kind size _ s j (no_info _ _ ne z) =
    let test : (kind == file_kind) ≡ false = ground arith in
    rw (test, z) (ap (λ k. ok (none, cursor s k)) (omega arith))

-- The lengths are those of what they announce, and the object info holds no descriptors.
pub record IsMessageSubHeader (h : MessageSubHeader) : Type 0 where
  pub key : length h.object_key ≡ h.object_key_length
  pub kind_length : h.object_kind_length < 2 ^ 32
  pub kind : h.object_kind_data < 2 ^ 32
  pub info_length : h.object_info_length < 2 ^ 16
  pub info : IsObjectInfo h.object_kind_data h.object_info_length h.content_size
  pub count : length h.service_context ≡ h.service_context_list_count
  pub contexts : All IsServiceContext h.service_context

abbrev pub write_message_sub_header : MessageSubHeader → List ℕ → List ℕ
write_message_sub_header h s =
    h.object_key_length
    ∷ (h.object_key
        ++ (be32 h.object_kind_length
            ++ (be32 h.object_kind_data
                ++ (be16 h.object_info_length
                    ++ write_object_info h.content_size (
                        h.service_context_list_count
                        ∷ write_all write_service_context h.service_context s)))))

abbrev pub size_message_sub_header : MessageSubHeader → ℕ
size_message_sub_header h =
    12
    + h.object_key_length
    + h.object_info_length
    + size_all size_service_context h.service_context

-- Parsing a sub-header whose object info holds no descriptors gives it back, with its service contexts,
-- however many there are, and leaves what follows it.
pub biop_parse_message_sub_header-write :
    (h : MessageSubHeader) (s : List ℕ) (j : ℕ)
    → IsMessageSubHeader h
    → biop_parse_message_sub_header (cursor (write_message_sub_header h s) j)
      ≡ ok (h, cursor s (j + size_message_sub_header h))
unfolding biop_parse_message_sub_header
biop_parse_message_sub_header-write h s j v = and_then _ _ (u8_lem _ _ _) (
    and_then _ _ (bytes_lem h.object_key_length h.object_key _ _ v.key) (
      and_then _ _ (u32-be32 h.object_kind_length _ _ v.kind_length) (
        and_then _ _ (u32-be32 h.object_kind_data _ _ v.kind) (
          and_then _ _ (u16-be16 h.object_info_length _ _ v.info_length) (
            and_then _ _
              (object_info-write h.object_kind_data h.object_info_length h.content_size _ _ v.info)
              (and_then _ _ (u8_lem _ _ _) (
                and_then _ _
                  (repeat-write_all IsServiceContext biop_parse_service_context
                    write_service_context size_service_context biop_parse_service_context-write
                    h.service_context_list_count h.service_context s _ v.count v.contexts)
                  (ap (λ k. ok (h, cursor s k)) (omega arith)))))))))

-- A name whose kind has four bytes, as the standard wants it.
pub record IsName (n : Name) : Type 0 where
  pub id : length n.id_byte ≡ n.id_length
  pub kind_length : n.kind_length ≡ 4
  pub kind : n.kind_data < 2 ^ 32

abbrev pub write_name : Name → List ℕ → List ℕ
write_name n s =
    n.name_component_count ∷ n.id_length ∷ (n.id_byte ++ (n.kind_length ∷ (be32 n.kind_data ++ s)))

kind_of_name-write :
    (n k : ℕ) (s : List ℕ) (j : ℕ)
    → n ≡ 4
    → k < 2 ^ 32
    → kind_of_name n (cursor (be32 k ++ s) j) ≡ ok (k, cursor s (j + 4))
unfolding kind_of_name
kind_of_name-write n k s j e h = rw e (and_then _ _ (u32-be32 k s j h) refl)

pub biop_parse_name-write : ReadsBack IsName biop_parse_name write_name (λ n. 7 + n.id_length)
unfolding biop_parse_name
biop_parse_name-write n s j v = and_then _ _ (u8_lem _ _ _) (
    and_then _ _ (u8_lem _ _ _) (
      and_then _ _ (bytes_lem n.id_length n.id_byte _ _ v.id) (
        and_then _ _ (u8_lem _ _ _) (
          and_then _ _ (kind_of_name-write n.kind_length n.kind_data s _ v.kind_length v.kind)
            (ap (λ k. ok (n, cursor s k)) (omega arith))))))
