-- ===== src/Tests/Biop.antt =====
-- src/dsm-cc/biop.c and src/dsm-cc/iop.c at a concrete directory.
use demuxfs.Prelude.{◌+◌, ◌≡◌, refl, none, some, [], ◌∷◌, ok, arith, ℕ}
use demuxfs.Cursor.{cursor}
use demuxfs.Cursor.Laws.{size_all}
use demuxfs.Biop.{
  MessageSubHeader, ObjectLocation, MessageSelector, DsmccTap, Connbinder, ProfileBody,
  ServiceContext, file_kind,
}
use demuxfs.Biop.Encode.Headers.{IsMessageSubHeader, no_info}
use demuxfs.Biop.Encode.Profiles.{IsProfileBody, delivery, key_32}
use demuxfs.Iop.{IopTaggedProfile, IopIor, iop_parse_ior}
use demuxfs.Iop.Encode.{IsIor, body, write_ior, iop_parse_ior-write}
use demuxfs.Biop.Directory.{Binding, DirectoryMessage, biop_parse_directory_message}
use demuxfs.Biop.Directory.Encode.{
  first_profile, IsBinding, IsDirectoryMessage, file_size, write_directory_message,
  biop_parse_directory_message-write,
}

abbrev location : ObjectLocation
location = record {
  object_location_tag = 0x49534f50;
  object_location_length = 13;
  carousel_id = 7;
  module_id = 2;
  version_major = 1;
  version_minor = 0;
  object_key_length = 4;
  object_key = 0x00010203;
}

abbrev selector : MessageSelector
selector = record {
  selector_length = 10;
  selector_type = 1;
  transaction_id = 0x80000002;
  timeout = 1000;
}

abbrev tap : DsmccTap
tap = record { tap_id = 0; tap_use = 0x16; association_tag = 11; message_selector = some selector }

abbrev connbinder : Connbinder
connbinder = record {
  connbinder_tag = 0x49534f40;
  connbinder_length = 18;
  tap_count = 1;
  taps = tap ∷ [];
}

abbrev profile : ProfileBody
profile = record {
  profile_id_tag = 0x49534f06;
  profile_data_length = 43;
  profile_data_byte_order = 0;
  component_count = 2;
  object_location = location;
  connbinder = connbinder;
}

profile-IsProfileBody : IsProfileBody profile
profile-IsProfileBody = record {
  tag = omega arith;
  data_length = omega arith;
  location = record {
    tag = omega arith;
    carousel_id = omega arith;
    module_id = omega arith;
    key = key_32 4 0x00010203 refl (omega arith);
  };
  connbinder = record {
    tag = omega arith;
    count = refl;
    taps = (
      record {
        tap_id = omega arith;
        tap_use = omega arith;
        association_tag = omega arith;
        selector =
            delivery 0x16 selector refl
              record { kind = omega arith; transaction_id = omega arith; timeout = omega arith };
      },
      tt,
    );
  };
}

abbrev tagged : IopTaggedProfile
tagged = record { profile_body = some profile }

-- A type id of five bytes, which three bytes fill up.
abbrev ior : IopIor
ior = record {
  type_id_length = 5;
  type_id = 102 ∷ 105 ∷ 108 ∷ 101 ∷ 0 ∷ [];
  alignment_gap = 0xff ∷ 0xff ∷ 0xff ∷ [];
  tagged_profiles_count = 1;
  tagged_profiles = tagged ∷ [];
}

ior-IsIor : IsIor ior
unfolding size_all
ior-IsIor = record {
  type_id_length = omega arith;
  type_id = refl;
  gap = refl;
  tagged_profiles_count = omega arith;
  count = refl;
  profiles = (body profile refl refl (omega arith) profile-IsProfileBody, tt);
  small = omega arith;
}

iop_parse_ior-write_example :
    iop_parse_ior (cursor (write_ior ior (9 ∷ [])) 3) ≡ ok (ior, cursor (9 ∷ []) 70)
unfolding size_all
iop_parse_ior-write_example = iop_parse_ior-write ior (9 ∷ []) 3 ior-IsIor

abbrev context : ServiceContext
context = record { context_id = 5; context_data_length = 2; context_data = 8 ∷ 9 ∷ [] }

abbrev sub_header : MessageSubHeader
sub_header = record {
  object_key_length = 4;
  object_key = 0 ∷ 1 ∷ 2 ∷ 4 ∷ [];
  object_kind_length = 4;
  object_kind_data = 0x64697200;
  object_info_length = 0;
  content_size = none;
  service_context_list_count = 1;
  service_context = context ∷ [];
}

sub_header-IsMessageSubHeader : IsMessageSubHeader sub_header
sub_header-IsMessageSubHeader = record {
  key = refl;
  kind_length = omega arith;
  kind = omega arith;
  info_length = omega arith;
  info = no_info 0x64697200 0 (omega arith) refl;
  count = refl;
  contexts = (record { context_id = omega arith; length_field = omega arith; sized = refl }, tt);
}

-- A file "a" of 77 bytes.
abbrev binding : Binding
binding = record {
  name = record {
    name_component_count = 1;
    id_length = 2;
    id_byte = 97 ∷ 0 ∷ [];
    kind_length = 4;
    kind_data = file_kind;
  };
  binding_type = 1;
  iop_ior = ior;
  child_object_info_length = 8;
  info = record { content_size = 77; content_type = none; timestamp = 0 };
  inode = 0x00010203;
}

binding-IsBinding : IsBinding binding
binding-IsBinding = record {
  name = record { id = refl; kind_length = refl; kind = omega arith };
  ior = ior-IsIor;
  info_length = omega arith;
  info = file_size file_kind 8 77 refl refl (omega arith);
  inode = first_profile profile [];
}

abbrev directory : DirectoryMessage
directory = record {
  sub_header = sub_header;
  message_body_length = 89;
  bindings_count = 1;
  bindings = binding ∷ [];
}

directory-IsDirectoryMessage : IsDirectoryMessage directory
directory-IsDirectoryMessage = record {
  sub_header = sub_header-IsMessageSubHeader;
  message_body_length = omega arith;
  bindings_count = omega arith;
  count = refl;
  bindings = (binding-IsBinding, tt);
}

biop_parse_directory_message-write_example :
    (n : ℕ) × (biop_parse_directory_message (cursor (write_directory_message directory []) 0)
      ≡ ok ((directory, n), cursor [] (0 + n)))
unfolding size_all
biop_parse_directory_message-write_example =
    biop_parse_directory_message-write directory [] 0 directory-IsDirectoryMessage refl
      (omega arith)
