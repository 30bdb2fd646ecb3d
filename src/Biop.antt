-- ===== src/Biop.antt =====
-- src/dsm-cc/biop.h, src/dsm-cc/biop.c: the objects of a carousel, as the parsers fill them in.
-- Pointers to copied bytes are lists; a NULL pointer to a structure is `none`. What only prints a
-- warning is left out. The parse functions return how far they moved `j`: here the cursor has moved.
pub mod Message
pub mod Profile
pub mod Info
pub mod Directory
pub mod Encode
pub mod Forward
pub mod Walk
use demuxfs.Prelude.{ℕ, List, Option}

pub record MessageHeader : Type 0 where
  pub magic : ℕ
  pub biop_version_major : ℕ
  pub biop_version_minor : ℕ
  pub byte_order : ℕ
  pub message_type : ℕ
  pub message_size : ℕ

pub record ServiceContext : Type 0 where
  pub context_id : ℕ
  pub context_data_length : ℕ
  pub context_data : List ℕ

-- `content_size` is the file_object_info, which only files have.
pub record MessageSubHeader : Type 0 where
  pub object_key_length : ℕ
  pub object_key : List ℕ
  pub object_kind_length : ℕ
  pub object_kind_data : ℕ
  pub object_info_length : ℕ
  pub content_size : Option ℕ
  pub service_context_list_count : ℕ
  pub service_context : List ServiceContext

pub record Name : Type 0 where
  pub name_component_count : ℕ
  pub id_length : ℕ
  pub id_byte : List ℕ
  pub kind_length : ℕ
  pub kind_data : ℕ

pub record ObjectLocation : Type 0 where
  pub object_location_tag : ℕ
  pub object_location_length : ℕ
  pub carousel_id : ℕ
  pub module_id : ℕ
  pub version_major : ℕ
  pub version_minor : ℕ
  pub object_key_length : ℕ
  pub object_key : ℕ

pub record MessageSelector : Type 0 where
  pub selector_length : ℕ
  pub selector_type : ℕ
  pub transaction_id : ℕ
  pub timeout : ℕ

pub record DsmccTap : Type 0 where
  pub tap_id : ℕ
  pub tap_use : ℕ
  pub association_tag : ℕ
  pub message_selector : Option MessageSelector

pub record Connbinder : Type 0 where
  pub connbinder_tag : ℕ
  pub connbinder_length : ℕ
  pub tap_count : ℕ
  pub taps : List DsmccTap

pub record ProfileBody : Type 0 where
  pub profile_id_tag : ℕ
  pub profile_data_length : ℕ
  pub profile_data_byte_order : ℕ
  pub component_count : ℕ
  pub object_location : ObjectLocation
  pub connbinder : Connbinder

-- "fil"
abbrev pub file_kind : ℕ
file_kind = 0x66696c00

abbrev pub biop_delivery_para_use : ℕ
biop_delivery_para_use = 0x0016

abbrev pub biop_object_use : ℕ
biop_object_use = 0x0017
