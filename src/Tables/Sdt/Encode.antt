-- ===== src/Tables/Sdt/Encode.antt =====
-- src/tables/sdt.c: the services that are written in a table are read back.
use demuxfs.Prelude.{ℕ, ◌+◌, ◌*◌, ◌/◌, ◌%◌, ◌^◌, ◌<◌, ◌≡◌, List, [], ◌∷◌, ◌++◌, length}
use demuxfs.Byteops.{convert_to_16}
use demuxfs.Tables.Descriptors.{Call}
use demuxfs.Tables.Descriptors.Laws.{Descriptor, write_descriptors, calls_of}
use demuxfs.Tables.Sdt.{SdtServiceInfo}

-- A service and its descriptors.
abbrev pub Service : Type 0
Service = SdtServiceInfo × List Descriptor

abbrev flags : SdtServiceInfo → ℕ
flags s = s.reserved_future_use * 4 + s.eit_schedule_flag * 2 + s.eit_present_following_flag

abbrev status : SdtServiceInfo → ℕ
status s = s.running_status * 32 + s.free_ca_mode * 16 + s.descriptors_loop_length / 256

abbrev pub write_service_info : SdtServiceInfo → List ℕ
write_service_info s =
    (s.service_id / 256)
    ∷ (s.service_id % 256)
    ∷ flags s
    ∷ status s
    ∷ (s.descriptors_loop_length % 256)
    ∷ []

abbrev pub write_services : List Service → List ℕ
write_services [] = []
write_services (s ∷ ss) = write_service_info s.0 ++ (write_descriptors s.1 ++ write_services ss)

-- Each field fits its width, and the loop length is that of the descriptors.
pub record IsService (s : Service) : Type 0 where
  pub service_id : s.0.service_id < 2 ^ 16
  pub reserved_future_use : s.0.reserved_future_use < 2 ^ 6
  pub eit_schedule_flag : s.0.eit_schedule_flag < 2
  pub eit_present_following_flag : s.0.eit_present_following_flag < 2
  pub running_status : s.0.running_status < 8
  pub free_ca_mode : s.0.free_ca_mode < 2
  pub short : length (write_descriptors s.1) < 2 ^ 12
  pub descriptors_loop_length : s.0.descriptors_loop_length ≡ length (write_descriptors s.1)

-- What is read of the services that stand from `i` on.
abbrev pub services_read : ℕ → List Service → List (SdtServiceInfo × List Call)
services_read i [] = []
services_read i (s ∷ ss) =
    (s.0, calls_of (i + 5) s.1) ∷ services_read (i + (5 + s.0.descriptors_loop_length)) ss

abbrev length_bytes : SdtServiceInfo → ℕ
length_bytes s = convert_to_16 (status s) (s.descriptors_loop_length % 256)
