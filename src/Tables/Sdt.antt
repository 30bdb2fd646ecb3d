-- ===== src/Tables/Sdt.antt =====
-- src/tables/sdt.c, src/tables/sdt.h: the services of a service description table. The payload has at
-- least the eight bytes of the header that psi_parse asks for. The entries that are made in the tree and
-- the warnings are left out.
pub mod Bounds
pub mod Encode
use demuxfs.Prelude.{
  ℕ, zero, suc, ◌+◌, ◌-◌, List, [], ◌∷◌, ◌++◌, length, ltb, if◌then◌else◌, Run, ok, ◌>>=◌, bit_and,
}
use demuxfs.Byteops.{char_shift_right}
use demuxfs.Tables.{at, at16, Parsed, parsed, refused, unfinished, then_parse}
use demuxfs.Tables.Descriptors.{Call, descriptors_parse}

pub record SdtServiceInfo : Type 0 where
  pub service_id : ℕ
  pub reserved_future_use : ℕ
  pub eit_schedule_flag : ℕ
  pub eit_present_following_flag : ℕ
  pub running_status : ℕ
  pub free_ca_mode : ℕ
  pub descriptors_loop_length : ℕ

-- The first loop, from `i` on: it counts the services, and refuses a table that is too short for one.
unfoldable pub count_services : ℕ → List ℕ → ℕ → ℕ → Run (Parsed ℕ)
count_services zero payload i n = ok unfinished
count_services (suc rounds) payload i n =
    if ltb i (length payload - 4)
    then (at16 payload (i + 3) >>= λ loop_length.
        let next = i + (5 + bit_and loop_length 0x0fff) in
        if ltb (length payload - 4) next
        then ok refused
        else count_services rounds payload next (n + 1))
    else ok (parsed n)

unfoldable pub service_at : List ℕ → ℕ → Run SdtServiceInfo
service_at payload i = at16 payload i >>= λ service_id. at payload (i + 2) >>= λ b2.
    at payload (i + 3) >>= λ b3. at16 payload (i + 3) >>= λ loop_length. ok record {
      service_id = service_id;
      reserved_future_use = bit_and (char_shift_right b2 2) 0x3f;
      eit_schedule_flag = bit_and (char_shift_right b2 1) 0x01;
      eit_present_following_flag = bit_and b2 0x01;
      running_status = bit_and (char_shift_right b3 5) 0x07;
      free_ca_mode = bit_and (char_shift_right b3 4) 0x01;
      descriptors_loop_length = bit_and loop_length 0x0fff;
    }

-- The loop over the descriptors of a service, which stand from `place` on: the n-th byte of `len`.
unfoldable pub service_descriptors : ℕ → List ℕ → ℕ → ℕ → ℕ → Run (Parsed (List Call))
service_descriptors zero payload place n len = ok unfinished
service_descriptors (suc rounds) payload place n len =
    if ltb n len
    then (at payload (place + n + 1) >>= λ descriptor_length.
        descriptors_parse 1 payload (place + n) >>= λ one.
        service_descriptors rounds payload place (n + (2 + descriptor_length)) len
        >>= then_parse (λ rest. ok (parsed (one.1 ++ rest))))
    else ok (parsed [])

-- The second loop, over `n` services from `i` on: each service with the calls of its descriptors'
-- parsers. A loop length has twelve bits, and no round takes less than two bytes.
unfoldable pub parse_services : ℕ → List ℕ → ℕ → Run (Parsed (List (SdtServiceInfo × List Call)))
parse_services zero payload i = ok (parsed [])
parse_services (suc n) payload i = service_at payload i >>= λ service.
    service_descriptors 4096 payload (i + 5) 0 service.descriptors_loop_length
    >>= then_parse (λ calls.
      parse_services n payload (i + (5 + service.descriptors_loop_length))
      >>= then_parse (λ rest. ok (parsed ((service, calls) ∷ rest))))

-- The two loops of sdt_parse, each from the eleventh byte on. A round of the first takes five bytes.
unfoldable pub sdt_services : List ℕ → Run (Parsed (List (SdtServiceInfo × List Call)))
sdt_services payload =
    count_services (length payload + 1) payload 11 0
    >>= then_parse (λ n. parse_services n payload 11)
