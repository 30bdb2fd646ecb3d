-- ===== src/Tests/Nit.antt =====
-- src/tables/nit.c at concrete sections.
use demuxfs.Prelude.{ℕ, ◌+◌, ◌*◌, ◌≡◌, refl, List, [], ◌∷◌, ◌++◌, ok, arith, replicate}
use demuxfs.Tables.{parsed}
use demuxfs.Tables.Laws.{append-Stands}
use demuxfs.Tables.Descriptors.Laws.{Descriptor, calls_of}
use demuxfs.Tables.Nit.{NitTsData, NitTable, ts_data_at, ts_data_from}
use demuxfs.Tables.Nit.Encode.{TsData, IsTsData, write_all_ts_data, ts_data_there}
use demuxfs.Tables.Nit.Wrap.{ts_data_from-lost}

abbrev name : Descriptor
name = record { tag = 0x40; body = 0x54 ∷ 0x56 ∷ [] }

-- A transport stream with one descriptor.
abbrev small : TsData
small = (
  record {
    transport_stream_id = 0x1234;
    original_network_id = 0x105;
    reserved_future_use = 15;
    transport_descriptors_length = 4;
    num_descriptors = 1;
  },
  name ∷ [],
)

abbrev table : NitTable
table = record {
  reserved_4 = 15;
  network_descriptors_length = 4;
  num_descriptors = 1;
  reserved_5 = 15;
  transport_stream_loop_length = 20;
}

abbrev head : List ℕ
head = 0x40 ∷ 0xf0 ∷ 0x29 ∷ 1 ∷ 5 ∷ 0xc1 ∷ 0 ∷ 0 ∷ []

abbrev crc : List ℕ
crc = 1 ∷ 2 ∷ 3 ∷ 4 ∷ []

-- A transport stream with 250 bytes of descriptors, and another one behind it.
abbrev long : Descriptor
long = record { tag = 0x40; body = replicate 123 0x54 }

abbrev large : NitTsData
large = record {
  transport_stream_id = 1;
  original_network_id = 2;
  reserved_future_use = 15;
  transport_descriptors_length = 250;
  num_descriptors = 2;
}

abbrev other : NitTsData
other = record large { transport_stream_id = 3 }

large-IsTsData : IsTsData (large, long ∷ long ∷ [])
large-IsTsData = record {
  transport_stream_id = omega arith;
  original_network_id = omega arith;
  reserved_future_use = omega arith;
  transport_descriptors_length = refl;
  num_descriptors = refl;
  short = (omega arith, (omega arith, tt));
}

abbrev two : List TsData
two = (large, long ∷ long ∷ []) ∷ (other, long ∷ long ∷ []) ∷ []

large_there :
    ts_data_at (head ++ (write_all_ts_data two ++ crc)) 8
    ≡ ok (parsed (large, calls_of (8 + 6) (long ∷ long ∷ [])))
large_there =
    ts_data_there (head ++ (write_all_ts_data two ++ crc)) 8 large (long ∷ long ∷ [])
      ((other, long ∷ long ∷ []) ∷ []) large-IsTsData
      (append-Stands head (write_all_ts_data two) crc) (omega arith)

ts_data_from-lost_example :
    ts_data_from 4096 (head ++ (write_all_ts_data two ++ crc)) 8 0 (256 * 2)
    ≡ ok (parsed (replicate 2 (large, calls_of (8 + 6) (long ∷ long ∷ []))))
ts_data_from-lost_example =
    ts_data_from-lost (head ++ (write_all_ts_data two ++ crc)) 8 2
      (large, calls_of (8 + 6) (long ∷ long ∷ [])) large_there refl (omega arith) (omega arith)
