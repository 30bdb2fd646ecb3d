-- ===== src/Tables/Nit/Encode.antt =====
-- src/tables/nit.c: the transport streams that are written in a table are read back.
use demuxfs.Prelude.{
  ℕ, ◌+◌, ◌/◌, ◌%◌, ◌^◌, ◌≤◌, ◌<◌, ◌≡◌, refl, List, [], ◌∷◌, ◌++◌, length, ok, arith, All,
  length-append,
}
use demuxfs.Byteops.{convert_to_16}
use demuxfs.Byteops.Laws.{convert_to_16_lem}
use demuxfs.Tables.{parsed}
use demuxfs.Tables.Laws.{Stands, at-Stands, at16-Stands, left_part, right_part}
use demuxfs.Tables.Fields.{write_length, length_there, reserved_there}
use demuxfs.Tables.Descriptors.{Call}
use demuxfs.Tables.Descriptors.Laws.{
  Descriptor, write_descriptors, calls_of, parse_lem, count_lem, IsShort,
}
use demuxfs.Tables.Nit.{NitTsData, NitTable, descriptors_at, ts_data_at}

-- A transport stream and its descriptors.
abbrev pub TsData : Type 0
TsData = NitTsData × List Descriptor

abbrev pub write_ts_data : NitTsData → List ℕ
write_ts_data t =
    (t.transport_stream_id / 256)
    ∷ (t.transport_stream_id % 256)
    ∷ (t.original_network_id / 256)
    ∷ (t.original_network_id % 256)
    ∷ write_length t.reserved_future_use t.transport_descriptors_length

abbrev pub write_all_ts_data : List TsData → List ℕ
write_all_ts_data [] = []
write_all_ts_data (t ∷ ts) = write_ts_data t.0 ++ (write_descriptors t.1 ++ write_all_ts_data ts)

pub record IsTsData (t : TsData) : Type 0 where
  pub transport_stream_id : t.0.transport_stream_id < 2 ^ 16
  pub original_network_id : t.0.original_network_id < 2 ^ 16
  pub reserved_future_use : t.0.reserved_future_use < 16
  pub transport_descriptors_length :
      t.0.transport_descriptors_length ≡ length (write_descriptors t.1)
  pub num_descriptors : t.0.num_descriptors ≡ length t.1
  pub short : All IsShort t.1

abbrev pub all_ts_read : ℕ → List TsData → List (NitTsData × List Call)
all_ts_read o [] = []
all_ts_read o (t ∷ ts) =
    (t.0, calls_of (o + 6) t.1) ∷ all_ts_read (o + (6 + t.0.transport_descriptors_length)) ts

word_there : (n : ℕ) → n < 2 ^ 16 → convert_to_16 (n / 256) (n % 256) ≡ n
word_there n h = omega (arith, convert_to_16_lem (n / 256) (n % 256) (omega arith) (omega arith))

few_descriptors : (ds : List Descriptor) → length ds ≤ length (write_descriptors ds)
few_descriptors [] = omega arith
few_descriptors (d ∷ ds) =
    omega (arith, length-append d.body (write_descriptors ds), few_descriptors ds)

descriptors_there :
    (payload : List ℕ) (place len : ℕ) (ds : List Descriptor)
    → Stands payload place (write_descriptors ds)
    → All IsShort ds
    → len ≡ length (write_descriptors ds)
    → len < 2 ^ 8
    → descriptors_at payload place len ≡ ok (parsed (length ds, calls_of place ds))
unfolding descriptors_at
descriptors_there payload place len ds h short e few =
    let f = few_descriptors ds in
    let eight : length ds % 2 ^ 8 ≡ length ds = omega (arith, f, e) in
    let zero_ : 0 + length ds ≡ length ds = omega arith in
    rw (count_lem payload place ds 4097 len 0 h short e (omega (arith, f, e)))
      (rw zero_ (rw eight (rw (parse_lem payload place ds h) refl)))

module _ (payload : List ℕ) (o : ℕ) (t : NitTsData) (ds : List Descriptor) (ts : List TsData)
    (v : IsTsData (t, ds)) (h : Stands payload o (write_all_ts_data ((t, ds) ∷ ts)))
    (few : t.transport_descriptors_length < 2 ^ 8) where
  ts_part : Stands payload o (write_ts_data t)
  ts_part = left_part payload o (write_ts_data t) (write_descriptors ds ++ write_all_ts_data ts) h

  behind_ts : Stands payload (o + 6) (write_descriptors ds ++ write_all_ts_data ts)
  behind_ts =
      right_part payload o (write_ts_data t) (write_descriptors ds ++ write_all_ts_data ts) h

  pub ts_data_there : ts_data_at payload o ≡ ok (parsed (t, calls_of (o + 6) ds))
  unfolding ts_data_at
  ts_data_there =
      let small : t.transport_descriptors_length < 2 ^ 12 = omega arith in
      let len =
        length_there t.reserved_future_use t.transport_descriptors_length v.reserved_future_use
          small in
      let reserved =
        reserved_there t.reserved_future_use t.transport_descriptors_length v.reserved_future_use
          small in
      let first = word_there t.transport_stream_id v.transport_stream_id in
      let second = word_there t.original_network_id v.original_network_id in
      rw
        (
          at16-Stands payload o (write_ts_data t) ts_part 0 o (omega arith) (omega arith),
          at16-Stands payload o (write_ts_data t) ts_part 2 (o + 2) (omega arith) refl,
          at-Stands payload o (write_ts_data t) ts_part 4 (o + 4) (omega arith) refl,
          at16-Stands payload o (write_ts_data t) ts_part 4 (o + 4) (omega arith) refl,
        )
        (rw (len, reserved, first, second)
          (rw
            (descriptors_there payload (o + 6) t.transport_descriptors_length ds
              (left_part payload (o + 6) (write_descriptors ds) (write_all_ts_data ts) behind_ts)
              v.short v.transport_descriptors_length few)
            (rw (← v.num_descriptors) refl)))

-- What stands behind the header: the descriptors of the network with their length, and the transport streams
-- with theirs.
abbrev pub write_nit : NitTable → List Descriptor → List TsData → List ℕ
write_nit t ds ts =
    write_length t.reserved_4 t.network_descriptors_length
    ++ (write_descriptors ds
        ++ (write_length t.reserved_5 t.transport_stream_loop_length ++ write_all_ts_data ts))

pub record IsNit (t : NitTable) (ds : List Descriptor) (ts : List TsData) : Type 0 where
  pub reserved_4 : t.reserved_4 < 16
  pub network_descriptors_length : t.network_descriptors_length ≡ length (write_descriptors ds)
  pub num_descriptors : t.num_descriptors ≡ length ds
  pub short : All IsShort ds
  pub reserved_5 : t.reserved_5 < 16
  pub transport_stream_loop_length : t.transport_stream_loop_length ≡ length (write_all_ts_data ts)
  pub all_ts : All IsTsData ts

module _ (payload : List ℕ) (t : NitTable) (ds : List Descriptor) (ts : List TsData)
    (v : IsNit t ds ts) (h : Stands payload 8 (write_nit t ds ts))
    (few : 12 + t.network_descriptors_length + t.transport_stream_loop_length < 2 ^ 8) where
  abbrev place : ℕ
  place = 10 + t.network_descriptors_length

  abbrev lengths : List ℕ
  lengths = write_length t.reserved_5 t.transport_stream_loop_length
