-- ===== src/Tables/Nit/Wrap.antt =====
-- src/tables/nit.c: the offset of eight bits, behind which the loop does not come.
use demuxfs.Prelude.{
  ℕ, zero, suc, ◌+◌, ◌*◌, ◌%◌, ◌^◌, ◌<◌, ◌≡◌, refl, true, false, List, ltb, ok, arith, replicate,
}
use demuxfs.Tables.{parsed}
use demuxfs.Tables.Descriptors.{Call}
use demuxfs.Tables.Nit.{NitTsData, ts_data_at, ts_data_from}

again :
    (payload : List ℕ) (rounds o i k len : ℕ) (d : NitTsData × List Call)
    → ts_data_at payload o ≡ ok (parsed d)
    → d.0.transport_descriptors_length ≡ 250
    → o < 2 ^ 8
    → len ≡ i + 256 * k
    → k < rounds
    → ts_data_from rounds payload o i len ≡ ok (parsed (replicate k d))
unfolding ts_data_from
again payload zero o i k len d e n h l r = absurd (omega arith)
again payload (suc rounds) o i zero len d e n h l r =
    let t : ltb i len ≡ false = ground (arith, l) in rw t refl
again payload (suc rounds) o i (suc k) len d e n h l r =
    let t : ltb i len ≡ true = ground (arith, l) in
    let same : (o + (6 + d.0.transport_descriptors_length)) % 2 ^ 8 ≡ o = omega (arith, n) in
    let ih =
      again payload rounds o (i + (6 + d.0.transport_descriptors_length)) k len d e n h
        (omega (arith, l, n)) (omega (arith, r)) in
    rw (t, e) (rw same (rw ih refl))

-- Where the transport streams of a table take 256 bytes each, all but the first of them are lost: from one
-- with 250 bytes of descriptors on, the loop over `k` times 256 bytes reads this one `k` times.
pub ts_data_from-lost :
    (payload : List ℕ) (o k : ℕ) (d : NitTsData × List Call)
    → ts_data_at payload o ≡ ok (parsed d)
    → d.0.transport_descriptors_length ≡ 250
    → o < 2 ^ 8
    → 256 * k < 2 ^ 12
    → ts_data_from 4096 payload o 0 (256 * k) ≡ ok (parsed (replicate k d))
ts_data_from-lost payload o k d e n h short =
    again payload 4096 o 0 k (256 * k) d e n h (omega arith) (omega arith)
