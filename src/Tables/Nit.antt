-- ===== src/Tables/Nit.antt =====
-- src/tables/nit.c, src/tables/nit.h: the transport streams of a network information table. The payload has
-- at least the eight bytes of the header that psi_parse asks for. The entries that are made in the tree and
-- the warnings are left out.
pub mod Encode
pub mod Wrap
use demuxfs.Prelude.{
  ℕ, zero, suc, ◌+◌, ◌%◌, ◌^◌, Option, none, some, List, [], ◌∷◌, ltb, if◌then◌else◌, Run, ok,
  ◌>>=◌, bit_and,
}
use demuxfs.Byteops.{char_shift_right}
use demuxfs.Tables.{at, at16, Parsed, parsed, unfinished, then_parse}
use demuxfs.Tables.Descriptors.{Call, descriptors_parse, descriptors_count}

pub record NitTsData : Type 0 where
  pub transport_stream_id : ℕ
  pub original_network_id : ℕ
  pub reserved_future_use : ℕ
  pub transport_descriptors_length : ℕ
  pub num_descriptors : ℕ

pub record NitTable : Type 0 where
  pub reserved_4 : ℕ
  pub network_descriptors_length : ℕ
  pub num_descriptors : ℕ
  pub reserved_5 : ℕ
  pub transport_stream_loop_length : ℕ

-- What follows a count of descriptors.
abbrev pub when_counted {ℓ} : {A : Type ℓ} → (ℕ → Run (Parsed A)) → Option ℕ → Run (Parsed A)
when_counted f none = ok unfinished
when_counted f (some n) = f n

-- The descriptors of `len` bytes from `place` on are counted, and as many are parsed as the number says in
-- eight bits: the number, and the calls.
unfoldable pub descriptors_at : List ℕ → ℕ → ℕ → Run (Parsed (ℕ × List Call))
descriptors_at payload place len =
    descriptors_count 4097 payload place len 0
    >>= when_counted
        (λ n. descriptors_parse (n % 2 ^ 8) payload place >>= λ read. ok (parsed (n, read.1)))

-- A round of the loop: the data of a transport stream, with the calls of its descriptors' parsers.
unfoldable pub ts_data_at : List ℕ → ℕ → Run (Parsed (NitTsData × List Call))
ts_data_at payload offset = at16 payload offset >>= λ transport_stream_id.
    at16 payload (offset + 2) >>= λ original_network_id. at payload (offset + 4) >>= λ b.
    at16 payload (offset + 4) >>= λ len.
    descriptors_at payload (offset + 6) (bit_and len 0x0fff)
    >>= then_parse (λ d. ok (
        parsed (
          record {
            transport_stream_id = transport_stream_id;
            original_network_id = original_network_id;
            reserved_future_use = char_shift_right b 4 % 16;
            transport_descriptors_length = bit_and len 0x0fff;
            num_descriptors = d.0;
          },
          d.1,
        )))

-- The loop, with `i` of `len` bytes done; `offset` has eight bits. A round takes at least six bytes.
unfoldable pub ts_data_from : ℕ → List ℕ → ℕ → ℕ → ℕ → Run (Parsed (List (NitTsData × List Call)))
ts_data_from zero payload offset i len = ok unfinished
ts_data_from (suc rounds) payload offset i len =
    if ltb i len
    then (ts_data_at payload offset
        >>= then_parse (λ d.
          let next = 6 + d.0.transport_descriptors_length in
          ts_data_from rounds payload ((offset + next) % 2 ^ 8) (i + next) len
          >>= then_parse (λ rest. ok (parsed (d ∷ rest)))))
    else ok (parsed [])

-- The fields of nit_parse, with the calls of the parsers of the network's descriptors, and the transport
-- streams.
unfoldable pub nit_fields :
    List ℕ → Run (Parsed (NitTable × List Call × List (NitTsData × List Call)))
nit_fields payload = at payload 8 >>= λ b. at16 payload 8 >>= λ v.
    descriptors_at payload 10 (bit_and v 0x0fff)
    >>= then_parse (λ d.
      let offset = (10 + bit_and v 0x0fff) % 2 ^ 8 in
      at payload offset >>= λ c. at16 payload offset >>= λ w.
      ts_data_from 4096 payload ((offset + 2) % 2 ^ 8) 0 (bit_and w 0x0fff)
      >>= then_parse (λ ts. ok (
          parsed (
            record {
              reserved_4 = char_shift_right b 4 % 16;
              network_descriptors_length = bit_and v 0x0fff;
              num_descriptors = d.0;
              reserved_5 = char_shift_right c 4 % 16;
              transport_stream_loop_length = bit_and w 0x0fff;
            },
            d.1,
            ts,
          ))))
