-- ===== src/Dsmcc/Encode.antt =====
-- src/dsm-cc/dsmcc.c: message headers are read back.
use demuxfs.Prelude.{
  ℕ, ◌+◌, ◌^◌, ◌<◌, ◌≤◌, ◌≡◌, false, Option, none, some, List, ◌∷◌, ◌++◌, length, ok, arith, ◌==◌,
}
use demuxfs.Cursor.{cursor}
use demuxfs.Cursor.Laws.{be16, be32, u8_lem, u16-be16, u32-be32, bytes_lem, and_then, same_place}
use demuxfs.Dsmcc.{
  DsmccAdaptationHeader, DsmccMessageHeader, adaptation_header, dsmcc_parse_message_header,
}

-- An adaptation header of one byte and as many bytes of data as are announced; none for no bytes.
pub data IsAdaptation : ℕ → Option DsmccAdaptationHeader → Type 0 where
  no_adaptation : (n : ℕ) → n ≡ 0 → IsAdaptation n none
  adaptation :
      (n : ℕ) (h : DsmccAdaptationHeader)
      → 1 ≤ n
      → length h.adaptation_data_bytes ≡ n
      → IsAdaptation n (some h)

abbrev pub write_adaptation : Option DsmccAdaptationHeader → List ℕ → List ℕ
write_adaptation none s = s
write_adaptation (some h) s = h.adaptation_type ∷ (h.adaptation_data_bytes ++ s)

abbrev pub size_adaptation : ℕ → Option DsmccAdaptationHeader → ℕ
size_adaptation n none = 0
size_adaptation n (some h) = 1 + n

adaptation_header-write :
    (n : ℕ) (a : Option DsmccAdaptationHeader) (s : List ℕ) (j : ℕ)
    → IsAdaptation n a
    → adaptation_header n (cursor (write_adaptation a s) j)
      ≡ ok (a, cursor s (j + size_adaptation n a))
unfolding adaptation_header
adaptation_header-write n _ s j (no_adaptation _ e) = rw e (same_place none s (omega arith))
adaptation_header-write n _ s j (adaptation _ h some_ e) =
    let test : (n == 0) ≡ false = ground arith in
    rw test (
      and_then _ _ (u8_lem _ _ _) (
        and_then _ _ (bytes_lem n h.adaptation_data_bytes s _ e)
          (same_place (some h) s (omega arith))))

pub record IsDsmccMessageHeader (h : DsmccMessageHeader) : Type 0 where
  pub message_id : h.message_id < 2 ^ 16
  pub transaction_id : h.transaction_id < 2 ^ 32
  pub message_length : h.message_length < 2 ^ 16
  pub adaptation : IsAdaptation h.adaptation_length h.dsmcc_adaptation_header

abbrev pub write_dsmcc_message_header : DsmccMessageHeader → List ℕ → List ℕ
write_dsmcc_message_header h s =
    h.protocol_discriminator
    ∷ h.dsmcc_type
    ∷ (be16 h.message_id
        ++ (be32 h.transaction_id
            ++ (h.reserved
                ∷ h.adaptation_length
                ∷ (be16 h.message_length ++ write_adaptation h.dsmcc_adaptation_header s))))

-- Parsing a message header gives it back, with its adaptation header, and leaves what follows it.
pub dsmcc_parse_message_header-write :
    (h : DsmccMessageHeader) (s : List ℕ) (j : ℕ)
    → IsDsmccMessageHeader h
    → dsmcc_parse_message_header (cursor (write_dsmcc_message_header h s) j)
      ≡ ok (h, cursor s (j + (12 + size_adaptation h.adaptation_length h.dsmcc_adaptation_header)))
unfolding dsmcc_parse_message_header
dsmcc_parse_message_header-write h s j v = and_then _ _ (u8_lem _ _ _) (
    and_then _ _ (u8_lem _ _ _) (
      and_then _ _ (u16-be16 h.message_id _ _ v.message_id) (
        and_then _ _ (u32-be32 h.transaction_id _ _ v.transaction_id) (
          and_then _ _ (u8_lem _ _ _) (
            and_then _ _ (u8_lem _ _ _) (
              and_then _ _ (u16-be16 h.message_length _ _ v.message_length) (
                and_then _ _
                  (adaptation_header-write h.adaptation_length h.dsmcc_adaptation_header s _
                    v.adaptation)
                  (same_place h s (omega arith)))))))))
