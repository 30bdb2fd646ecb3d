-- ===== src/Dsmcc/Ddb/Encode.antt =====
-- src/dsm-cc/ddb.c: the block that is written in a section is found.
use demuxfs.Prelude.{
  ℕ, ◌+◌, ◌-◌, ◌%◌, ◌^◌, ◌≤◌, ◌<◌, ◌≡◌, refl, ap, sym, ◌∙◌, Bool, true, false, some, List, ◌∷◌,
  ◌++◌, length, drop, ltb, ◌==◌, drop-drop, length-drop, ok, arith, length-append,
}
use demuxfs.Cursor.{cursor, Parse, ◌>>-◌, give, u8, u16}
use demuxfs.Cursor.Forward.{
  Forward, left_over, reads_bind, reads_if, stays, bytes-Forward, u8-Forward, u16-Forward,
  u32-Forward,
}
use demuxfs.Cursor.Laws.{be16, u8_lem, u16-be16, bytes_lem, and_then, same_place, drop-append_self}
use demuxfs.Psi.{PsiHeader, psi_parse}
use demuxfs.Psi.Decode.{IsPsiHeader, encode_psi_header, psi_parse-encode}
use demuxfs.Dsmcc.{
  DsmccMessageHeader, adaptation_header, dsmcc_parse_message_header,
  dsmcc_parse_download_data_header,
}
use demuxfs.Dsmcc.Encode.{
  IsDsmccMessageHeader, size_adaptation, write_dsmcc_message_header,
  dsmcc_parse_message_header-write,
}
use demuxfs.Dsmcc.Ddb.{
  DdbBlock, is_no_block, block_size_of, this_block_size, block_behind, ddb_block,
}

-- A block of at least one byte, whose size the header of its message tells.
pub record IsBlock (h : DsmccMessageHeader) (b : DdbBlock) : Type 0 where
  pub header : IsDsmccMessageHeader h
  pub dsmcc_type : h.dsmcc_type ≡ 0x03
  pub message_id : h.message_id ≡ 0x1003
  pub module_id : b.module_id < 2 ^ 16
  pub block_number : b.block_number < 2 ^ 16
  pub block_data_size : b.block_data_size ≡ length b.contents
  pub filled : 1 ≤ b.block_data_size
  pub message_length : h.message_length ≡ h.adaptation_length + 6 + b.block_data_size

abbrev pub write_block : DdbBlock → List ℕ → List ℕ
write_block b s =
    be16 b.module_id ++ (b.module_version ∷ b.reserved ∷ (be16 b.block_number ++ (b.contents ++ s)))

abbrev pub write_ddb : PsiHeader → DsmccMessageHeader → DdbBlock → List ℕ → List ℕ
write_ddb psi h b crc = encode_psi_header psi ++ write_dsmcc_message_header h (write_block b crc)

adaptation-Forward : (n : ℕ) → Forward (adaptation_header n)
unfolding adaptation_header
adaptation-Forward n =
    reads_if (n == 0) _ _ stays
      (reads_bind _ _ u8-Forward (λ _. reads_bind _ _ (bytes-Forward n) (λ _. stays)))

header-Forward : Forward dsmcc_parse_download_data_header
unfolding dsmcc_parse_download_data_header dsmcc_parse_message_header
header-Forward = reads_bind _ _ u8-Forward (λ _. reads_bind _ _ u8-Forward (λ _.
    reads_bind _ _ u16-Forward (λ _. reads_bind _ _ u32-Forward (λ _.
      reads_bind _ _ u8-Forward (λ _. reads_bind _ _ u8-Forward (λ n.
        reads_bind _ _ u16-Forward (λ _. reads_bind _ _ (adaptation-Forward n) (λ _. stays))))))))

-- The header and the fields of a block, and no more.
head_of_block : Parse (Unit {0})
head_of_block = dsmcc_parse_download_data_header >>- λ h.
    u16 >>- λ a. u8 >>- λ b. u8 >>- λ c. u16 >>- λ d. give tt

-- The number of the bytes in front of the contents.
abbrev pub size_head : DsmccMessageHeader → ℕ
size_head h = 12 + size_adaptation h.adaptation_length h.dsmcc_adaptation_header + 6

module _ (h : DsmccMessageHeader) (b : DdbBlock) (crc : List ℕ) (v : IsBlock h b) where
  abbrev section : List ℕ
  section = write_dsmcc_message_header h (write_block b crc)

  header_read :
      dsmcc_parse_download_data_header (cursor section 8)
      ≡ ok (
        h,
        cursor
            (write_block b crc)
            (8 + (12 + size_adaptation h.adaptation_length h.dsmcc_adaptation_header)),
      )
  unfolding dsmcc_parse_download_data_header
  header_read = dsmcc_parse_message_header-write h (write_block b crc) 8 v.header

  head_read :
      head_of_block (cursor section 8) ≡ ok (tt, cursor (b.contents ++ crc) (8 + size_head h))
  unfolding head_of_block
  head_read = and_then _ _ header_read (
      and_then _ _ (u16-be16 b.module_id _ _ v.module_id) (
        and_then _ _ (u8_lem _ _ _) (
          and_then _ _ (u8_lem _ _ _) (
            and_then _ _ (u16-be16 b.block_number _ _ v.block_number)
              (same_place tt (b.contents ++ crc) (omega arith))))))

  contents_left : drop (size_head h) section ≡ b.contents ++ crc
  unfolding head_of_block
  contents_left =
      left_over head_of_block tt section (b.contents ++ crc) 8 (size_head h)
        (reads_bind _ _ header-Forward (λ _. reads_bind _ _ u16-Forward (λ _.
          reads_bind _ _ u8-Forward
            (λ _. reads_bind _ _ u8-Forward (λ _. reads_bind _ _ u16-Forward (λ _. stays))))))
        head_read

  a_block : is_no_block h ≡ false
  unfolding is_no_block
  a_block =
      let kind : (h.dsmcc_type == 0x03) ≡ true = ground (arith, v.dsmcc_type) in
      let id : (h.message_id == 0x1003) ≡ true = ground (arith, v.message_id) in
      let long : ltb h.message_length 5 ≡ false = ground (arith, v.message_length) in
      rw (kind, id, long) refl

-- Where the contents of a block stand in a payload of less than 2 ^ 16 bytes, with four bytes behind them.
block_found :
    (known : ℕ → ℕ → Bool) (payload : List ℕ) (h : DsmccMessageHeader) (b : DdbBlock) (crc : List ℕ)
    (j : ℕ)
    → IsBlock h b
    → length crc ≡ 4
    → length payload < 2 ^ 16
    → drop (j + 6) payload ≡ b.contents ++ crc
    → known b.module_id b.block_number ≡ false
    → block_behind known payload h (cursor (write_block b crc) j)
      ≡ ok (some b, cursor crc (j + 6 + b.block_data_size))
unfolding block_behind block_size_of this_block_size
block_found known payload h b crc j v ec short there new =
    let size = v.block_data_size in
    let len = length-drop (j + 6) payload in
    let len' : length (drop (j + 6) payload) ≡ length (b.contents ++ crc) = ap length there in
    let sum = length-append b.contents crc in
    let total : length payload ≡ j + 6 + b.block_data_size + 4 =
      omega (arith, len, len', sum, ec, size, v.filled) in
    let bds : (h.message_length + 2 ^ 16 - (h.adaptation_length + 6)) % 2 ^ 16 ≡ b.block_data_size =
      omega (arith, v.message_length, total, short) in
    let some_bytes : (b.block_data_size == 0) ≡ false = ground (arith, v.filled) in
    let here : j + 2 + 1 + 1 + 2 ≡ j + 6 = omega arith in
    let start : (j + 6) % 2 ^ 16 ≡ j + 6 = omega (arith, total, short) in
    let this : (length payload + 2 ^ 32 - (j + 6 + 4)) % 2 ^ 16 ≡ b.block_data_size =
      omega (arith, total, short) in
    and_then _ _ (u16-be16 b.module_id _ _ v.module_id) (
      and_then _ _ (u8_lem _ _ _) (
        and_then _ _ (u8_lem _ _ _) (
          and_then _ _ (u16-be16 b.block_number _ _ v.block_number) (
            rw (bds, some_bytes, new)
              (rw here (
                rw (start, this)
                  (rw there (
                    and_then _ _ (bytes_lem b.block_data_size b.contents crc (j + 6) (sym size))
                      refl))))))))

-- From a section of less than 2 ^ 16 bytes with the header of a table that is for now, the header of a data
-- block whose lengths are those of the block, the block and four bytes of CRC, ddb_parse takes the block: its
-- numbers, and as its contents the bytes between the header and the CRC, when it has not had the block yet.
pub ddb_block-write :
    (known : ℕ → ℕ → Bool) (psi : PsiHeader) (h : DsmccMessageHeader) (b : DdbBlock) (crc : List ℕ)
    → IsPsiHeader psi
    → psi.current_next_indicator ≡ 1
    → IsBlock h b
    → length crc ≡ 4
    → length (write_ddb psi h b crc) < 2 ^ 16
    → known b.module_id b.block_number ≡ false
    → ddb_block known (write_ddb psi h b crc) ≡ ok (some b)
unfolding ddb_block
ddb_block-write known psi h b crc vp now v ec short new =
    let payload = write_ddb psi h b crc in
    let n = 12 + size_adaptation h.adaptation_length h.dsmcc_adaptation_header in
    let head : psi_parse payload ≡ some psi = psi_parse-encode psi (section h b crc v) vp in
    let test : (psi.current_next_indicator == 0) ≡ false = ground (arith, now) in
    let behind : drop 8 payload ≡ section h b crc v =
      drop-append_self (encode_psi_header psi) (section h b crc v) in
    let place_ : 8 + (12 + size_adaptation h.adaptation_length h.dsmcc_adaptation_header + 6)
        ≡ 8 + n + 6 =
      omega arith in
    let there : drop (8 + n + 6) payload ≡ b.contents ++ crc = rw (← place_) (
      sym (drop-drop 8 (size_head h) payload)
      ∙ ap (drop (size_head h)) behind
      ∙ contents_left h b crc v) in
    let found = block_found known payload h b crc (8 + n) v ec short there new in
    rw (head, ddb_block)
      (rw test (rw behind (rw (header_read h b crc v) (rw (a_block h b crc v) (rw found refl)))))
