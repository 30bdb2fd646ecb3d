-- ===== src/Ts/Laws.antt =====
-- src/ts.c: which parser a section goes to, and what the CRC check is used for.
use demuxfs.Prelude.{
  ℕ, ◌≤◌, ◌≡◌, ◌↔◌, inl, inr, refl, ◌∙◌, true, false, some, List, ◌==◌, if◌then◌else◌, ℤ, arith,
  All, Bool-cases,
}
use demuxfs.Byteops.{IsByte}
use demuxfs.Crc32.{crc32_check}
use demuxfs.Crc32.Table
use demuxfs.Crc32.Table.{crc, crc32_check-crc}
use demuxfs.Buffer.{Buffer, Allocator, byte_at}
use demuxfs.Buffer.Laws.{contents}
use demuxfs.Ts.Header.{TsHeader}
use demuxfs.Ts.Parsers.{Parser, parsers, find_parser, ts_get_psi_parser, eit_parse}
use demuxfs.Ts.Packet.{Options, Tables, Store}
use demuxfs.Ts.Packet.Psi.{hand_over}

module _ {W : Type 0} (a : Allocator) (parse : Parser → TsHeader → List ℕ → Tables W → ℤ × Tables W)
    (opt : Options) (header : TsHeader) (payload : List ℕ) (payload_end : ℕ) (b : Buffer)
    (s : Store W) (parser : Parser)
    (chosen : ts_get_psi_parser header (byte_at b 0) s.tables.psi_parsers ≡ some parser) where
  -- Where CRC errors are reported, the parser of a whole section is called, once and with exactly the
  -- bytes of the section, if the bit-serial CRC of those bytes is 0, and else nothing but the static
  -- state of the CRC check changes.
  pub hand_over-checked :
      opt.warns_of_crc_errors ≡ true
      → Table.IsValid s.crc32
      → All IsByte (contents b)
      → hand_over a parse opt header payload payload_end b s ≡ record s {
        crc32 = (crc32_check (contents b) s.crc32).1;
        tables =
            if crc (contents b) == 0
            then (parse parser header (contents b) s.tables).1
            else s.tables;
      }
  unfolding hand_over
  hand_over-checked warns v bytes =
      let right = (crc32_check-crc (contents b) s.crc32 v bytes).0 in
      elim (Bool-cases (crc (contents b) == 0)) [
        | inl good ↦ let r = right ∙ good in rw (r, good, chosen) refl
        | inr bad ↦ let r = right ∙ bad in rw (r, bad, warns) refl
      ]

  -- Where CRC errors are not reported, the parser is called with the bytes of the section whatever
  -- their CRC is.
  pub hand_over-unchecked :
      opt.warns_of_crc_errors ≡ false
      → (hand_over a parse opt header payload payload_end b s).tables
        ≡ (parse parser header (contents b) s.tables).1
  unfolding hand_over
  hand_over-unchecked silent = elim (Bool-cases (crc32_check (contents b) s.crc32).0) [
    | inl right ↦ rw (right, chosen) refl
    | inr wrong ↦ rw (wrong, silent, chosen) refl
  ]

-- Without a registered parser, a table id from 0x50 on goes to `eit_parse` exactly up to 0x5f, on
-- every PID.
pub eit_parser :
    (table_id pid : ℕ)
    → 0x50 ≤ table_id
    → (find_parser parsers table_id pid ≡ some eit_parse) ↔ (table_id ≤ 0x5f)
unfolding find_parser
eit_parser table_id pid h = (λ e. ground arith, λ r. ground arith)
