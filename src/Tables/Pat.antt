-- ===== src/Tables/Pat.antt =====
-- src/tables/pat.c, src/tables/pat.h: the programs of a program allocation table, the parsers that are
-- registered for them, and the versions of the table. The entries that are made in the tree are left out.
pub mod Programs
pub mod Versions
use demuxfs.Prelude.{
  ℕ, zero, suc, ◌+◌, ◌-◌, ◌*◌, ◌/◌, ◌%◌, ◌^◌, Bool, true, false, not, ◌&&◌, ◌||◌, Option, none,
  some, List, [], ◌∷◌, leb, ◌==◌, if◌then◌else◌, Run, ok, fault, ◌>>=◌, bit_and,
}
use demuxfs.Byteops.{char_shift_right}
use demuxfs.Hash.{HashTable, hashtable_get, hashtable_add}
use demuxfs.Ts.Header.{TsHeader}
use demuxfs.Ts.Parsers.{Parser, pmt_parse, nit_parse}
use demuxfs.Ts.Packet.{Tables}
use demuxfs.Psi.{PsiHeader, psi_parse}
use demuxfs.Tables.{at, at16}

pub record PatProgram : Type 0 where
  pub program_number : ℕ
  pub reserved : ℕ
  pub pid : ℕ

-- The number is computed as an int, whose division rounds towards 0, and kept in sixteen bits.
unfoldable pub num_programs : ℕ → ℕ
num_programs section_length =
    if leb 9 section_length
    then (section_length - 9) / 4
    else (2 ^ 16 - (9 - section_length) / 4) % 2 ^ 16

-- The three bits of `reserved` keep the low bits of what is assigned.
unfoldable pub program_at : List ℕ → ℕ → Run PatProgram
program_at payload offset = at16 payload offset >>= λ program_number.
    at payload (offset + 2) >>= λ b. at16 payload (offset + 2) >>= λ pid. ok record {
      program_number = program_number;
      reserved = char_shift_right b 4 % 8;
      pid = bit_and pid 0x1fff;
    }

-- The loop over `n` programs, from the i-th on.
unfoldable pub programs_from : ℕ → List ℕ → ℕ → Run (List PatProgram)
programs_from zero payload i = ok []
programs_from (suc n) payload i = program_at payload ((8 + i * 4) % 2 ^ 16) >>= λ program.
    programs_from n payload (i + 1) >>= λ rest. ok (program ∷ rest)

-- A structure that stands in the hash table of tables: a PAT, or another one with the same header.
pub data Table : Type 0 where
  pat_table : PsiHeader → List PatProgram → Table
  other_table : PsiHeader → Table

abbrev pub header_of : Table → PsiHeader
header_of (pat_table h programs) = h
header_of (other_table h) = h

-- The tables that a parser works on: the parsers of the PIDs, and the hash table of tables.
abbrev pub State : Type 0
State = Tables (HashTable Table)

abbrev pub parser_of : ℕ → Parser
parser_of program_number = if program_number == 0 then nit_parse else pmt_parse

-- A parser for the PID of a program, unless the hash table of tables has something under the PID.
abbrev pub register : Option Table → HashTable Parser → PatProgram → HashTable Parser
register (some existing) psi_parsers p = psi_parsers
register none psi_parsers p =
    (hashtable_add psi_parsers p.pid (some (parser_of p.program_number)) false).1

-- The loop of pat_populate.
unfoldable pub pat_populate :
    HashTable Table → HashTable Parser → List PatProgram → HashTable Parser
pat_populate psi_tables psi_parsers [] = psi_parsers
pat_populate psi_tables psi_parsers (p ∷ ps) =
    pat_populate psi_tables (register (hashtable_get psi_tables p.pid) psi_parsers p) ps

-- TS_PACKET_HASH_KEY
unfoldable pub hash_key : TsHeader → PsiHeader → ℕ
hash_key header h = header.pid % 2 ^ 16 * 2 ^ 8 + h.table_id

-- The table is not for now, or its version is the one that is known.
unfoldable pub is_skipped : PsiHeader → Option Table → Bool
is_skipped h current =
    h.current_next_indicator == 0
    || elim current [ none ↦ false | some t ↦ (header_of t).version_number == h.version_number ]

-- A table that was not known is put into the hash table. The entry of a known version has the name PAT in
-- the root already, so CREATE_COMMON gives it to the new one too; it is freed with the tree of the old
-- version, and the keys of the deletion and of the addition are then read from it: a fault.
unfoldable pub replace_table : HashTable Table → ℕ → Option Table → Table → Run (HashTable Table)
replace_table psi_tables key none table = ok (hashtable_add psi_tables key (some table) true).1
replace_table psi_tables key (some old) table = fault

-- What pat_parse does with a section whose header is `h`.
unfoldable pub take_section : TsHeader → List ℕ → PsiHeader → State → Run State
take_section header payload h s =
    let key = hash_key header h in
    let current = hashtable_get s.others key in
    if is_skipped h current
    then ok s
    else (programs_from (num_programs h.section_length) payload 0 >>= λ programs.
        replace_table s.others key current (pat_table h programs) >>= λ others.
        ok (record s {
          psi_parsers = pat_populate s.others s.psi_parsers programs;
          others = others;
        }))

unfoldable pub pat_parse : TsHeader → List ℕ → State → Run State
unfolding take_section
pat_parse header payload s = elim (psi_parse payload) [
  | none ↦ ok s
  | some h ↦ take_section header payload h s
]
