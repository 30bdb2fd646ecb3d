-- ===== src/Ts/Parsers.antt =====
-- src/ts.c: which packets carry PSI or PES data, and which parser a section goes to.
-- A parser is a function pointer: one of the table in `ts_get_psi_parser`, or one that another part
-- of the program has registered in a hash table.
use demuxfs.Prelude.{
  ℕ, Bool, true, false, ◌&&◌, ◌||◌, Option, none, some, List, [], ◌∷◌, ◌==◌, if◌then◌else◌,
}
use demuxfs.Hash.{HashTable, hashtable_get}
use demuxfs.Ts.Header.{TsHeader}

pub data Parser : Type 0 where
  pat_parse pmt_parse nit_parse sdt_parse tot_parse sdtt_parse eit_parse : Parser
  registered : ℕ → Parser

-- The PIDs of the `switch`.
abbrev pub psi_pids : List ℕ
psi_pids =
    0x00 ∷ 0x01 ∷ 0x10 ∷ 0x11 ∷ 0x12 ∷ 0x26 ∷ 0x27 ∷ 0x13 ∷ 0x14 ∷ 0x17 ∷ 0x1E ∷ 0x1F ∷ 0x22 ∷ 0x23
    ∷ 0x28 ∷ 0x24 ∷ 0x25 ∷ 0x29 ∷ 0x1FFF ∷ []

unfoldable pub is_among : ℕ → List ℕ → Bool
is_among pid [] = false
is_among pid (p ∷ pids) = pid == p || is_among pid pids

abbrev pub is_set {ℓ} : {A : Type ℓ} → Option A → Bool
is_set none = false
is_set (some a) = true

unfoldable pub ts_is_psi_packet : ℕ → HashTable Parser → Bool
ts_is_psi_packet pid psi_parsers = is_among pid psi_pids || is_set (hashtable_get psi_parsers pid)

unfoldable pub ts_is_pes_packet : ℕ → HashTable Parser → Bool
ts_is_pes_packet pid pes_parsers = is_set (hashtable_get pes_parsers pid)

-- A row; a PID of -1 is `none`.
pub record PacketParser : Type 0 where
  pub table_id : ℕ
  pub pid : Option ℕ
  pub parser : Parser

abbrev pub row : ℕ → Option ℕ → Parser → PacketParser
row table_id pid parser = record { table_id = table_id; pid = pid; parser = parser }

abbrev pub parsers : List PacketParser
parsers =
    row 0x00 (some 0x00) pat_parse
    ∷ row 0x02 none pmt_parse
    ∷ row 0x40 (some 0x10) nit_parse
    ∷ row 0x42 (some 0x11) sdt_parse
    ∷ row 0x73 none tot_parse
    ∷ row 0xc3 (some 0x23) sdtt_parse
    ∷ row 0xc3 (some 0x28) sdtt_parse
    ∷ row 0x4e none eit_parse
    ∷ row 0x4e none eit_parse
    ∷ row 0x4e none eit_parse
    ∷ row 0x50 none eit_parse
    ∷ row 0x51 none eit_parse
    ∷ row 0x52 none eit_parse
    ∷ row 0x53 none eit_parse
    ∷ row 0x54 none eit_parse
    ∷ row 0x55 none eit_parse
    ∷ row 0x56 none eit_parse
    ∷ row 0x57 none eit_parse
    ∷ row 0x58 none eit_parse
    ∷ row 0x59 none eit_parse
    ∷ row 0x5a none eit_parse
    ∷ row 0x5b none eit_parse
    ∷ row 0x5c none eit_parse
    ∷ row 0x5d none eit_parse
    ∷ row 0x5e none eit_parse
    ∷ row 0x5f none eit_parse
    ∷ []

-- `pid == -1 || pid == this`
abbrev pub takes_pid : Option ℕ → ℕ → Bool
takes_pid none this = true
takes_pid (some p) this = p == this

-- The loop over the rows.
unfoldable pub find_parser : List PacketParser → ℕ → ℕ → Option Parser
find_parser [] table_id pid = none
find_parser (r ∷ rows) table_id pid =
    if table_id == r.table_id && takes_pid r.pid pid
    then some r.parser
    else find_parser rows table_id pid

unfoldable pub ts_get_psi_parser : TsHeader → ℕ → HashTable Parser → Option Parser
ts_get_psi_parser header table_id psi_parsers = elim (hashtable_get psi_parsers header.pid) [
  | some parser ↦ some parser
  | none ↦ find_parser parsers table_id header.pid
]
