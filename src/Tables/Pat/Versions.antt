-- ===== src/Tables/Pat/Versions.antt =====
-- src/tables/pat.c: the versions of a table, and the parsers of its programs.
use demuxfs.Prelude.{
  ℕ, zero, suc, ◌≡◌, refl, ap, ◌∙◌, true, false, Option, none, some, List, [], ◌∷◌, ◌==◌,
  if◌then◌else◌, arith,
}
use demuxfs.Hash.{HashTable, hashtable_get, hashtable_add}
use demuxfs.Hash.Laws.{IsValid}
use demuxfs.Hash.Add.{get-add, hashtable_add-IsValid}
use demuxfs.Ts.Parsers.{Parser, nit_parse, pmt_parse}
use demuxfs.Tables.Pat.{PatProgram, Table, parser_of, register, pat_populate}

-- The parser that a program is to have: program 0 stands for the network information table.
abbrev pub wanted : ℕ → Parser
wanted zero = nit_parse
wanted (suc n) = pmt_parse

parser_of-wanted : (n : ℕ) → parser_of n ≡ wanted n
parser_of-wanted zero = refl
parser_of-wanted (suc n) = let other : (suc n == 0) ≡ false = ground arith in rw other refl

-- There is room for the parser of each program that needs one.
abbrev pub HasRoom : HashTable Table → HashTable Parser → List PatProgram → Type 0
HasRoom psi_tables psi_parsers [] = Unit {0}
HasRoom psi_tables psi_parsers (p ∷ ps) =
    ((hashtable_add psi_parsers p.pid (some (wanted p.program_number)) false).0 ≡ true)
    × HasRoom psi_tables (register (hashtable_get psi_tables p.pid) psi_parsers p) ps

-- What a program makes of the parser that the PID `q` has had.
abbrev pub parser_after : Option Table → PatProgram → ℕ → Option Parser → Option Parser
parser_after (some existing) p q before = before
parser_after none p q before = if q == p.pid then some (wanted p.program_number) else before

abbrev pub parser_after_all : HashTable Table → List PatProgram → ℕ → Option Parser → Option Parser
parser_after_all psi_tables [] q before = before
parser_after_all psi_tables (p ∷ ps) q before =
    parser_after_all psi_tables ps q (parser_after (hashtable_get psi_tables p.pid) p q before)

register_lem :
    (existing : Option Table) (t : HashTable Parser) (p : PatProgram)
    → IsValid t
    → (hashtable_add t p.pid (some (wanted p.program_number)) false).0 ≡ true
    → IsValid (register existing t p)
      × ((q : ℕ)
          → hashtable_get (register existing t p) q ≡ parser_after existing p q (hashtable_get t q))
register_lem (some existing) t p v room = (v, λ q. refl)
register_lem none t p v room =
    rw (parser_of-wanted p.program_number, register)
      (
        hashtable_add-IsValid t v p.pid (some (wanted p.program_number)) false,
        get-add t v p.pid (some (wanted p.program_number)) false room,
      )

-- With room for the parsers, the parser of every PID after pat_populate is that of the last program with the
-- PID, the one of the NIT for program 0 and that of the PMT for another, unless the hash table of tables has
-- something under the PID; the PIDs of no program keep what they had.
pub pat_populate-get :
    (psi_tables : HashTable Table) (psi_parsers : HashTable Parser) (ps : List PatProgram)
    → IsValid psi_parsers
    → HasRoom psi_tables psi_parsers ps
    → IsValid (pat_populate psi_tables psi_parsers ps)
      × ((q : ℕ)
          → hashtable_get (pat_populate psi_tables psi_parsers ps) q
            ≡ parser_after_all psi_tables ps q (hashtable_get psi_parsers q))
unfolding pat_populate
pat_populate-get psi_tables psi_parsers [] v room = (v, λ q. refl)
pat_populate-get psi_tables psi_parsers (p ∷ ps) v (room, rest) =
    let existing = hashtable_get psi_tables p.pid in
    let (v', one) = register_lem existing psi_parsers p v room in
    let (v'', all) = pat_populate-get psi_tables (register existing psi_parsers p) ps v' rest in
    (v'', λ q. all q ∙ ap (parser_after_all psi_tables ps q) (one q))
