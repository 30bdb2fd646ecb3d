-- ===== src/Biop/Walk.antt =====
-- src/dsm-cc/biop.c: the loop over the messages of a module. The entries that are made of the messages are
-- left to the caller: the walk gives the messages in their order.
use demuxfs.Prelude.{
  ℕ, zero, suc, ◌+◌, ◌-◌, ◌%◌, ◌^◌, ◌<◌, ◌≡◌, refl, true, false, Option, none, some, List, [], ◌∷◌,
  drop, take, ltb, leb, if◌then◌else◌, Run, ok, ◌>>=◌, arith,
}
use demuxfs.Cursor.{Cursor, cursor, bytes}
use demuxfs.Cursor.Forward.{advanced}
use demuxfs.Biop.{MessageHeader}
use demuxfs.Biop.Message.{peek, biop_parse_message_header}
use demuxfs.Biop.Directory.{
  DirectoryMessage, FileMessage, biop_parse_directory_message, biop_parse_file_message,
}
use demuxfs.Fsutils.{same_string}

pub data Message : Type 0 where
  gateway_message : MessageHeader → DirectoryMessage → Message
  directory_message : MessageHeader → DirectoryMessage → Message
  file_message : MessageHeader → FileMessage → Message

-- The lookahead: what is taken for the length of the key is the byte behind it.
unfoldable pub object_kind : Cursor → Run (List ℕ)
unfolding peek
object_kind c = peek 1 c >>= λ n. bytes 4 (advanced (1 + n.0 + 4 + 4) c) >>= λ kind. ok kind.0

-- "srg", "dir" and "fil"
abbrev pub srg : List ℕ
srg = 115 ∷ 114 ∷ 103 ∷ []

abbrev pub dir : List ℕ
dir = 100 ∷ 105 ∷ 114 ∷ []

abbrev pub fil : List ℕ
fil = 102 ∷ 105 ∷ 108 ∷ []

abbrev with_header :
    {M : Type 0}
    → (M → Message)
    → (Cursor → Run ((M × ℕ) × Cursor))
    → Cursor
    → Run (Option (Message × ℕ))
with_header make parse c = parse c >>= λ r. ok (some (make r.0.0, r.0.1))

-- The message of this kind, and what its parser returns; `none` for a kind that has no parser.
unfoldable pub message_of : List ℕ → MessageHeader → Cursor → Run (Option (Message × ℕ))
message_of kind h c =
    if same_string (take 3 kind) srg
    then with_header (gateway_message h) biop_parse_directory_message c
    else if same_string (take 3 kind) dir
    then with_header (directory_message h) biop_parse_directory_message c
    else if same_string (take 3 kind) fil
    then with_header (file_message h) biop_parse_file_message c
    else ok none

abbrev after : Message → Run (Option (List Message)) → Run (Option (List Message))
after m rest = rest >>= λ r. ok (elim r [ none ↦ none | some ms ↦ some (m ∷ ms) ])

-- At most `rounds` rounds; `none` when they are used up. What a parser returns is added to `j` in 32 bits,
-- and `j` is compared as an unsigned number.
unfoldable pub biop_messages : ℕ → List ℕ → ℕ → ℕ → Run (Option (List Message))
biop_messages zero buf len j = ok none
biop_messages (suc rounds) buf len j =
    if ltb j ((len + 2 ^ 32 - 1) % 2 ^ 32)
    then (biop_parse_message_header (cursor (drop j buf) j) >>= λ h.
        if leb len h.1.j
        then ok (some [])
        else (object_kind h.1 >>= λ kind. message_of kind h.0 h.1 >>= λ m. elim m [
          | none ↦ ok (some [])
          | some (message, ret) ↦
              after message (biop_messages rounds buf len ((h.1.j + ret) % 2 ^ 32))
        ]))
    else ok (some [])

-- A message whose parser returns as much as takes `j` back, in 32 bits, to the place where the message begins,
-- keeps the loop there: whatever the number of rounds, it has not ended.
pub biop_messages_forever :
    (buf : List ℕ) (len j ret : ℕ) (h : MessageHeader) (c : Cursor) (kind : List ℕ) (m : Message)
    → j < (len + 2 ^ 32 - 1) % 2 ^ 32
    → biop_parse_message_header (cursor (drop j buf) j) ≡ ok (h, c)
    → c.j < len
    → object_kind c ≡ ok kind
    → message_of kind h c ≡ ok (some (m, ret))
    → (c.j + ret) % 2 ^ 32 ≡ j
    → (rounds : ℕ) → biop_messages rounds buf len j ≡ ok none
unfolding biop_messages
biop_messages_forever buf len j ret h c kind m inside eh more ek em back zero = refl
biop_messages_forever buf len j ret h c kind m inside eh more ek em back (suc rounds) =
    let test : ltb j ((len + 2 ^ 32 - 1) % 2 ^ 32) ≡ true = ground arith in
    let test' : leb len c.j ≡ false = ground arith in
    let ih = biop_messages_forever buf len j ret h c kind m inside eh more ek em back rounds in
    rw (test, eh) (rw (test', ek) (rw em (rw back (rw ih refl))))
