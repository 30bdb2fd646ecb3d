-- ===== src/Ts/Safety/Pes.antt =====
-- src/ts.c: the branch for PES packets, and the whole of ts_parse_packet, run without a fault.
use mathlib.Core.Path.{subst}
use demuxfs.Prelude.{
  ℕ, ◌+◌, ◌-◌, ◌≤◌, ◌<◌, ◌≡◌, ◌⊎◌, inl, inr, refl, sym, ap, Bool, true, false, Option, none, some,
  List, ◌==◌, ltb, leb, if◌then◌else◌, ℤ, pos, length, take, drop, ok, ◌>>=◌, Returns, arith,
  Bool-cases, Option-cases, length-drop, not, fault,
}
use demuxfs.Byteops.{convert_to_16}
use demuxfs.Byteops.Bounds.{convert_to_16-lt}
use demuxfs.Hash.{hashtable_get}
use demuxfs.Buffer.{
  Buffer, Allocator, buffer_reset_size, packet_length, byte_at, allocation,
  buffer_contains_full_pes_section, buffer_is_unbounded,
}
use demuxfs.Buffer.Laws.{IsValid, length-contents}
use demuxfs.Buffer.Sections.{too_short_lem, buffer_create_lem}
use demuxfs.Ts.Header.{TsHeader}
use demuxfs.Ts.Parsers.{Parser}
use demuxfs.Ts.Continuity.{continuity_counter_is_ok}
use demuxfs.Ts.Packet.{Tables, Store, load, store, read_at, note_counter}
use demuxfs.Ts.Packet.Pes.{
  span, pes_buffer, append_payload, pes_deliver, pes_start, pes_takes, pes_continue, parse_pes,
  Ready, over, ready, pes_append, pes_finish,
}
use demuxfs.Ts.Safety.{
  Returns-bind, read_at-Returns, most, IsSound, IsSafe, load-Returns, store-IsSafe, Reaches,
  store-Reaches, add-Reaches, reset-IsSound, continuity-IsSound, Appended, append-Returns,
  note_counter-IsSafe, emptied-IsSound,
}

packet_length-lt : (b : Buffer) → packet_length b < 65536
unfolding packet_length
packet_length-lt b = omega (arith, convert_to_16-lt (byte_at b 4) (byte_at b 5))

-- The answers of the test for a whole packet.
data PesAnswer (b : Buffer) : Bool × Buffer → Type 0 where
  lacking : b.current_size ≤ most → PesAnswer b (false, b)
  cut_to : (n : ℕ) → n ≤ b.max_size → PesAnswer b (true, record b { current_size = n })
  endless : PesAnswer b (true, b)

-- A buffer whose packet lacks nothing but its last byte has room for this one.
abbrev pub IsRoomy : Buffer → Type 0
IsRoomy b =
    b.pes_unbounded_data ≡ false
    → b.current_size ≡ packet_length b + 5
    → b.current_size < length (allocation b.bytes)

pes_answer : (b : Buffer) → IsValid b → IsRoomy b → PesAnswer b (buffer_contains_full_pes_section b)
pes_answer b v roomy = elim (cases b v roomy) [
  | inl (e, few) ↦ subst (PesAnswer b) (sym e) (lacking few)
  | inr (inl (e, h)) ↦ subst (PesAnswer b) (sym e) (cut_to (packet_length b + 6) h)
  | inr (inr e) ↦ subst (PesAnswer b) (sym e) endless
]
  where
    long :
        (b : Buffer)
        → IsValid b
        → IsRoomy b
        → b.pes_unbounded_data ≡ false
        → packet_length b + 5 ≤ b.current_size
        → packet_length b + 6 ≤ b.max_size
    long b v roomy bounded h = elim (Bool-cases (b.current_size == packet_length b + 5)) [
      | inl e ↦
          let same : b.current_size ≡ packet_length b + 5 = ground (arith, e) in
          omega (arith, same, roomy bounded same, v.sized)
      | inr e ↦
          let other : packet_length b + 6 ≤ b.current_size = ground (arith, e, h) in
          omega (arith, other, v.within)
    ]

    cases :
        (b : Buffer)
        → IsValid b
        → IsRoomy b
        → (buffer_contains_full_pes_section b ≡ (false, b)) × (b.current_size ≤ most)
          ⊎ ((buffer_contains_full_pes_section b
                  ≡ (true, record b { current_size = packet_length b + 6 }))
                × (packet_length b + 6 ≤ b.max_size)
              ⊎ (buffer_contains_full_pes_section b ≡ (true, b)))
    cases b v roomy =
        let short = too_short_lem b v 6 (omega arith) in
        let lt = packet_length-lt b in
        unfold buffer_contains_full_pes_section in
        elim (Bool-cases (ltb b.current_size 6)) [
          | inl few ↦ inl (ground (arith, short), ground arith)
          | inr six ↦ elim (Bool-cases b.pes_unbounded_data) [
            | inl open_ended ↦ inr (inr (ground (arith, short)))
            | inr bounded ↦ elim (Bool-cases (ltb b.current_size (packet_length b + 6 - 1))) [
              | inl less ↦ inl (ground (arith, short), ground arith)
              | inr whole ↦ inr (inl (ground (arith, short), long b v roomy bounded (ground arith)))
            ]
          ]
        ]

-- Asking if a buffer is unbounded keeps it sound.
unbounded-IsSound : (b : Buffer) → IsSound b → IsSound (buffer_is_unbounded b).1
unbounded-IsSound b p = elim (cases b) [
  | inl e ↦ rw e p
  | inr e ↦ rw e (record {
    valid = record { sized = p.valid.sized; within = p.valid.within; section = p.valid.section };
    few = p.few;
  })
]
  where
    cases :
        (b : Buffer)
        → ((buffer_is_unbounded b).1 ≡ b)
          ⊎ ((buffer_is_unbounded b).1 ≡ record b { pes_unbounded_data = true })
    cases b = unfold buffer_is_unbounded in ground arith

-- The buffer that gets the payload, if one does, has room for the last byte of its packet.
abbrev pub LeavesRoom :
    {W : Type 0}
    → Allocator
    → (Parser → TsHeader → List ℕ → Tables W → ℤ × Tables W)
    → TsHeader
    → List ℕ
    → ℕ
    → ℕ
    → Store W
    → Type 0
LeavesRoom {W} a parse header payload payload_start payload_end s =
    (address : ℕ) (b : Buffer) (s' : Store W)
    → pes_append a parse header payload payload_start payload_end s ≡ ok (ready address b s')
    → IsRoomy b

module _ {W : Type 0} (a : Allocator) (parse : Parser → TsHeader → List ℕ → Tables W → ℤ × Tables W)
    (header : TsHeader) (payload : List ℕ) (payload_start payload_end : ℕ)
    (fits : payload_end < length payload) (small : payload_end < 255)
    (forward : payload_start ≤ payload_end + 1) where
  abbrev Safely : ℤ × Store W → Type 0
  Safely r = IsSafe r.1

  pes_deliver-Returns :
      (parser : Parser) (address : ℕ) (b : Buffer) (s : Store W)
      → IsValid b
      → IsRoomy b
      → Reaches (some address) s
      → Returns
          (pes_deliver a parse header payload payload_start payload_end parser address b s)
          Safely
  unfolding pes_deliver
  pes_deliver-Returns parser address b s v roomy r =
      go (buffer_contains_full_pes_section b) (pes_answer b v roomy)
    where
      tables_changed : (s : Store W) (t : Tables W) → IsSafe s → IsSafe (record s { tables = t })
      tables_changed s t v = record { table = v.table; held = v.held; sound = v.sound }

      noted :
          (ret : ℤ) (s' : Store W)
          → Reaches (some address) s'
          → Returns (note_counter header (some address) s' >>= λ s''. ok (ret, s'')) Safely
      noted ret s' r' =
          Returns-bind (note_counter header (some address) s') _
            (note_counter-IsSafe header (some address) s' r') (λ s'' v''. (_, refl, v''))

      handed :
          (t : Tables W) (ret : ℤ)
          → Returns
              (note_counter header
                  (some address)
                  (record (store s address (buffer_reset_size b)) { tables = t })
                >>= λ s'. ok (ret, s'))
              Safely
      handed t ret =
          let r' = store-Reaches s address (buffer_reset_size b) r (emptied-IsSound b v) in
          noted ret _ (tables_changed _ t r'.0, r'.1)

      go :
          (t : Bool × Buffer)
          → PesAnswer b t
          → (let r = parse parser header (take t.1.current_size (allocation t.1.bytes)) s.tables in
              Returns
                (if not (t.0)
                  then (note_counter header (some address) (store s address t.1) >>= λ s'.
                      ok (pos 0, s'))
                  else if ltb (length (allocation t.1.bytes)) t.1.current_size
                  then fault
                  else (note_counter header
                        (some address)
                        (record (store s address (buffer_reset_size t.1)) { tables = r.1 })
                      >>= λ s'. ok (r.0, s')))
                Safely)
      go t (lacking few) =
          noted (pos 0) _ (store-Reaches s address b r (record { valid = v; few = few }))
      go t (cut_to n h) =
          let there : ltb (length (allocation b.bytes)) n ≡ false = ground (arith, v.sized, h) in
          rw there (handed _ _)
      go t endless =
          let there : ltb (length (allocation b.bytes)) b.current_size ≡ false =
            ground (arith, v.sized, v.within) in
          rw there (handed _ _)

  append_payload-Returns :
      (b : Buffer)
      → IsSound b
      → Returns (append_payload a parse header payload payload_start payload_end b) Appended
  append_payload-Returns b p =
      let size : span payload_start payload_end ≡ payload_end + 1 - payload_start = omega arith in
      rw size (
        append-Returns a b (drop payload_start payload) (payload_end + 1 - payload_start) p
          (omega (arith, length-drop payload_start payload)) (omega arith))

  pes_buffer-Reaches :
      (size : ℕ) (s : Store W)
      → IsSafe s
      → let r = pes_buffer a parse header payload payload_start payload_end size s in
        Reaches r.0 r.1
  unfolding pes_buffer
  pes_buffer-Reaches size s v = elim (Option-cases (hashtable_get s.packet_buffer header.pid)) [
    | inr (address, e) ↦ rw (e, pes_buffer) (v, v.held header.pid address e)
    | inl nothing ↦ elim (buffer_create_lem a header.pid size true) [
      | inl refused ↦ rw (nothing, refused, pes_buffer) v
      | inr (b, e, valid, empty_, pid, kind, bound, room) ↦
          rw (nothing, e, pes_buffer)
            (add-Reaches s header.pid b v (record {
              valid = valid;
              few = omega (arith, length-contents b valid, ap (λ (l : List ℕ). length l) empty_);
            }))
    ]
  ]

  -- What the appending leaves is safe, and its buffer valid.
  Kept : Ready W → Type 0
  Kept (over s) = IsSafe s
  Kept (ready address b s) = IsValid b × Reaches (some address) s

  pes_start-Returns :
      (s : Store W)
      → IsSafe s
      → Returns (pes_start a parse header payload payload_start payload_end s) Kept
  unfolding pes_start Kept
  pes_start-Returns s v = elim (Bool-cases (leb payload_end (payload_start + 6))) [
    | inl short ↦ rw short (over s, refl, v)
    | inr enough ↦
        let room : payload_start + 6 < payload_end = ground arith in
        rw enough (
          Returns-bind (read_at payload (payload_start + 4)) _
            (read_at-Returns payload (payload_start + 4) (omega arith))
            (λ hi _.
              Returns-bind (read_at payload (payload_start + 5)) _
                (read_at-Returns payload (payload_start + 5) (omega arith))
                (λ lo _.
                  go
                    (pes_buffer a parse header payload payload_start payload_end
                      (convert_to_16 hi lo) s)
                    (pes_buffer-Reaches (convert_to_16 hi lo) s v))))
  ]
    where
      go :
          (r : Option ℕ × Store W)
          → Reaches r.0 r.1
          → Returns
              (elim r.0 [
                | none ↦ ok (over (r.1))
                | some address ↦ load (r.1) address >>= λ b.
                    append_payload a parse header payload payload_start payload_end
                      (buffer_reset_size b)
                    >>= λ x. ok (ready address x.1 (r.1))
              ])
              Kept
      go (none, s') r = (over s', refl, r)
      go (some address, s') r =
          Returns-bind (load s' address) _ (load-Returns s' address r.0 r.1) (λ b p.
            Returns-bind
              (append_payload a parse header payload payload_start payload_end
                (buffer_reset_size b))
              _ (append_payload-Returns (buffer_reset_size b) (reset-IsSound b p))
              (λ x q. (ready address x.1 s', refl, (q.0, r))))

  pes_takes-IsSound :
      (b : Buffer)
      → IsSound b
      → IsSound (pes_takes a parse header payload payload_start payload_end b).1
  unfolding pes_takes
  pes_takes-IsSound b p =
      let b' = (continuity_counter_is_ok header b).1 in
      let p' = continuity-IsSound header b p in
      elim (Bool-cases (continuity_counter_is_ok header b).0) [
        | inr refused ↦ rw refused p'
        | inl fine ↦ elim (Bool-cases (b'.current_size == 0)) [
          | inl nothing ↦ rw (fine, nothing) (unbounded-IsSound b' p')
          | inr some_bytes ↦ rw (fine, some_bytes) p'
        ]
      ]

  pes_continue-Returns :
      (s : Store W)
      → IsSafe s
      → Returns (pes_continue a parse header payload payload_start payload_end s) Kept
  unfolding pes_continue Kept
  pes_continue-Returns s v = elim (Option-cases (hashtable_get s.packet_buffer header.pid)) [
    | inl nothing ↦ rw (nothing, pes_continue) (over s, refl, v)
    | inr (address, e) ↦
        let h = v.held header.pid address e in
        rw (e, pes_continue)
          (Returns-bind (load s address) _ (load-Returns s address v h) (λ b p.
            let t = pes_takes a parse header payload payload_start payload_end b in
            let p' = pes_takes-IsSound b p in
            elim (Bool-cases t.0) [
              | inr refused ↦
                  rw refused (over (store s address t.1), refl, store-IsSafe s address t.1 v p')
              | inl on ↦ rw on (
                  Returns-bind (append_payload a parse header payload payload_start payload_end t.1)
                    _ (append_payload-Returns t.1 p')
                    (λ x q. (ready address x.1 s, refl, (q.0, (v, h)))))
            ]))
  ]

  pes_append-Returns :
      (s : Store W)
      → IsSafe s
      → Returns (pes_append a parse header payload payload_start payload_end s) Kept
  unfolding pes_append
  pes_append-Returns s v = elim (Bool-cases (header.payload_unit_start_indicator == 0)) [
    | inl later ↦ rw later (pes_continue-Returns s v)
    | inr first ↦ rw first (pes_start-Returns s v)
  ]

  pes_finish-Returns :
      (parser : Parser) (s : Store W) (r : Ready W)
      → LeavesRoom a parse header payload payload_start payload_end s
      → pes_append a parse header payload payload_start payload_end s ≡ ok r
      → Kept r
      → Returns (pes_finish a parse header payload payload_start payload_end parser r) Safely
  unfolding pes_finish Kept
  pes_finish-Returns parser s (over s') roomy e k = ((pos 0, s'), refl, k)
  pes_finish-Returns parser s (ready address b s') roomy e (v, r) =
      pes_deliver-Returns parser address b s' v (roomy address b s' e) r

  pub parse_pes-Returns :
      (s : Store W)
      → IsSafe s
      → LeavesRoom a parse header payload payload_start payload_end s
      → Returns (parse_pes a parse header payload payload_start payload_end s) Safely
  unfolding parse_pes
  parse_pes-Returns s v roomy =
      elim (Option-cases (hashtable_get s.tables.pes_parsers header.pid)) [
        | inl nothing ↦ rw (nothing, parse_pes) ((pos 0, s), refl, v)
        | inr (parser, e) ↦
            let (x, appended, k) = pes_append-Returns s v in
            rw (e, parse_pes) (rw appended (pes_finish-Returns parser s x roomy appended k))
      ]
