-- ===== src/Tables/Pat/Programs.antt =====
-- src/tables/pat.c: the programs that are written in a table are read back, and which reads are in bounds.
use demuxfs.Prelude.{
  ℕ, zero, suc, ◌+◌, ◌-◌, ◌*◌, ◌/◌, ◌%◌, ◌^◌, ◌≤◌, ◌<◌, ◌≡◌, refl, ap, List, [], ◌∷◌, ◌++◌, length,
  ok, fault, arith, All, bit_and, inl, inr, leb, Bool-cases, true, false,
}
use demuxfs.Prelude.Bits.{bit_and_mask}
use demuxfs.Byteops.{IsByte, convert_to_16, char_shift_right}
use demuxfs.Byteops.Laws.{convert_to_16_lem, same_below, same_below→eq}
use demuxfs.Tables.{at, at16}
use demuxfs.Tables.Laws.{
  at-in, at16-in, Stands, at-Stands, at16-Stands, left_part, right_part, append-Stands,
  faults_after, at16-partly,
}
use demuxfs.Tables.Pat.{PatProgram, num_programs, program_at, programs_from}

program-in : (xs : List ℕ) (o : ℕ) → o + 4 ≤ length xs → (p : PatProgram) × (program_at xs o ≡ ok p)
unfolding program_at
program-in xs o h =
    rw
      (at16-in xs o (omega arith), at-in xs (o + 2) (omega arith), at16-in xs (o + 2) (omega arith))
      (_, refl)

program-out : (xs : List ℕ) (o : ℕ) → length xs < o + 4 → program_at xs o ≡ fault
unfolding program_at
program-out xs o h =
    faults_after (at16 xs o) _
      (λ n. faults_after (at xs (o + 2)) _ (λ b. rw (at16-partly xs (o + 2) (omega arith)) refl))

no_wrap : (i : ℕ) → 8 + i * 4 < 2 ^ 16 → (8 + i * 4) % 2 ^ 16 ≡ 8 + i * 4
no_wrap i h = omega arith

programs-in :
    (payload : List ℕ) (n i : ℕ)
    → 8 + (i + n) * 4 ≤ length payload
    → 8 + (i + n) * 4 < 2 ^ 16
    → (ps : List PatProgram) × (programs_from n payload i ≡ ok ps) × (length ps ≡ n)
unfolding programs_from
programs-in payload zero i h s = ([], refl, refl)
programs-in payload (suc n) i h s =
    let (p, e) = program-in payload (8 + i * 4) (omega arith) in
    let (ps, e', l) = programs-in payload n (i + 1) (omega arith) (omega arith) in
    rw (no_wrap i (omega arith)) (rw (e, e') (p ∷ ps, refl, ap suc l))

programs-out :
    (payload : List ℕ) (n i : ℕ)
    → 8 + i * 4 ≤ length payload
    → length payload < 8 + (i + n) * 4
    → length payload < 2 ^ 16
    → programs_from n payload i ≡ fault
unfolding programs_from
programs-out payload zero i h l s = absurd (omega arith)
programs-out payload (suc n) i h l s =
    rw (no_wrap i (omega arith)) (elim (Bool-cases (leb (8 + i * 4 + 4) (length payload))) [
      | inl e ↦
          let rest = programs-out payload n (i + 1) (ground (arith, e)) (omega arith) s in
          faults_after (program_at payload (8 + i * 4)) _ (λ p. rw rest refl)
      | inr e ↦ rw (program-out payload (8 + i * 4) (ground (arith, e))) refl
    ])

-- In the payload of a section, the loop reads (section_length - 9) / 4 programs, and no byte behind the
-- section, when section_length is 6 at least; when it is less, the loop reads behind the payload.
pub programs-bounds :
    (payload : List ℕ) (section_length : ℕ)
    → 8 ≤ length payload
    → length payload < 2 ^ 15
    → section_length + 3 ≤ length payload
    → (6 ≤ section_length
        → (ps : List PatProgram) × (programs_from (num_programs section_length) payload 0 ≡ ok ps)
          × (length ps ≡ (section_length - 9) / 4))
      × (section_length < 6 → programs_from (num_programs section_length) payload 0 ≡ fault)
unfolding num_programs
programs-bounds payload section_length long short fits = (
  λ h. elim (Bool-cases (leb 9 section_length)) [
    | inl e ↦
        let enough : 9 ≤ section_length = ground (arith, e) in
        rw e (programs-in payload ((section_length - 9) / 4) 0 (omega arith) (omega arith))
    | inr e ↦
        let few : section_length < 9 = ground (arith, e) in
        let none_ : (2 ^ 16 - (9 - section_length) / 4) % 2 ^ 16 ≡ 0 = omega arith in
        let none' : (section_length - 9) / 4 ≡ 0 = omega arith in
        rw (e, none_, none') (programs-in payload 0 0 (omega arith) (omega arith))
  ],
  λ h.
      let e : leb 9 section_length ≡ false = ground arith in
      rw e (
        programs-out payload ((2 ^ 16 - (9 - section_length) / 4) % 2 ^ 16) 0 (omega arith)
          (omega arith) (omega arith)),
)

-- The bytes of a program: three bits in front of the PID are reserved.
abbrev pub write_program : PatProgram → List ℕ
write_program p =
    (p.program_number / 256)
    ∷ (p.program_number % 256)
    ∷ (p.reserved * 32 + p.pid / 256)
    ∷ (p.pid % 256)
    ∷ []

abbrev pub write_programs : List PatProgram → List ℕ
write_programs [] = []
write_programs (p ∷ ps) = write_program p ++ write_programs ps

pub record IsProgram (p : PatProgram) : Type 0 where
  pub program_number : p.program_number < 2 ^ 16
  pub reserved : p.reserved < 8
  pub pid : p.pid < 2 ^ 13

-- What is read of a program: the shift by 4 takes the top bit of the PID among the reserved bits, and loses
-- the first of them.
abbrev pub as_read : PatProgram → PatProgram
as_read p = record p { reserved = (p.reserved * 2 + p.pid / 2 ^ 12) % 8 }

abbrev pub all_as_read : List PatProgram → List PatProgram
all_as_read [] = []
all_as_read (p ∷ ps) = as_read p ∷ all_as_read ps

high_bits : (b : ℕ) → IsByte b → char_shift_right b 4 % 8 ≡ b / 16 % 8
unfolding same_below
high_bits = same_below→eq _ _ 256 refl

module _ (payload : List ℕ) (o : ℕ) (p : PatProgram) (v : IsProgram p)
    (h : Stands payload o (write_program p)) where
  program_there : program_at payload o ≡ ok (as_read p)
  unfolding program_at
  program_there =
      let b = p.reserved * 32 + p.pid / 256 in
      let hb : IsByte b = omega (arith, v.reserved, v.pid) in
      let e0 : convert_to_16 (p.program_number / 256) (p.program_number % 256) ≡ p.program_number =
        omega (
          arith,
          convert_to_16_lem (p.program_number / 256) (p.program_number % 256)
              (omega (arith, v.program_number)) (omega arith),
        ) in
      let e1 : char_shift_right b 4 % 8 ≡ (p.reserved * 2 + p.pid / 2 ^ 12) % 8 =
        omega (arith, high_bits b hb, v.pid) in
      let e2 : bit_and (convert_to_16 b (p.pid % 256)) 0x1fff ≡ p.pid = omega (
        arith,
        bit_and_mask 13 (convert_to_16 b (p.pid % 256)),
        convert_to_16_lem b (p.pid % 256) hb (omega arith),
        v.reserved,
        v.pid,
      ) in
      rw
        (
          at16-Stands payload o (write_program p) h 0 o (omega arith) (omega arith),
          at-Stands payload o (write_program p) h 2 (o + 2) (omega arith) refl,
          at16-Stands payload o (write_program p) h 2 (o + 2) (omega arith) refl,
        )
        (λ k. ok record { program_number = e0 k; reserved = e1 k; pid = e2 k })

programs_there :
    (payload : List ℕ) (i : ℕ) (ps : List PatProgram)
    → Stands payload (8 + i * 4) (write_programs ps)
    → All IsProgram ps
    → 8 + (i + length ps) * 4 < 2 ^ 16
    → programs_from (length ps) payload i ≡ ok (all_as_read ps)
unfolding programs_from
programs_there payload i [] h v s = refl
programs_there payload i (p ∷ ps) h (v, vs) s =
    let one =
      program_there payload (8 + i * 4) p v
        (left_part payload (8 + i * 4) (write_program p) (write_programs ps) h) in
    let next : 8 + (i + 1) * 4 ≡ 8 + i * 4 + 4 = omega arith in
    let rest =
      programs_there payload (i + 1) ps
        (rw next (right_part payload (8 + i * 4) (write_program p) (write_programs ps) h)) vs
        (omega arith) in
    rw (no_wrap i (omega arith)) (rw (one, rest) refl)

-- Behind the eight bytes of a header, programs whose fields fit their widths are read back with their numbers
-- and PIDs; of the reserved bits the first is lost, and the top bit of the PID is taken for one.
pub programs_from-write :
    (head rest : List ℕ) (ps : List PatProgram)
    → length head ≡ 8
    → All IsProgram ps
    → length ps < 2 ^ 10
    → programs_from (num_programs (length ps * 4 + 9)) (head ++ (write_programs ps ++ rest)) 0
      ≡ ok (all_as_read ps)
unfolding num_programs
programs_from-write head rest ps e v few =
    let enough : leb 9 (length ps * 4 + 9) ≡ true = ground arith in
    let count : (length ps * 4 + 9 - 9) / 4 ≡ length ps = omega arith in
    let there : Stands (head ++ (write_programs ps ++ rest)) 8 (write_programs ps) =
      rw (← e) (append-Stands head (write_programs ps) rest) in
    rw (enough, count)
      (programs_there (head ++ (write_programs ps ++ rest)) 0 ps there v (omega arith))
