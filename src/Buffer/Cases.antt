-- ===== src/Buffer/Cases.antt =====
-- src/buffer.c: the cases of buffer_append.
use mathlib.Core.Path.{subst}
use demuxfs.Prelude.{
  ℕ, zero, suc, ◌+◌, ◌-◌, ◌%◌, ◌^◌, ◌≤◌, ◌<◌, ◌≡◌, refl, sym, ap, ◌∙◌, ◌⊎◌, inl, inr, Bool, false,
  none, some, List, [], ◌∷◌, ◌++◌, ℤ, pos, to_int, to_int_small, length, take, min, arith, Run,
  Returns, take-take, ltb, if◌then◌else◌, Bool-cases, Option-cases,
}
use demuxfs.Buffer.{
  Buffer, Allocator, max_section_size, allocation, write, enomem, append_first, grow_and_write,
  new_size,
}
use demuxfs.Buffer.Laws.{IsValid, contents, write_lem}

-- What a buffer keeps of a sequence: a PSI buffer keeps no more than the largest section.
abbrev pub bounded : Bool → List ℕ → List ℕ
bounded holds_pes_data bs = if holds_pes_data then bs else take max_section_size bs

pub take-append_ge {ℓ} :
    {A : Type ℓ} (k : ℕ) (xs ys : List A)
    → length xs ≤ k
    → take k (xs ++ ys) ≡ xs ++ take (k - length xs) ys
take-append_ge k [] ys h = ap (λ n. take n ys) (omega arith)
take-append_ge zero (x ∷ xs) ys h = absurd (omega arith)
take-append_ge (suc k) (x ∷ xs) ys h =
    let less : suc k - suc (length xs) ≡ k - length xs = omega arith in
    rw less (ap (λ l. x ∷ l) (take-append_ge k xs ys (omega arith)))

-- A result `r` of putting `added` behind what `b` holds.
pub record Appended (b : Buffer) (added : List ℕ) (r : ℤ × Buffer) : Type 0 where
  pub valid : IsValid r.1
  pub same_kind : r.1.holds_pes_data ≡ b.holds_pes_data
  pub returned : r.0 ≡ pos r.1.current_size
  pub holds : contents r.1 ≡ contents b ++ added

-- A refused allocation: nothing that the buffer holds is lost.
pub record Refused (b : Buffer) (r : ℤ × Buffer) : Type 0 where
  pub valid : IsValid r.1
  pub same_kind : r.1.holds_pes_data ≡ b.holds_pes_data
  pub returned : r.0 ≡ enomem
  pub holds : contents r.1 ≡ contents b

module _ (b : Buffer) (buf : List ℕ) (n : ℕ) (hn : n ≤ length buf)
    (small : b.current_size + n < 2 ^ 31)
    (fits : b.holds_pes_data ≡ false → b.current_size + n ≤ max_section_size) where
  -- A write into an allocation that begins with what `b` holds.
  pub write-Appended :
      (room : ℕ) (m : List ℕ)
      → length m ≡ room
      → b.current_size + n ≤ room
      → take b.current_size m ≡ contents b
      → Returns
          (write (record b { bytes = some m; max_size = room }) buf n)
          (Appended b (take n buf))
  write-Appended room m hm hr keeps =
      let (r, run, (ret, size, len, front, max, kind, unb)) =
        write_lem (record b { bytes = some m; max_size = room }) buf m n refl hn (omega arith)
          small in
      (
        r,
        run,
        record {
          valid = record {
            sized = omega arith;
            within = omega arith;
            section = λ psi. rw size (fits (sym kind ∙ psi));
          };
          same_kind = kind;
          returned = rw size ret;
          holds = rw (size, front, keeps);
        },
      )

  -- The same, where the allocation that is there has room.
  pub write_here-Appended :
      IsValid b
      → b.current_size + n ≤ b.max_size
      → 0 < b.current_size + n
      → Returns (write b buf n) (Appended b (take n buf))
  write_here-Appended v hr hn' = elim (Option-cases b.bytes) [
    | inl null ↦ absurd (omega (arith, v.sized, ap (λ o. length (allocation o)) null))
    | inr (m, full) ↦
        let same : allocation b.bytes ≡ m = ap allocation full in
        subst (λ c. Returns (write c buf n) (Appended b (take n buf)))
          (ap (λ o. record b { bytes = o }) (sym full))
          (write-Appended b.max_size m (ap length (sym same) ∙ v.sized) hr
            (ap (take b.current_size) (sym same)))
  ]

pub no_bytes : (k : ℕ) (xs ys : List ℕ) → k ≡ 0 → take k xs ≡ take k ys
no_bytes k xs ys e = rw e

-- Either the bytes are behind the contents, or an allocation was refused and nothing is lost.
abbrev pub Outcome : Buffer → List ℕ → ℤ × Buffer → Type 0
Outcome b added r = Appended b added r ⊎ Refused b r

pub weaken :
    (b : Buffer) (added : List ℕ) (run : Run (ℤ × Buffer))
    → Returns run (Appended b added)
    → Returns run (Outcome b added)
weaken b added run (r, e, p) = (r, e, inl p)

pub keeps : (k l : ℕ) (m old : List ℕ) → k ≤ l → take l m ≡ take l old → take k m ≡ take k old
keeps k l m old h e = sym (take-take k l m h) ∙ ap (take k) e ∙ take-take k l old h

module _ (a : Allocator) (b : Buffer) (v : IsValid b) (buf : List ℕ) (n : ℕ) (hn : n ≤ length buf)
    (pos_n : 0 < b.current_size + n) (small : b.current_size + n < 2 ^ 31)
    (fits : b.holds_pes_data ≡ false → b.current_size + n ≤ max_section_size) where
  pub append_first-Outcome :
      b.current_size ≡ 0 → Returns (append_first a b buf n) (Outcome b (take n buf))
  unfolding append_first
  append_first-Outcome empty = elim (Bool-cases (ltb b.max_size n)) [
    | inr room ↦
        rw (room, append_first)
          (weaken b (take n buf) _
            (write_here-Appended b buf n hn small fits v (ground arith) pos_n))
    | inl tight ↦ elim (Option-cases (a.malloc n)) [
      | inl refused ↦
          rw (tight, refused, append_first)
            (
              (enomem, record b { bytes = none; max_size = 0 }),
              refl,
              inr (record {
                valid = record { sized = refl; within = omega arith; section = v.section };
                same_kind = refl;
                returned = refl;
                holds = no_bytes b.current_size [] (allocation b.bytes) empty;
              }),
            )
      | inr (m, granted) ↦
          rw (tight, granted, append_first)
            (weaken b (take n buf) _ (
              write-Appended b buf n hn small fits n m (a.malloc_size n m granted) (omega arith)
                (no_bytes b.current_size m (allocation b.bytes) empty)))
    ]
  ]

  -- Further bytes, of which `to_write` are to be written.
  pub write_more-Outcome :
      Returns
        (if ltb b.max_size ((b.current_size + n) % 2 ^ 64)
          then grow_and_write a b buf n (new_size (to_int (b.current_size + n)))
          else write b buf n)
        (Outcome b (take n buf))
  unfolding grow_and_write new_size
  write_more-Outcome =
      let size : (b.current_size + n) % 2 ^ 64 ≡ b.current_size + n = omega arith in
      rw size (elim (Bool-cases (ltb b.max_size (b.current_size + n))) [
        | inr room ↦ rw room (
            weaken b (take n buf) _
              (write_here-Appended b buf n hn small fits v (ground arith) pos_n))
        | inl tight ↦
            rw (tight, to_int_small (b.current_size + n) small)
              (grow (new_size (pos (b.current_size + n))) (ground arith))
      ])
    where
      grow :
          (room : ℕ)
          → b.current_size + n ≤ room
          → Returns (grow_and_write a b buf n room) (Outcome b (take n buf))
      grow room hr = elim (Option-cases (a.realloc (allocation b.bytes) room)) [
        | inl refused ↦
            rw (refused, grow_and_write)
              (
                (enomem, b),
                refl,
                inr (record { valid = v; same_kind = refl; returned = refl; holds = refl }),
              )
        | inr (m, granted) ↦
            let old = allocation b.bytes in
            let keep : take b.current_size m ≡ contents b =
              keeps b.current_size (min room (length old)) m old (omega (arith, v.sized, v.within))
                (a.realloc_keeps old room m granted) in
            rw (granted, grow_and_write)
              (weaken b (take n buf) _ (
                write-Appended b buf n hn small fits room m (a.realloc_size old room m granted) hr
                  keep))
      ]
