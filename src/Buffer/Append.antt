-- ===== src/Buffer/Append.antt =====
-- src/buffer.c: buffer_create gives an empty buffer, and buffer_append is a bounded queue's append.
use mathlib.Core.List.{append-nil}
use mathlib.Core.Path.{subst}
use demuxfs.Prelude.{
  ℕ, ◌+◌, ◌-◌, ◌%◌, ◌^◌, ◌≤◌, ◌<◌, ◌≡◌, ◌≢◌, refl, sym, ap, ◌∙◌, ◌⊎◌, inl, inr, Bool, true, false,
  not, List, ◌++◌, ℤ, pos, to_int, to_int_small, length, take, arith, Run, Returns, length-append,
  length-take, take-all, take-take, ltb, ◌==◌, if◌then◌else◌, ◌&&◌, Bool-cases, ltb→lt, ==_iff,
}
use demuxfs.Buffer.{
  Buffer, Allocator, max_section_size, write, enomem, append_more, append_to, grow_and_write,
  new_size,
}
use demuxfs.Buffer.Laws.{IsValid, contents, length-contents}
use demuxfs.Buffer.Cases.{
  bounded, take-append_ge, Outcome, append_first-Outcome, write_more-Outcome,
}

bounded_fits :
    (kind : Bool) (bs : List ℕ)
    → (kind ≡ false → length bs ≤ max_section_size)
    → bounded kind bs ≡ bs
bounded_fits true bs h = refl
bounded_fits false bs h = take-all max_section_size bs (h refl)

-- What an append has done to a buffer: it holds what it held and then the new bytes, up to its
-- bound, and the result is its size; or an allocation was refused and it holds what it held.
abbrev pub AppendSpec : Buffer → List ℕ → ℤ × Buffer → Type 0
AppendSpec b added r =
    IsValid r.1
    × (r.1.holds_pes_data ≡ b.holds_pes_data)
    × ((r.0 ≡ pos r.1.current_size)
          × (contents r.1 ≡ bounded b.holds_pes_data (contents b ++ added))
        ⊎ (r.0 ≡ enomem) × (contents r.1 ≡ contents b))

spec_of :
    (b : Buffer) (part added : List ℕ) (run : Run (ℤ × Buffer))
    → contents b ++ part ≡ bounded b.holds_pes_data (contents b ++ added)
    → Returns run (Outcome b part)
    → Returns run (AppendSpec b added)
spec_of b part added run e (r, done, inl p) =
    (r, done, (p.valid, p.same_kind, inl (p.returned, p.holds ∙ e)))
spec_of b part added run e (r, done, inr p) =
    (r, done, (p.valid, p.same_kind, inr (p.returned, p.holds)))

-- What fits of the new bytes is what the bound leaves of all.
cut :
    (k c s : ℕ) (xs buf : List ℕ)
    → length xs ≡ c
    → c ≤ k
    → k ≤ c + s
    → xs ++ take (k - c) buf ≡ take k (xs ++ take s buf)
cut k c s xs buf e hc hk =
    let less : k - length xs ≡ k - c = omega arith in
    sym (
      take-append_ge k xs (take s buf) (omega arith)
      ∙ rw less (ap (λ l. xs ++ l) (take-take (k - c) s buf (omega arith))))

module _ (a : Allocator) (b : Buffer) (v : IsValid b) (buf : List ℕ) (size : ℕ)
    (readable : size ≤ length buf) (section : b.holds_pes_data ≡ false → size ≤ max_section_size)
    (small : b.current_size + size < 2 ^ 31) where
  whole : List ℕ
  whole = contents b ++ take size buf

  length-whole : length (contents b ++ take size buf) ≡ b.current_size + size
  length-whole =
      omega (
        arith,
        length-append (contents b) (take size buf),
        length-contents b v,
        length-take size buf,
      )

  more-Spec :
      (n : ℕ)
      → n ≤ size
      → (b.holds_pes_data ≡ false → b.current_size + n ≤ max_section_size)
      → b.current_size ≢ 0
      → contents b ++ take n buf ≡ bounded b.holds_pes_data (contents b ++ take size buf)
      → Returns
          (if ltb b.max_size ((b.current_size + n) % 2 ^ 64)
            then grow_and_write a b buf n (new_size (to_int (b.current_size + n)))
            else write b buf n)
          (AppendSpec b (take size buf))
  more-Spec n le fits ne e =
      spec_of b (take n buf) (take size buf) _ e
        (write_more-Outcome a b v buf n (omega arith) (omega arith) (omega arith) fits)

  no_cut :
      (b.holds_pes_data ≡ false → b.current_size + size ≤ max_section_size)
      → contents b ++ take size buf ≡ bounded b.holds_pes_data (contents b ++ take size buf)
  no_cut fits = sym (
      bounded_fits b.holds_pes_data (contents b ++ take size buf)
        (λ psi. omega (arith, length-whole, fits psi)))

  append_more-Spec :
      b.current_size ≢ 0 → Returns (append_more a b buf size) (AppendSpec b (take size buf))
  unfolding append_more
  append_more-Spec ne =
      let sum : (b.current_size + size) % 2 ^ 64 ≡ b.current_size + size = omega arith in
      elim (Bool-cases b.holds_pes_data) [
        | inl pes ↦
            let test : (ltb max_section_size (b.current_size + size) && not b.holds_pes_data)
                ≡ false =
              ground arith in
            rw (append_more, sum, test)
              (more-Spec size (omega arith) (λ psi. cc) ne (no_cut (λ psi. cc)))
        | inr psi ↦ elim (Bool-cases (ltb max_section_size (b.current_size + size))) [
          | inr fits ↦
              let le : b.current_size + size ≤ max_section_size = ground arith in
              let test : (ltb max_section_size (b.current_size + size) && not b.holds_pes_data)
                  ≡ false =
                ground arith in
              rw (append_more, sum, test)
                (more-Spec size (omega arith) (λ _. le) ne (no_cut (λ _. le)))
          | inl over ↦
              let within = v.section psi in
              let lt = ltb→lt max_section_size (b.current_size + size) over in
              let n = max_section_size - b.current_size in
              let test : (ltb max_section_size (b.current_size + size) && not b.holds_pes_data)
                  ≡ true =
                ground arith in
              let left : (max_section_size + 2 ^ 64 - b.current_size) % 2 ^ 64 ≡ n = omega arith in
              rw (append_more, sum, test, left)
                (more-Spec n (omega arith) (λ _. omega arith) ne
                  (subst
                    (λ kind. contents b ++ take n buf ≡ bounded kind (contents b ++ take size buf))
                    (sym psi)
                    (cut max_section_size b.current_size size (contents b) buf (length-contents b v)
                      within (omega arith))))
        ]
      ]

  -- Appending `size` bytes to a valid buffer, which can be read from `buf`, no more than the largest
  -- section to a PSI buffer and below 2 ^ 31 in all, does not fault. It leaves a valid buffer
  -- of the same kind that holds the old bytes and then the new ones, cut at 4096 for PSI, and returns
  -- its size; or it returns -ENOMEM and the buffer holds what it held.
  pub append_to-AppendSpec : Returns (append_to a b buf size) (AppendSpec b (take size buf))
  unfolding append_to
  append_to-AppendSpec = elim (Bool-cases (size == 0)) [
    | inl zero_size ↦
        let z = (==_iff size 0).0 zero_size in
        let same : contents b ++ take size buf ≡ contents b = rw z (append-nil (contents b)) in
        rw (zero_size, append_to)
          (
            (to_int b.current_size, b),
            refl,
            (
              v,
              refl,
              inl (
                to_int_small b.current_size (omega arith),
                sym same ∙ no_cut (λ psi. omega (arith, v.section psi)),
              ),
            ),
          )
    | inr some_size ↦ elim (Bool-cases (b.current_size == 0)) [
      | inl empty ↦
          rw (some_size, empty, append_to)
            (spec_of b (take size buf) (take size buf) _
              (sym (
                bounded_fits b.holds_pes_data (contents b ++ take size buf) (λ psi.
                  omega (arith, length-whole, section psi, (==_iff b.current_size 0).0 empty))))
              (append_first-Outcome a b v buf size readable (ground arith) small
                (λ psi. omega (arith, section psi, (==_iff b.current_size 0).0 empty))
                ((==_iff b.current_size 0).0 empty)))
      | inr begun ↦ rw (some_size, begun, append_to) (append_more-Spec (λ e. ground arith))
    ]
  ]
