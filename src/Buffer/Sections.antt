-- ===== src/Buffer/Sections.antt =====
-- src/buffer.c: when a buffer holds a whole section or packet, and the CRC at its end.
use demuxfs.Prelude.{
  ℕ, suc, ◌+◌, ◌-◌, ◌%◌, ◌^◌, ◌≤◌, ◌<◌, ◌≡◌, ◌↔◌, refl, sym, ap, ◌∙◌, ◌⊎◌, inl, inr, Bool, true,
  false, not, none, some, List, [], ◌∷◌, ◌++◌, length, take, arith, ok, length-replicate, take-take,
  ltb, ◌==◌, if◌then◌else◌, ◌&&◌, ◌||◌, Bool-cases, Option-cases, ltb→lt, get_or, get_or-take,
  length-append, All,
}
use demuxfs.Prelude.Bits.{bit_and_mask}
use demuxfs.Byteops.{IsByte, convert_to_16, convert_to_32}
use demuxfs.Crc32.{Crc32, crc32_check}
use demuxfs.Crc32.Table
use demuxfs.Crc32.Table.{crc}
use demuxfs.Crc32.Codeword.{crc32_check-trailer}
use demuxfs.Buffer.{
  Buffer, Allocator, sizeof_buffer, max_section_size, allocation, byte_at, room, created,
  buffer_create, section_length, packet_length, too_short, buffer_contains_full_psi_section,
  buffer_contains_full_pes_section, buffer_crc32,
}
use demuxfs.Buffer.Laws.{IsValid, contents, length-contents}

pub section_length-lt : (b : Buffer) → section_length b < 4096
unfolding section_length
section_length-lt b = omega (arith, bit_and_mask 12 (convert_to_16 (byte_at b 1) (byte_at b 2)))

-- The answer of a test for a whole section of `n` bytes, and the buffer behind it.
pub record Complete (b : Buffer) (n : ℕ) (r : Buffer) : Type 0 where
  pub valid : IsValid r
  pub enough : n ≤ b.current_size
  pub size : r.current_size ≡ n
  pub holds : contents r ≡ take n (contents b)

module _ (b : Buffer) (v : IsValid b) where
  cut-Complete : (n : ℕ) → n ≤ b.current_size → Complete b n (record b { current_size = n })
  cut-Complete n h = record {
    valid = record {
      sized = v.sized;
      within = omega (arith, v.within);
      section = λ psi. omega (arith, v.section psi);
    };
    enough = h;
    size = refl;
    holds = sym (take-take n b.current_size (allocation b.bytes) h);
  }

  -- In a valid buffer a NULL pointer goes with no bytes.
  pub too_short_lem : (n : ℕ) → 0 < n → too_short b n ≡ ltb b.current_size n
  too_short_lem n h = elim (Option-cases b.bytes) [
    | inl null ↦
        let none_held : b.current_size ≡ 0 =
          omega (arith, v.sized, v.within, ap (λ o. length (allocation o)) null) in
        rw (null, none_held) (ground arith)
    | inr (m, full) ↦ rw full
  ]

  partial :
      (n : ℕ)
      → let r = if ltb max_section_size n then record b { current_size = 0 } else b in
        IsValid r × ((r ≡ b) ⊎ (r.current_size ≡ 0) × (max_section_size < n))
  partial n = elim (Bool-cases (ltb max_section_size n)) [
    | inl large ↦ rw large (
      record { sized = v.sized; within = omega arith; section = λ psi. omega arith },
      inr (refl, ltb→lt max_section_size n large),
    )
    | inr fits ↦ rw fits (v, inl refl)
  ]

  -- For a valid buffer, and `n` the section length that its bytes announce plus 3: if the answer is
  -- true the buffer held at least 4 and at least `n` bytes, stays valid and is cut to the first `n` of
  -- them; if it is false it held fewer than 4 or than `n`, and it is unchanged, or it is emptied
  -- because `n` is more than the largest section.
  pub full_psi_section :
      let r = buffer_contains_full_psi_section b in
      let n = section_length b + 3 in
      (r.0 ≡ true) × (4 ≤ b.current_size) × Complete b n r.1
      ⊎ (r.0 ≡ false)
        × ((b.current_size < 4) ⊎ (b.current_size < n))
        × IsValid r.1
        × ((r.1 ≡ b) ⊎ (r.1.current_size ≡ 0) × (max_section_size < n))
  unfolding buffer_contains_full_psi_section
  full_psi_section =
      let n = section_length b in
      elim (Bool-cases (ltb b.current_size 4)) [
        | inl few ↦
            let short : too_short b 4 ≡ true = too_short_lem 4 (omega arith) ∙ few in
            rw (buffer_contains_full_psi_section, short)
              (inr (refl, inl (ltb→lt b.current_size 4 few), v, inl refl))
        | inr some_bytes ↦
            let long : too_short b 4 ≡ false = too_short_lem 4 (omega arith) ∙ some_bytes in
            elim (Bool-cases (ltb b.current_size (n + 3))) [
              | inr whole ↦
                  rw (buffer_contains_full_psi_section, long, whole)
                    (inl (refl, ground arith, cut-Complete (n + 3) (ground arith)))
              | inl part ↦
                  rw (buffer_contains_full_psi_section, long, part)
                    (inr (
                      refl,
                      inr (ltb→lt b.current_size (n + 3) part),
                      (partial (n + 3)).0,
                      (partial (n + 3)).1,
                    ))
            ]
      ]

  pes_taken :
      b.pes_unbounded_data ≡ false
      → 6 ≤ b.current_size
      → packet_length b + 6 - 1 ≤ b.current_size
      → buffer_contains_full_pes_section b ≡ (true, record b { current_size = packet_length b + 6 })
  unfolding buffer_contains_full_pes_section
  pes_taken bounded six enough = ground (arith, too_short_lem 6 (omega arith))

  -- A PES buffer of a bounded packet that holds the whole packet is cut to it.
  pub full_pes_section :
      b.pes_unbounded_data ≡ false
      → 6 ≤ b.current_size
      → packet_length b + 6 ≤ b.current_size
      → ((buffer_contains_full_pes_section b).0 ≡ true)
        × Complete b (packet_length b + 6) (buffer_contains_full_pes_section b).1
  full_pes_section bounded six enough =
      rw (pes_taken bounded six (omega arith)) (refl, cut-Complete (packet_length b + 6) enough)

  -- One byte too early: a bounded packet that still lacks its last byte is taken for whole, and
  -- the size is set past the bytes that were received; where they fill the allocation the buffer is no
  -- longer valid.
  pub pes_section_overrun :
      b.pes_unbounded_data ≡ false
      → 6 ≤ b.current_size
      → b.current_size + 1 ≡ packet_length b + 6
      → ((buffer_contains_full_pes_section b).0 ≡ true)
        × ((buffer_contains_full_pes_section b).1.current_size ≡ b.current_size + 1)
        × (b.current_size ≡ b.max_size → ¬ IsValid (buffer_contains_full_pes_section b).1)
  pes_section_overrun bounded six lacks =
      rw (pes_taken bounded six (omega arith))
        (refl, sym lacks, λ filled v'. omega (arith, v'.within))

-- A buffer that `buffer_create` returns is valid and empty, for the PID and the kind of data that it
-- was asked for, unbounded exactly for PES data of length 0, and a PSI buffer has no more room
-- than the largest section; else it returns NULL.
pub buffer_create_lem :
    (a : Allocator) (pid size : ℕ) (pes_data : Bool)
    → (buffer_create a pid size pes_data ≡ none)
      ⊎ ((b : Buffer) × (buffer_create a pid size pes_data ≡ some b)
          × IsValid b
          × (contents b ≡ [])
          × (b.pid ≡ pid % 2 ^ 16)
          × (b.holds_pes_data ≡ pes_data)
          × (b.pes_unbounded_data ≡ (size == 0 && pes_data))
          × (pes_data ≡ false → b.max_size ≤ max_section_size))
unfolding buffer_create
buffer_create_lem a pid size pes_data =
    elim (Bool-cases (ltb max_section_size size && not pes_data)) [
      | inl large ↦ inl (rw large)
      | inr fits ↦
          elim (Bool-cases
            (not (a.calloc_grants sizeof_buffer) || not (a.calloc_grants (room size pes_data)))) [
              | inl refused ↦ inl (rw (fits, refused))
              | inr granted ↦ inr (
                created pid size pes_data,
                rw (fits, granted),
                record {
                  sized = length-replicate (room size pes_data) 0;
                  within = omega arith;
                  section = λ psi. omega arith;
                },
                refl,
                refl,
                refl,
                refl,
                λ psi. ground arith,
              )
            ]
    ]

get_or-append : (xs ys : List ℕ) (j : ℕ) → get_or (xs ++ ys) (length xs + j) 0 ≡ get_or ys j 0
get_or-append [] ys j = ap (λ n. get_or ys n 0) (omega arith)
get_or-append (x ∷ xs) ys j =
    let e : suc (length xs) + j ≡ suc (length xs + j) = omega arith in rw e (get_or-append xs ys j)

module _ (b : Buffer) (v : IsValid b) (msg : List ℕ) (p q r s : ℕ)
    (held : contents b ≡ msg ++ (p ∷ q ∷ r ∷ s ∷ [])) where
  held_size : b.current_size ≡ length msg + 4
  held_size = omega (
    arith,
    length-contents b v,
    ap (λ (l : List ℕ). length l) held,
    length-append msg (p ∷ q ∷ r ∷ s ∷ []),
  )

  tail_byte : (j : ℕ) → j < 4 → byte_at b (b.current_size - 4 + j) ≡ get_or (p ∷ q ∷ r ∷ s ∷ []) j 0
  tail_byte j h =
      let at : b.current_size - 4 + j ≡ length msg + j = omega (arith, held_size) in
      sym (
        get_or-take b.current_size (b.current_size - 4 + j) (allocation b.bytes) 0
          (omega (arith, held_size)))
      ∙ ap (λ l. get_or l (b.current_size - 4 + j) 0) held
      ∙ rw at (get_or-append msg (p ∷ q ∷ r ∷ s ∷ []) j)

  pub buffer_crc32_lem : buffer_crc32 (some b) ≡ ok (convert_to_32 p q r s)
  unfolding buffer_crc32
  buffer_crc32_lem =
      let i = b.current_size - 4 in
      let fits : (ltb b.current_size 4 || ltb (length (allocation b.bytes)) b.current_size)
          ≡ false =
        ground (arith, held_size, v.sized, v.within) in
      let zeroth : byte_at b i ≡ p = ap (byte_at b) (add_nothing i) ∙ tail_byte 0 (omega arith) in
      rw (
        buffer_crc32,
        fits,
        zeroth,
        tail_byte 1 (omega arith),
        tail_byte 2 (omega arith),
        tail_byte 3 (omega arith),
      )
    where
      add_nothing : (i : ℕ) → i ≡ i + 0
      add_nothing i = omega arith

  -- For a buffer of bytes that ends in four bytes, the table-driven check of what it holds accepts
  -- exactly when `buffer_crc32` returns the bit-serial CRC of what is before those four.
  pub buffer_crc32-check :
      (c : Crc32)
      → Table.IsValid c
      → All IsByte msg
      → All IsByte (p ∷ q ∷ r ∷ s ∷ [])
      → ((crc32_check (contents b) c).0 ≡ true) ↔ (buffer_crc32 (some b) ≡ ok (crc msg))
  buffer_crc32-check c vc hm ht =
      let step = crc32_check-trailer msg p q r s c vc hm ht in
      rw (held, buffer_crc32_lem) (λ t. ap ok (step.0 t), λ e. step.1 (cc))
