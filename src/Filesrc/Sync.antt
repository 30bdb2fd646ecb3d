-- ===== src/Filesrc/Sync.antt =====
-- src/backends/filesrc.c: the search for the packet size by the sync bytes of a regular file.
use demuxfs.Prelude.{
  ℕ, zero, suc, ◌+◌, ◌-◌, ◌*◌, ◌<◌, ◌≡◌, ◌↔◌, refl, ap, ◌∙◌, Bool, true, false, not, List, [], ◌∷◌,
  arith, length, get_or, get_elem?, ◌==◌, ◌||◌, if◌then◌else◌, Bool-cases, ◌⊎◌, inl, inr, some,
}
use demuxfs.Filesrc.{File, fseek_set, sync_attempt, sync_loop, search_sync_byte}
use demuxfs.Ts.Header.{ts_sync_byte}

get_elem?-get_or : (xs : List ℕ) (i : ℕ) → i < length xs → get_elem? xs i ≡ some (get_or xs i 0)
get_elem?-get_or [] i h = absurd (omega arith)
get_elem?-get_or (x ∷ xs) zero h = refl
get_elem?-get_or (x ∷ xs) (suc i) h = get_elem?-get_or xs i (omega arith)

module _ (bytes : List ℕ) (size : ℕ) where
  abbrev pub file_at : ℕ → File
  file_at q = record { bytes = bytes; position = q; eof = false; io_error = false; is_fifo = false }

  abbrev at : ℕ → ℕ
  at i = get_or bytes i 0

  attempt_at :
      (q d1 d2 : ℕ)
      → q + size < length bytes
      → sync_attempt size d1 d2 (file_at q) ≡ (at q, at (q + size), file_at (q + size + 1))
  unfolding sync_attempt
  attempt_at q d1 d2 h =
      let to : q + 1 + size - 1 ≡ q + size = omega arith in
      ground (
        arith,
        get_elem?-get_or bytes q (omega arith),
        get_elem?-get_or bytes (q + size) h,
        ap (get_elem? bytes) to,
      )

  abbrev differs : ℕ → ℕ → Bool
  differs c1 c2 = not (c1 == ts_sync_byte) || not (c2 == ts_sync_byte)

  sync_step :
      (n q d1 d2 : ℕ)
      → q + size < length bytes
      → sync_loop (suc n) size d1 d2 (file_at q) ≡ (
          if differs (at q) (at (q + size))
          then (false, file_at 0)
          else sync_loop n size (at q) (at (q + size)) (file_at (q + size)))
  unfolding sync_loop
  sync_step n q d1 d2 h =
      ap
        (λ (r : ℕ × ℕ × File).
          if differs r.0 r.1
          then (false, fseek_set r.2 0)
          else sync_loop n size r.0 r.1 (fseek_set r.2 (r.2.position - 1)))
        (attempt_at q d1 d2 h)
      ∙ ap
          (λ x.
            if differs (at q) (at (q + size))
            then (false, file_at 0)
            else sync_loop n size (at q) (at (q + size)) (file_at x))
          (back q)
    where
      back : (q : ℕ) → q + size + 1 - 1 ≡ q + size
      back q = omega arith

  -- A sync byte at `q`, and `size` bytes on, and so on, `n` times.
  abbrev pub Synced : ℕ → ℕ → Type 0
  Synced zero q = Unit
  Synced (suc n) q = (at q ≡ ts_sync_byte) × (at (q + size) ≡ ts_sync_byte) × Synced n (q + size)

  sync_loop-Synced :
      (n q d1 d2 : ℕ)
      → q + n * size < length bytes
      → ((sync_loop n size d1 d2 (file_at q)).0 ≡ true)
          × Synced n q
          × ((sync_loop n size d1 d2 (file_at q)).1 ≡ file_at (q + n * size))
        ⊎ ((sync_loop n size d1 d2 (file_at q)).0 ≡ false)
          × (¬ Synced n q)
          × ((sync_loop n size d1 d2 (file_at q)).1 ≡ file_at 0)
  sync_loop-Synced zero q d1 d2 h = unfold sync_loop in inl (refl, tt, ap file_at (omega arith))
  sync_loop-Synced (suc n) q d1 d2 h =
      let step = sync_step n q d1 d2 (grind arith) in
      elim (Bool-cases (differs (at q) (at (q + size)))) [
        | inl bad ↦ rw (step, bad) (inr (refl, (λ s. ground arith), refl))
        | inr good ↦
            rw (step, good)
              (next n q (ground arith) (ground arith)
                (sync_loop-Synced n (q + size) (at q) (at (q + size)) (omega arith)))
      ]
    where
      next :
          (n q : ℕ)
          → at q ≡ ts_sync_byte
          → at (q + size) ≡ ts_sync_byte
          → {r : Bool × File}
          → (r.0 ≡ true) × Synced n (q + size) × (r.1 ≡ file_at (q + size + n * size))
            ⊎ (r.0 ≡ false) × (¬ Synced n (q + size)) × (r.1 ≡ file_at 0)
          → (r.0 ≡ true) × Synced (suc n) q × (r.1 ≡ file_at (q + suc n * size))
            ⊎ (r.0 ≡ false) × (¬ Synced (suc n) q) × (r.1 ≡ file_at 0)
      next n q a b (inl (t, s, e)) = inl (t, (a, b, s), e ∙ ap file_at (omega arith))
      next n q a b (inr (t, s, e)) = inr (t, (λ s'. s s'.2), e)

  -- On a regular file with five packets and a byte left from its position, the search succeeds
  -- exactly if a sync byte stands at the start of each of the packets and behind the last, and then
  -- leaves the position as it was; else it rewinds the file.
  pub search_sync_byte-Synced :
      (q : ℕ)
      → q + 5 * size < length bytes
      → (((search_sync_byte (file_at q) size).0 ≡ true) ↔ Synced 5 q)
        × ((search_sync_byte (file_at q) size).1
            ≡ file_at (if (search_sync_byte (file_at q) size).0 then q else 0))
  unfolding search_sync_byte
  search_sync_byte-Synced q h =
      answer (sync_loop 5 size 0 0 (file_at q)) (sync_loop-Synced 5 q 0 0 h)
    where
      answer :
          (r : Bool × File)
          → (r.0 ≡ true) × Synced 5 q × (r.1 ≡ file_at (q + 5 * size))
            ⊎ (r.0 ≡ false) × (¬ Synced 5 q) × (r.1 ≡ file_at 0)
          → ((r.0 ≡ true) ↔ Synced 5 q)
            × ((if r.0 then fseek_set r.1 q else r.1) ≡ file_at (if r.0 then q else 0))
      answer (true, f) (inl (t, s, e)) = (((λ _. s), (λ _. refl)), ap (λ x. fseek_set x q) e)
      answer (false, f) (inl (t, s, e)) = absurd (ground arith)
      answer (true, f) (inr (t, s, e)) = absurd (ground arith)
      answer (false, f) (inr (t, s, e)) =
          (((λ t'. absurd (ground arith)), (λ s'. absurd (s s'))), e)
