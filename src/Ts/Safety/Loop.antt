-- ===== src/Ts/Safety/Loop.antt =====
-- src/ts.c: the loop over the sections of a packet runs without a fault, in two rounds at most.
use demuxfs.Prelude.{
  ℕ, suc, ◌+◌, ◌-◌, ◌≤◌, ◌<◌, ◌≡◌, ◌⊎◌, inl, inr, refl, ap, false, not, ◌&&◌, ◌||◌, Option, none,
  some, List, [], ◌==◌, ltb, ℤ, length, take, drop, Run, ok, ◌>>=◌, Returns, arith, Bool-cases,
  Option-cases, length-drop,
}
use demuxfs.Crc32.{crc32_check}
use demuxfs.Hash.{hashtable_get}
use demuxfs.Buffer.{
  Buffer, Allocator, append_to, section_length, byte_at, allocation,
  buffer_contains_full_psi_section, max_section_size,
}
use demuxfs.Buffer.Laws.{IsValid, contents, length-contents}
use demuxfs.Buffer.Sections.{section_length-lt, full_psi_section, buffer_create_lem}
use demuxfs.Ts.Header.{TsHeader}
use demuxfs.Ts.Parsers.{Parser, ts_get_psi_parser}
use demuxfs.Ts.Continuity.{continuity_counter_is_ok}
use demuxfs.Ts.Packet.{Options, Tables, Store, load}
use demuxfs.Ts.Packet.Psi.{
  Window, is_stuffing, next_window, Found, give_up, found, new_buffer, old_buffer, find_buffer,
  hand_over, deliver, fill, empty, skip_stuffing, Round, finish_round, use_buffer, psi_loop,
}
use demuxfs.Ts.Safety.{
  Returns-bind, IsSound, IsSafe, load-Returns, Reaches, Reaches-IsSafe, store-Reaches, add-Reaches,
  reset-IsSound, continuity-IsSound, Appended, append-Returns, emptied-IsSound,
}
use demuxfs.Ts.Safety.Psi.{IsInside, IsFinal, Maybe, is_stuffing-Returns, next_window-Returns}

module _ {W : Type 0} (a : Allocator) (parse : Parser → TsHeader → List ℕ → Tables W → ℤ × Tables W)
    (opt : Options) (header : TsHeader) (payload : List ℕ) (payload_end : ℕ)
    (fits : payload_end < length payload) (small : payload_end < 255) where
  -- What the choice of a buffer leaves.
  abbrev FoundSafe : Found W → Type 0
  FoundSafe (give_up s) = IsSafe s
  FoundSafe (found buffer s) = Reaches buffer s

  created-IsSound :
      (b : Buffer)
      → IsValid b
      → contents b ≡ []
      → IsSound (record b { continuity_counter = header.continuity_counter })
  created-IsSound b v e = record {
    valid = record { sized = v.sized; within = v.within; section = v.section };
    few = omega (arith, length-contents b v, ap (λ (l : List ℕ). length l) e);
  }

  new_buffer-Safe :
      (w : Window) (s : Store W)
      → IsSafe s
      → FoundSafe (new_buffer a parse opt header payload payload_end w s)
  unfolding new_buffer
  new_buffer-Safe w s v = elim (buffer_create_lem a header.pid (w.section_length + 3) false) [
    | inl refused ↦ rw (refused, new_buffer) v
    | inr (b, e, valid, nothing, pid, kind, bound, room) ↦
        rw (e, new_buffer)
          (add-Reaches s header.pid (record b { continuity_counter = header.continuity_counter }) v
            (created-IsSound b valid nothing))
  ]

  old_buffer-Safe :
      (w : Window) (s : Store W) (address : ℕ) (b : Buffer)
      → Reaches (some address) s
      → IsSound b
      → FoundSafe (old_buffer a parse opt header payload payload_end w s address b)
  unfolding old_buffer
  old_buffer-Safe w s address b r p =
      let b' = (continuity_counter_is_ok header b).1 in
      let r' = store-Reaches s address b' r (continuity-IsSound header b p) in
      elim (Bool-cases (continuity_counter_is_ok header b).0) [
        | inr refused ↦ rw refused r'.0
        | inl fine ↦ elim (Bool-cases (b'.current_size == 0 && not w.is_new_packet)) [
          | inr go ↦ rw (fine, go) r'
          | inl waits ↦ elim (Bool-cases w.pusi) [
            | inl first ↦ rw (fine, waits, first) r'.0
            | inr later ↦ rw (fine, waits, later) r'.0
          ]
        ]
      ]

  find_buffer-Returns :
      (w : Window) (s : Store W)
      → IsSafe s
      → Returns (find_buffer a parse opt header payload payload_end w s) FoundSafe
  unfolding find_buffer new_buffer
  find_buffer-Returns w s v = elim (Option-cases (hashtable_get s.packet_buffer header.pid)) [
    | inl nothing ↦ elim (Bool-cases w.is_new_packet) [
      | inl new ↦
          rw (nothing, new, find_buffer)
            (new_buffer a parse opt header payload payload_end w s, refl, new_buffer-Safe w s v)
      | inr later ↦ rw (nothing, later, find_buffer) (found none s, refl, v)
    ]
    | inr (address, e) ↦
        let h = v.held header.pid address e in
        rw (e, find_buffer)
          (Returns-bind (load s address) _ (load-Returns s address v h)
            (λ b p. (_, refl, old_buffer-Safe w s address b (v, h) p)))
  ]

  hand_over-IsSafe :
      (b : Buffer) (s : Store W)
      → IsSafe s
      → IsSafe (hand_over a parse opt header payload payload_end b s)
        × ((hand_over a parse opt header payload payload_end b s).buffers ≡ s.buffers)
  unfolding hand_over
  hand_over-IsSafe b s v =
      let bytes = take b.current_size (allocation b.bytes) in
      let right = (crc32_check bytes s.crc32).0 in
      elim (Bool-cases (not right && opt.warns_of_crc_errors)) [
        | inl reported ↦ rw reported (kept _ refl refl v, refl)
        | inr silent ↦
            elim (Option-cases (ts_get_psi_parser header (byte_at b 0) s.tables.psi_parsers)) [
              | inl nothing ↦ rw (silent, nothing) (kept _ refl refl v, refl)
              | inr (parser, e) ↦ rw (silent, e) (kept _ refl refl v, refl)
            ]
      ]
    where
      kept :
          {s : Store W} (s' : Store W)
          → s'.packet_buffer ≡ s.packet_buffer
          → s'.buffers ≡ s.buffers
          → IsSafe s
          → IsSafe s'
      kept s' e f v = record { table = rw e v.table; held = rw (e, f) v.held; sound = rw f v.sound }

  partial-IsSound :
      (b r : Buffer)
      → (b.current_size < 4) ⊎ (b.current_size < section_length b + 3)
      → IsValid r
      → (r ≡ b) ⊎ (r.current_size ≡ 0) × (max_section_size < section_length b + 3)
      → IsSound r
  partial-IsSound b r few v (inl same) =
      let lt = section_length-lt b in
      let size : r.current_size ≡ b.current_size = ap (λ (x : Buffer). x.current_size) same in
      record { valid = v; few = grind (arith, few, lt, size) }
  partial-IsSound b r few v (inr (none_left, large)) = record {
    valid = v;
    few = omega (arith, none_left);
  }

  deliver-Safe :
      (ret : ℤ) (b : Buffer) (s : Store W)
      → Appended (ret, b)
      → IsSafe s
      → let d = deliver a parse opt header payload payload_end ret b s in
        IsSound d.0 × IsSafe d.1 × (d.1.buffers ≡ s.buffers)
  unfolding deliver
  deliver-Safe ret b s (valid, inr (e, few)) v = rw e (record { valid = valid; few = few }, v, refl)
  deliver-Safe ret b s (valid, inl e) v = elim (full_psi_section b valid) [
    | inl (t, four, p) ↦
        let b' = (buffer_contains_full_psi_section b).1 in
        let h = hand_over-IsSafe b' s v in rw (e, t) (emptied-IsSound b' p.valid, h.0, h.1)
    | inr (t, few, valid', which) ↦
        rw (e, t)
          (partial-IsSound b (buffer_contains_full_psi_section b).1 few valid' which, v, refl)
  ]

  fill-Returns :
      (w : Window) (buffer : Option ℕ) (s : Store W)
      → IsInside payload_end w
      → Reaches buffer s
      → Returns (fill a parse opt header payload payload_end w buffer s) (Reaches buffer)
  unfolding fill
  fill-Returns w none s i r = (s, refl, r)
  fill-Returns w (some address) s i r =
      let n = w.last + 1 - w.start in
      let buf = drop w.start payload in
      let readable : n ≤ length buf =
        omega (arith, length-drop w.start payload, i.last, i.forward, fits) in
      Returns-bind (load s address) _ (load-Returns s address r.0 r.1) (λ b p.
        Returns-bind (append_to a b buf n) _
          (append-Returns a b buf n p readable (omega (arith, i.last, small)))
          (λ x q.
            let d = deliver-Safe x.0 x.1 s q r.0 in
            let s' = (deliver a parse opt header payload payload_end x.0 x.1 s).1 in
            let reach : address < length s'.buffers =
              omega (arith, ap (λ (l : List Buffer). length l) d.2, r.1) in
            (_, refl, store-Reaches s' address _ (d.1, reach) d.0)))

  empty-Returns :
      (buffer : Option ℕ) (s : Store W)
      → Reaches buffer s
      → Returns (empty a parse opt header payload payload_end buffer s) (Reaches buffer)
  unfolding empty
  empty-Returns none s r = (s, refl, r)
  empty-Returns (some address) s r =
      Returns-bind (load s address) _ (load-Returns s address r.0 r.1)
        (λ b p. (_, refl, store-Reaches s address _ r (reset-IsSound b p)))

  -- The buffer in use afterwards is the one before, or NULL.
  skip_stuffing-Returns :
      (w : Window) (buffer : Option ℕ) (s : Store W)
      → w.start ≤ payload_end
      → Reaches buffer s
      → Returns (skip_stuffing a parse opt header payload payload_end w buffer) (λ b. Reaches b s)
  unfolding skip_stuffing
  skip_stuffing-Returns w buffer s h r = elim (Bool-cases w.is_new_packet) [
    | inr later ↦ rw later (buffer, refl, r)
    | inl new ↦ rw new (
        Returns-bind (is_stuffing payload w.start) _
          (is_stuffing-Returns payload w.start (omega (arith, fits)))
          (λ stuffing _. elim (Bool-cases stuffing) [
            | inl skipped ↦ rw skipped (none, refl, Reaches-IsSafe buffer s r)
            | inr used ↦ rw used (buffer, refl, r)
          ]))
  ]

  -- The end of a round is safe, and a round that follows is the last.
  abbrev pub RoundSafe : Round a parse opt header payload payload_end → Type 0
  RoundSafe r = Reaches r.buffer r.store × Maybe (IsFinal payload_end) r.next

  finish_round-Returns :
      (w : Window) (buffer : Option ℕ) (s : Store W)
      → Reaches buffer s
      → Returns
          (finish_round a parse opt header payload payload_end w buffer s)
          (λ r. RoundSafe r × (w.pusi ≡ false → r.next ≡ none))
  unfolding finish_round
  finish_round-Returns w buffer s r = elim (Bool-cases (not w.pusi || w.pointer_field == 0)) [
    | inl leaves ↦ rw leaves (_, refl, ((r, tt), (λ e. refl)))
    | inr stays ↦ rw stays (
        Returns-bind (empty a parse opt header payload payload_end buffer s) _
          (empty-Returns buffer s r)
          (λ s' r'.
            Returns-bind (next_window w payload payload_end) _
              (next_window-Returns payload payload_end fits w)
              (λ next v. (_, refl, ((r', v), (λ e. absurd (ground arith)))))))
  ]

  use_buffer-Returns :
      (w : Window) (buffer : Option ℕ) (s : Store W)
      → IsInside payload_end w
      → w.start ≤ payload_end
      → Reaches buffer s
      → Returns
          (use_buffer a parse opt header payload payload_end w buffer s)
          (λ r. RoundSafe r × (w.pusi ≡ false → r.next ≡ none))
  unfolding use_buffer
  use_buffer-Returns w buffer s i h r =
      Returns-bind (skip_stuffing a parse opt header payload payload_end w buffer) _
        (skip_stuffing-Returns w buffer s h r)
        (λ b r1.
          Returns-bind (fill a parse opt header payload payload_end w b s) _
            (fill-Returns w b s i r1) (λ s' r2. finish_round-Returns w b s' r2))

  -- What the loop leaves: after `return 0` a safe store, else also the buffer in use.
  abbrev pub LoopSafe : Option (Option ℕ) × Store W → Type 0
  LoopSafe (none, s) = IsSafe s
  LoopSafe (some buffer, s) = Reaches buffer s

  abbrev rounds_from : ℕ → Window → Option ℕ → Store W → Run (Option (Option ℕ) × Store W)
  rounds_from n w buffer s = psi_loop a parse opt header payload payload_end n w buffer s

  -- One round, if what follows it is safe.
  round-Returns :
      (n : ℕ) (w : Window) (buffer : Option ℕ) (s : Store W)
      → IsInside payload_end w
      → Reaches buffer s
      → (w.pusi ≡ false
          ⊎ ((w' : Window) (b' : Option ℕ) (s' : Store W)
              → IsFinal payload_end w'
              → Reaches b' s'
              → Returns (rounds_from n w' b' s') LoopSafe))
      → Returns (rounds_from (suc n) w buffer s) LoopSafe
  unfolding psi_loop
  round-Returns n w buffer s i r rest = elim (Bool-cases (ltb payload_end w.start)) [
    | inl behind ↦ rw behind ((some buffer, s), refl, r)
    | inr inside ↦ rw inside (
        Returns-bind (find_buffer a parse opt header payload payload_end w s) _
          (find_buffer-Returns w s (Reaches-IsSafe buffer s r)) (after_find inside))
  ]
    where
      after_next :
          (next : Option Window) (b : Option ℕ) (s' : Store W)
          → Reaches b s'
          → Maybe (IsFinal payload_end) next
          → (w.pusi ≡ false → next ≡ none)
          → Returns
              (elim next [
                | none ↦ ok (some b, s')
                | some w' ↦ psi_loop a parse opt header payload payload_end n w' b s'
              ])
              LoopSafe
      after_next none b s' r v only = ((some b, s'), refl, r)
      after_next (some w') b s' r v only = elim rest [
        | inl last ↦ let impossible = only last in absurd cc
        | inr go ↦ go w' b s' v r
      ]

      starts : ltb payload_end w.start ≡ false → w.start ≤ payload_end
      starts e = ground arith

      after_find :
          ltb payload_end w.start ≡ false
          → (f : Found W) → FoundSafe f
          → Returns
              (elim f [
                | give_up s' ↦ ok (none, s')
                | found at s' ↦ use_buffer a parse opt header payload payload_end w at s' >>= λ r.
                    elim r.next [
                      | none ↦ ok (some r.buffer, r.store)
                      | some w' ↦
                          psi_loop a parse opt header payload payload_end n w' r.buffer r.store
                    ]
              ])
              LoopSafe
      after_find inside (give_up s') v = ((none, s'), refl, v)
      after_find inside (found at s') v =
          Returns-bind (use_buffer a parse opt header payload payload_end w at s') _
            (use_buffer-Returns w at s' i (starts inside) v)
            (λ r p. after_next r.next r.buffer r.store p.0.0 p.0.1 p.1)

  -- Two rounds are enough.
  pub psi_loop-Returns :
      (w : Window) (s : Store W)
      → IsInside payload_end w
      → IsSafe s
      → Returns (psi_loop a parse opt header payload payload_end 2 w none s) LoopSafe
  psi_loop-Returns w s i v =
      round-Returns 1 w none s i v (inr (λ w' b' s' f r. round-Returns 0 w' b' s' f.0 r (inl f.1)))
