-- ===== src/Ts/Safety/Packet.antt =====
-- src/ts.c: ts_parse_packet runs without a fault, one packet after the other, where the adaptation
-- field leaves room; and what it does where it does not.
use demuxfs.Prelude.{
  ℕ, ◌+◌, ◌-◌, ◌≤◌, ◌<◌, ◌≡◌, inl, inr, refl, true, false, not, Option, none, some, List, ◌==◌, ltb,
  if◌then◌else◌, ℤ, pos, length, ok, ◌>>=◌, Returns, arith, Bool-cases, get_elem?,
}
use demuxfs.Buffer.{Allocator}
use demuxfs.Ts.Header.{TsHeader, ts_sync_byte}
use demuxfs.Ts.Parsers.{Parser, ts_is_psi_packet, ts_is_pes_packet}
use demuxfs.Ts.Packet.{Options, Tables, Store, read_at, note_counter, ebadmsg, enobufs}
use demuxfs.Ts.Packet.Psi.{first_window, psi_loop}
use demuxfs.Ts.Packet.Pes.{parse_psi, parse_payload, ts_parse_packet}
use demuxfs.Ts.Safety.{Returns-bind, IsSafe, note_counter-IsSafe, get_elem?-some}
use demuxfs.Ts.Safety.Psi.{IsInside, Maybe, first_window-Returns}
use demuxfs.Ts.Safety.Loop.{LoopSafe, psi_loop-Returns}
use demuxfs.Ts.Safety.Pes.{LeavesRoom, parse_pes-Returns}

pub read_at-some :
    (payload : List ℕ) (i n : ℕ) → get_elem? payload i ≡ some n → read_at payload i ≡ ok n
unfolding read_at
read_at-some payload i n e = rw (e, read_at) refl

-- The offset of the last byte that the function looks at.
abbrev pub end_of : Options → ℕ
end_of opt = opt.packet_size - 4 - 1 - opt.packet_error_correction_bytes

-- A packet whose payload can be read to its end, and whose adaptation field, if there is one,
-- leaves three bytes of it.
pub record IsReadable (opt : Options) (header : TsHeader) (payload : List ℕ) : Type 0 where
  pub packet_size : opt.packet_size < 256
  pub readable : end_of opt < length payload
  pub shortest : 3 < length payload
  pub adaptation_field :
      (n : ℕ)
      → header.adaptation_field ≡ 3
      → get_elem? payload 0 ≡ some n
      → (n + 4 < length payload) × (n ≤ end_of opt)
  pub two_bits : header.adaptation_field < 4

module _ {W : Type 0} (a : Allocator) (parse : Parser → TsHeader → List ℕ → Tables W → ℤ × Tables W)
    (opt : Options) (header : TsHeader) (payload : List ℕ) where
  -- A packet that is no PSI packet but a PES packet leaves room for the last byte.
  abbrev pub PesRoom : ℕ → Store W → Type 0
  PesRoom payload_start s =
      ts_is_psi_packet header.pid s.tables.psi_parsers ≡ false
      → ts_is_pes_packet header.pid s.tables.pes_parsers ≡ true
      → LeavesRoom a parse header payload payload_start (end_of opt) s

  -- That is asked of the payload where it begins, behind the adaptation field if there is one.
  pub record IsRoomyPacket (s : Store W) : Type 0 where
    pub plain : header.adaptation_field ≡ 1 → PesRoom 0 s
    pub behind_field :
        (n : ℕ) → header.adaptation_field ≡ 3 → get_elem? payload 0 ≡ some n → PesRoom (1 + n) s

  module _ (fits : end_of opt < length payload) (small : opt.packet_size < 256) where
    parse_psi-Returns :
        (payload_start : ℕ) (s : Store W)
        → payload_start + 3 < length payload
        → payload_start ≤ end_of opt + 1
        → IsSafe s
        → Returns
            (parse_psi a parse opt header payload payload_start (end_of opt) s)
            (λ r. IsSafe r.1)
    unfolding parse_psi
    parse_psi-Returns payload_start s h g v =
        let pusi = not (header.payload_unit_start_indicator == 0) in
        Returns-bind (first_window pusi payload payload_start (end_of opt)) _
          (first_window-Returns payload (end_of opt) fits pusi payload_start h g) after_window
      where
        after_loop :
            (r : Option (Option ℕ) × Store W)
            → LoopSafe a parse opt header payload (end_of opt) fits (omega arith) r
            → Returns {A = ℤ × Store W}
                (elim r.0 [
                  | none ↦ ok (pos 0, r.1)
                  | some buffer ↦ note_counter header buffer r.1 >>= λ s'. ok (pos 0, s')
                ])
                (λ x. IsSafe x.1)
        after_loop (none, s') v = ((pos 0, s'), refl, v)
        after_loop (some buffer, s') v =
            Returns-bind (note_counter header buffer s') _ (note_counter-IsSafe header buffer s' v)
              (λ s'' v''. (_, refl, v''))

        after_window :
            (first : _)
            → Maybe (IsInside (end_of opt)) first
            → Returns {A = ℤ × Store W}
                (elim first [
                  | none ↦ ok (enobufs, s)
                  | some w ↦ psi_loop a parse opt header payload (end_of opt) 2 w none s >>= λ r.
                      elim r.0 [
                        | none ↦ ok (pos 0, r.1)
                        | some buffer ↦ note_counter header buffer r.1 >>= λ s'. ok (pos 0, s')
                      ]
                ])
                (λ x. IsSafe x.1)
        after_window none i = ((enobufs, s), refl, v)
        after_window (some w) i =
            Returns-bind (psi_loop a parse opt header payload (end_of opt) 2 w none s) _
              (psi_loop-Returns a parse opt header payload (end_of opt) fits (omega arith) w s i v)
              after_loop

    parse_payload-Returns :
        (payload_start : ℕ) (s : Store W)
        → payload_start + 3 < length payload
        → payload_start ≤ end_of opt + 1
        → IsSafe s
        → PesRoom payload_start s
        → Returns (parse_payload a parse opt header payload payload_start s) (λ r. IsSafe r.1)
    unfolding parse_payload
    parse_payload-Returns payload_start s h g v roomy =
        elim (Bool-cases (ts_is_psi_packet header.pid s.tables.psi_parsers)) [
          | inl psi ↦ rw psi (parse_psi-Returns payload_start s h g v)
          | inr other ↦ elim (Bool-cases (ts_is_pes_packet header.pid s.tables.pes_parsers)) [
            | inl pes ↦
                rw (other, pes)
                  (parse_pes-Returns a parse header payload payload_start (end_of opt) fits
                    (omega arith) g s v (roomy other pes))
            | inr neither ↦ rw (other, neither) ((pos 0, s), refl, v)
          ]
        ]

  -- For every allocator and every set of parsers, a readable packet on a safe store runs without a
  -- fault and leaves the store safe, unless it completes a bounded PES packet but for its last byte in
  -- a buffer without room for that byte: every packet buffer is valid, holds at most 65540 bytes and is
  -- under a valid address.
  pub ts_parse_packet-IsSafe :
      (s : Store W)
      → IsReadable opt header payload
      → IsSafe s
      → IsRoomyPacket s
      → Returns (ts_parse_packet a parse opt header payload s) (λ r. IsSafe r.1)
  unfolding ts_parse_packet
  ts_parse_packet-IsSafe s p v roomy = elim (Bool-cases (header.sync_byte == ts_sync_byte)) [
    | inr wrong ↦ rw wrong ((ebadmsg, s), refl, v)
    | inl right ↦ elim (Bool-cases (header.adaptation_field == 0)) [
      | inl reserved ↦ rw (right, reserved) ((pos 0, s), refl, v)
      | inr n0 ↦ elim (Bool-cases (header.adaptation_field == 1)) [
        | inl plain ↦
            rw (right, n0, plain)
              (parse_payload-Returns p.readable p.packet_size 0 s p.shortest (omega arith) v
                (roomy.plain (ground arith)))
        | inr n1 ↦ elim (Bool-cases (header.adaptation_field == 2)) [
          | inl alone ↦ rw (right, n0, n1, alone) ((pos 0, s), refl, v)
          | inr n2 ↦
              rw (right, n0, n1, n2)
                (after_field (is_three p.two_bits n0 n1 n2)
                  (get_elem?-some payload 0 (omega (arith, p.shortest))))
        ]
      ]
    ]
  ]
    where
      is_three :
          header.adaptation_field < 4
          → (header.adaptation_field == 0) ≡ false
          → (header.adaptation_field == 1) ≡ false
          → (header.adaptation_field == 2) ≡ false
          → header.adaptation_field ≡ 3
      is_three h n0 n1 n2 = ground arith

      after_field :
          header.adaptation_field ≡ 3
          → (n : ℕ) × (get_elem? payload 0 ≡ some n)
          → Returns
              (read_at payload 0 >>= λ n.
                if ltb opt.packet_size (1 + n)
                then ok (enobufs, s)
                else parse_payload a parse opt header payload (1 + n) s)
              (λ r. IsSafe r.1)
      after_field three (n, e) =
          rw (read_at-some payload 0 n e) (elim (Bool-cases (ltb opt.packet_size (1 + n))) [
            | inl long ↦ rw long ((enobufs, s), refl, v)
            | inr short ↦
                let q = p.adaptation_field n three e in
                rw short (
                  parse_payload-Returns p.readable p.packet_size (1 + n) s (omega (arith, q.0))
                    (omega (arith, q.1)) v (roomy.behind_field n three e))
          ])
