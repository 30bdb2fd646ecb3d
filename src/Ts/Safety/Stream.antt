-- ===== src/Ts/Safety/Stream.antt =====
-- src/ts.c, src/main.c: whole streams run without a fault; where an adaptation field leaves no room
-- for the bytes that are read, a packet does not.
use demuxfs.Prelude.{
  ℕ, zero, suc, ◌+◌, ◌≤◌, ◌≡◌, refl, true, false, Option, none, some, List, [], ◌∷◌, ltb, ℤ, length,
  get_elem?, ok, fault, false, Returns, arith, Bool-cases, inl, inr, ◌%◌, get_or, replicate,
}
use demuxfs.Buffer.{Allocator}
use demuxfs.Crc32.{Crc32}
use demuxfs.Hash.{Item, hashtable_new, hashtable_get, probe, probe_loop}
use demuxfs.Hash.Add.{hashtable_new-IsValid}
use demuxfs.Ts.Header.{TsHeader, ts_sync_byte}
use demuxfs.Ts.Parsers.{Parser, ts_is_psi_packet}
use demuxfs.Ts.Packet.{Options, Tables, Store, read_at}
use demuxfs.Ts.Packet.Psi.{first_window}
use demuxfs.Ts.Packet.Pes.{parse_psi, parse_payload, ts_parse_packet, stops, parse_packets}
use demuxfs.Ts.Safety.{every_nil, IsSafe}
use demuxfs.Ts.Safety.Packet.{IsReadable, IsRoomyPacket, ts_parse_packet-IsSafe, read_at-some}

-- The state before the first packet, with a table of DEMUXFS_MAX_PIDS slots.
abbrev pub started : {W : Type 0} → Crc32 → Tables W → Store W
started crc32 tables = record {
  packet_buffer = hashtable_new 256;
  buffers = [];
  crc32 = crc32;
  tables = tables;
}

get-new : {A : Type 0} (n q : ℕ) → hashtable_get (hashtable_new {A = A} n) q ≡ none
unfolding hashtable_get probe probe_loop hashtable_new
get-new zero q = refl
get-new {A} (suc n) q = rw (vacant_at (suc n) (q % suc n), hashtable_get) refl
  where
    vacant_at : (n i : ℕ) → get_or {A = Option (Item A)} (replicate n none) i none ≡ none
    vacant_at zero i = refl
    vacant_at (suc n) zero = refl
    vacant_at (suc n) (suc i) = vacant_at n i

pub started-IsSafe :
    {W : Type 0} (crc32 : Crc32) (tables : Tables W) → IsSafe (started crc32 tables)
started-IsSafe crc32 tables = record {
  table = hashtable_new-IsValid 256 (omega arith);
  held = λ q i e.
      let nothing : hashtable_get {A = ℕ} (hashtable_new 256) q ≡ none = get-new 256 q in absurd cc;
  sound = every_nil;
}

nothing_behind : (xs : List ℕ) (i : ℕ) → length xs ≤ i → get_elem? xs i ≡ none
nothing_behind [] i h = refl
nothing_behind (x ∷ xs) zero h = absurd (omega arith)
nothing_behind (x ∷ xs) (suc i) h = nothing_behind xs i (omega arith)

read_behind : (xs : List ℕ) (i : ℕ) → length xs ≤ i → read_at xs i ≡ fault
unfolding read_at
read_behind xs i h = rw (nothing_behind xs i h, read_at) refl

module _ {W : Type 0} (a : Allocator) (parse : Parser → TsHeader → List ℕ → Tables W → ℤ × Tables W)
    (opt : Options) where
  -- Every packet is readable, and finds room in the store that it meets.
  abbrev pub AllFine : List (TsHeader × List ℕ) → Store W → Type 0
  AllFine [] s = Unit {0}
  AllFine (p ∷ packets) s =
      IsReadable opt p.0 p.1
      × IsRoomyPacket a parse opt p.0 p.1 s
      × ((r : ℤ × Store W)
          → ts_parse_packet a parse opt p.0 p.1 s ≡ ok r
          → stops r.0 ≡ false
          → AllFine packets r.1)

  -- A run of readable packets, one after the other, on a safe store ends without a fault in a safe
  -- store, for every allocator and every set of parsers, unless one of them completes a bounded PES
  -- packet but for its last byte in a buffer without room for that byte.
  pub parse_packets-IsSafe :
      (packets : List (TsHeader × List ℕ)) (s : Store W)
      → IsSafe s
      → AllFine packets s
      → Returns (parse_packets a parse opt packets s) IsSafe
  unfolding parse_packets
  parse_packets-IsSafe [] s v fine = (s, refl, v)
  parse_packets-IsSafe (p ∷ packets) s v (readable, roomy, rest) =
      let (r, e, w) = ts_parse_packet-IsSafe a parse opt p.0 p.1 s readable v roomy in
      rw e (elim (Bool-cases (stops r.0)) [
        | inl stop ↦ rw stop (r.1, refl, w)
        | inr on ↦ rw on (parse_packets-IsSafe packets r.1 w (rest r e on))
      ])

  -- The test on the adaptation field is against the whole packet, not the payload: a PSI packet with
  -- PUSI set whose adaptation field ends behind the payload but not behind `packet_size` passes it,
  -- and its pointer field is read outside of the payload.
  pub adaptation_field_overrun :
      (header : TsHeader) (payload : List ℕ) (n : ℕ) (s : Store W)
      → header.sync_byte ≡ ts_sync_byte
      → header.adaptation_field ≡ 3
      → header.payload_unit_start_indicator ≡ 1
      → ts_is_psi_packet header.pid s.tables.psi_parsers ≡ true
      → get_elem? payload 0 ≡ some n
      → length payload ≤ 1 + n
      → 1 + n ≤ opt.packet_size
      → ts_parse_packet a parse opt header payload s ≡ fault
  unfolding ts_parse_packet parse_payload parse_psi first_window
  adaptation_field_overrun header payload n s sync three pusi psi e behind fits =
      let long : ltb opt.packet_size (1 + n) ≡ false = ground arith in
      rw
        (
          sync,
          three,
          read_at-some payload 0 n e,
          long,
          psi,
          pusi,
          read_behind payload (1 + n) behind,
        )
        refl
