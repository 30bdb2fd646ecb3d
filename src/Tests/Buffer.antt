-- ===== src/Tests/Buffer.antt =====
-- src/buffer.c at small buffers.
use demuxfs.Prelude.{ℕ, ◌≤◌, refl, true, false, some, List, [], ◌∷◌, arith, length, Returns}
use demuxfs.Crc32.{fresh}
use demuxfs.Crc32.Table
use demuxfs.Crc32.Table.{crc}
use demuxfs.Buffer.{Buffer, append_to}
use demuxfs.Tests.Allocator.{generous}
use demuxfs.Buffer.Laws.{IsValid}
use demuxfs.Buffer.Append.{AppendSpec, append_to-AppendSpec}

abbrev psi_buffer : List ℕ → ℕ → Buffer
psi_buffer bytes size = record {
  bytes = some bytes;
  pid = 16;
  max_size = length bytes;
  current_size = size;
  continuity_counter = 0;
  holds_pes_data = false;
  pes_unbounded_data = false;
}

abbrev pes_buffer : List ℕ → ℕ → Buffer
pes_buffer bytes size = record (psi_buffer bytes size) { holds_pes_data = true }

abbrev section : Buffer
section = psi_buffer (0x40 ∷ 0 ∷ 1 ∷ 9 ∷ 9 ∷ []) 5

section-IsValid : IsValid section
section-IsValid = record { sized = refl; within = omega arith; section = λ psi. omega arith }

append_to-AppendSpec_example :
    Returns (append_to generous section (7 ∷ 8 ∷ []) 2) (AppendSpec section (7 ∷ 8 ∷ []))
append_to-AppendSpec_example =
    append_to-AppendSpec generous section section-IsValid (7 ∷ 8 ∷ []) 2 (omega arith)
      (λ psi. omega arith) (omega arith)

-- A packet with one byte behind the length field.
abbrev packet : ℕ → Buffer
packet size = pes_buffer (0 ∷ 0 ∷ 1 ∷ 0xbd ∷ 0 ∷ 1 ∷ 5 ∷ []) size

packet-IsValid : (size : ℕ) → size ≤ 7 → IsValid (packet size)
packet-IsValid size h = record { sized = refl; within = h; section = λ psi. omega arith }

fresh-IsValid : Table.IsValid fresh
fresh-IsValid = record { filled = λ e. ground arith }

abbrev ones : Buffer
ones = psi_buffer (0xff ∷ 0xff ∷ 0xff ∷ 0xff ∷ []) 4

ones-IsValid : IsValid ones
ones-IsValid = record { sized = refl; within = omega arith; section = λ psi. omega arith }
