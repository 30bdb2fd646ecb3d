-- ===== src/Buffer/Laws.antt =====
-- src/buffer.c: the invariant of a buffer, what it holds, and what a write does.
use mathlib.Core.List.{append_assoc}
use demuxfs.Prelude.{
  ℕ, ◌+◌, ◌%◌, ◌^◌, ◌≤◌, ◌<◌, ◌≡◌, refl, true, false, some, List, ◌++◌, pos, to_int_small, length,
  take, drop, arith, Returns, length-append, length-take, length-drop, take-append_self, leb,
}
use demuxfs.Buffer.{Buffer, max_section_size, allocation, overwrite, write}

-- `sized` also says that a NULL pointer stands for an allocation of no bytes.
pub record IsValid (b : Buffer) : Type 0 where
  pub sized : length (allocation b.bytes) ≡ b.max_size
  pub within : b.current_size ≤ b.max_size
  pub section : b.holds_pes_data ≡ false → b.current_size ≤ max_section_size

-- The bytes that a buffer holds.
abbrev pub contents : Buffer → List ℕ
contents b = take b.current_size (allocation b.bytes)

pub length-contents : (b : Buffer) → IsValid b → length (contents b) ≡ b.current_size
length-contents b v =
    omega (arith, length-take b.current_size (allocation b.bytes), v.sized, v.within)

-- What a memory copy leaves in front of its end.
take-overwrite :
    (m bs : List ℕ) (at k : ℕ)
    → k ≡ at + length bs
    → k ≤ length m
    → take k (overwrite m at bs) ≡ take at m ++ bs
take-overwrite m bs at k e h =
    let front = take at m in
    let rest = drop (at + length bs) m in
    let n : k ≡ length (front ++ bs) = omega (arith, length-append front bs, length-take at m) in
    rw (← append_assoc front bs rest, n) (take-append_self (front ++ bs) rest)

length-overwrite :
    (m bs : List ℕ) (at : ℕ) → at + length bs ≤ length m → length (overwrite m at bs) ≡ length m
length-overwrite m bs at h = omega (
  arith,
  length-append (take at m) (bs ++ drop (at + length bs) m),
  length-append bs (drop (at + length bs) m),
  length-take at m,
  length-drop (at + length bs) m,
)

le→leb : (a b : ℕ) → a ≤ b → leb a b ≡ true
le→leb a b h = ground arith

-- A write that fits puts the first `n` bytes of `buf` behind the contents, and returns the new size.
pub write_lem :
    (b : Buffer) (buf m : List ℕ) (n : ℕ)
    → b.bytes ≡ some m
    → n ≤ length buf
    → b.current_size + n ≤ length m
    → b.current_size + n < 2 ^ 31
    → Returns (write b buf n) λ r.
      (r.0 ≡ pos (b.current_size + n))
      × (r.1.current_size ≡ b.current_size + n)
      × (length (allocation r.1.bytes) ≡ length m)
      × (take (b.current_size + n) (allocation r.1.bytes) ≡ take b.current_size m ++ take n buf)
      × (r.1.max_size ≡ b.max_size)
      × (r.1.holds_pes_data ≡ b.holds_pes_data)
      × (r.1.pes_unbounded_data ≡ b.pes_unbounded_data)
unfolding write
write_lem b buf m n e hn hm small =
    let cur = b.current_size in
    let bs = take n buf in
    let size : (cur + n) % 2 ^ 64 ≡ cur + n = omega arith in
    let n_bs : length bs ≡ n = omega (arith, length-take n buf) in
    (
      (pos (cur + n), record b { bytes = some (overwrite m cur bs); current_size = cur + n }),
      rw (
        e,
        write,
        le→leb n (length buf) hn,
        le→leb (cur + n) (length m) hm,
        size,
        to_int_small (cur + n) small,
      ),
      (
        refl,
        refl,
        length-overwrite m bs cur (omega arith),
        take-overwrite m bs cur (cur + n) (omega arith) hm,
        refl,
        refl,
        refl,
      ),
    )
