-- ===== src/Buffer.antt =====
-- src/buffer.c: the buffers in which the packets of one PID are put together.
-- `data` is the allocation that the pointer holds, byte by byte, or `none` for NULL; its first
-- `current_size` bytes are the ones that were appended. `size_t` arithmetic wraps at 2 ^ 64. The C
-- library's allocator is a parameter with what its manual says of it.
pub mod Laws
pub mod Cases
pub mod Append
pub mod Sections
use demuxfs.Prelude.{
  ℕ, ◌+◌, ◌-◌, ◌%◌, ◌^◌, ◌≡◌, Bool, true, false, not, ◌&&◌, ◌||◌, Option, none, some, List, [],
  ◌++◌, ◌==◌, ltb, leb, if◌then◌else◌, ℤ, pos, negsuc, to_int, length, take, drop, get_or,
  replicate, bit_and, Run, ok, fault, min,
}
use demuxfs.Byteops.{convert_to_16, convert_to_32}
use demuxfs.Pes.StreamId.{pes_identify_stream_id, is_video, is_audio}

abbrev pub max_section_size : ℕ
max_section_size = 4096

pub record Buffer : Type 0 where
  pub bytes : Option (List ℕ)
  pub pid : ℕ
  pub max_size : ℕ
  pub current_size : ℕ
  pub continuity_counter : ℕ
  pub holds_pes_data : Bool
  pub pes_unbounded_data : Bool

-- calloc grants or refuses a zeroed allocation; malloc's bytes are anything; realloc keeps the bytes
-- that fit and leaves the old allocation alone where it refuses.
pub record Allocator : Type 0 where
  pub calloc_grants : ℕ → Bool
  pub malloc : ℕ → Option (List ℕ)
  pub realloc : List ℕ → ℕ → Option (List ℕ)
  pub malloc_size : (n : ℕ) (m : List ℕ) → malloc n ≡ some m → length m ≡ n
  pub realloc_size : (old : List ℕ) (n : ℕ) (m : List ℕ) → realloc old n ≡ some m → length m ≡ n
  pub realloc_keeps :
      (old : List ℕ) (n : ℕ) (m : List ℕ)
      → realloc old n ≡ some m
      → take (min n (length old)) m ≡ take (min n (length old)) old

abbrev pub einval : ℤ
einval = negsuc 21

abbrev pub enomem : ℤ
enomem = negsuc 11

-- sizeof(struct buffer)
abbrev pub sizeof_buffer : ℕ
sizeof_buffer = 40

-- The bytes behind the data pointer; none behind NULL.
abbrev pub allocation : Option (List ℕ) → List ℕ
allocation none = []
allocation (some m) = m

-- `data[i]`, on an allocation that has it.
abbrev pub byte_at : Buffer → ℕ → ℕ
byte_at b i = get_or (allocation b.bytes) i 0

abbrev pub overwrite : List ℕ → ℕ → List ℕ → List ℕ
overwrite m at bs = take at m ++ (bs ++ drop (at + length bs) m)

-- `memcpy(&buffer->data[buffer->current_size], buf, n)` and the two lines behind it.
unfoldable pub write : Buffer → List ℕ → ℕ → Run (ℤ × Buffer)
write b buf n = elim b.bytes [
  | none ↦ fault
  | some m ↦
      let size = (b.current_size + n) % 2 ^ 64 in
      if leb n (length buf) && leb (b.current_size + n) (length m)
      then ok (
        to_int size,
        record b { bytes = some (overwrite m b.current_size (take n buf)); current_size = size },
      )
      else fault
]

-- `int new_size`, from `int required_room`.
unfoldable pub new_size : ℤ → ℕ
new_size (pos n) = if ltb max_section_size n then n else max_section_size
new_size (negsuc n) = max_section_size

-- PES data of length 0 has no known end.
abbrev pub unbounded : ℕ → Bool → Bool
unbounded size pes_data = size == 0 && pes_data

abbrev pub room : ℕ → Bool → ℕ
room size pes_data = if unbounded size pes_data then max_section_size else size

-- The structure that `buffer_create` fills in.
abbrev pub created : ℕ → ℕ → Bool → Buffer
created pid size pes_data = record {
  bytes = some (replicate (room size pes_data) 0);
  pid = pid % 2 ^ 16;
  max_size = room size pes_data;
  current_size = 0;
  continuity_counter = 0;
  holds_pes_data = pes_data;
  pes_unbounded_data = unbounded size pes_data;
}

module _ (a : Allocator) where
  unfoldable pub buffer_create : ℕ → ℕ → Bool → Option Buffer
  buffer_create pid size pes_data =
      if ltb max_section_size size && not pes_data
      then none
      else if not (a.calloc_grants sizeof_buffer) || not (a.calloc_grants (room size pes_data))
      then none
      else some (created pid size pes_data)

  -- The first bytes of a section or packet.
  unfoldable pub append_first : Buffer → List ℕ → ℕ → Run (ℤ × Buffer)
  append_first b buf size =
      if ltb b.max_size size
      then elim (a.malloc size) [
        | none ↦ ok (enomem, record b { bytes = none; max_size = 0 })
        | some m ↦ write (record b { bytes = some m; max_size = size }) buf size
      ]
      else write b buf size

  -- The reallocation, and the copy behind it.
  unfoldable pub grow_and_write : Buffer → List ℕ → ℕ → ℕ → Run (ℤ × Buffer)
  grow_and_write b buf to_write room = elim (a.realloc (allocation b.bytes) room) [
    | none ↦ ok (enomem, b)
    | some m ↦ write (record b { bytes = some m; max_size = room }) buf to_write
  ]

  -- Further bytes; a PSI buffer takes what fits the largest section.
  unfoldable pub append_more : Buffer → List ℕ → ℕ → Run (ℤ × Buffer)
  append_more b buf size =
      let cur = b.current_size in
      let to_write =
        if ltb max_section_size ((cur + size) % 2 ^ 64) && not b.holds_pes_data
        then (max_section_size + 2 ^ 64 - cur) % 2 ^ 64
        else size in
      if ltb b.max_size ((cur + to_write) % 2 ^ 64)
      then grow_and_write b buf to_write (new_size (to_int (cur + to_write)))
      else write b buf to_write

  -- `buf` holds the bytes that can be read behind the pointer.
  unfoldable pub append_to : Buffer → List ℕ → ℕ → Run (ℤ × Buffer)
  append_to b buf size =
      if size == 0
      then ok (to_int b.current_size, b)
      else if b.current_size == 0
      then append_first b buf size
      else append_more b buf size

  unfoldable pub buffer_append : Option Buffer → Option (List ℕ) → ℕ → Run (ℤ × Option Buffer)
  buffer_append none buf size = ok (einval, none)
  buffer_append (some b) none size = ok (einval, some b)
  buffer_append (some b) (some buf) size = elim (append_to b buf size) [
    | ok (ret, b') ↦ ok (ret, some b')
    | fault ↦ fault
  ]

unfoldable pub buffer_get_current_size : Option Buffer → ℤ
buffer_get_current_size none = pos 0
buffer_get_current_size (some b) = to_int b.current_size

unfoldable pub buffer_get_max_size : Option Buffer → ℤ
buffer_get_max_size none = pos 0
buffer_get_max_size (some b) = to_int b.max_size

abbrev pub buffer_reset_size : Buffer → Buffer
buffer_reset_size b = record b { current_size = 0 }

-- The length field of a PSI section.
unfoldable pub section_length : Buffer → ℕ
section_length b = bit_and (convert_to_16 (byte_at b 1) (byte_at b 2)) 0x0fff

-- `! buffer->data || buffer->current_size < n`
abbrev pub too_short : Buffer → ℕ → Bool
too_short b n = elim b.bytes [ none ↦ true | some m ↦ ltb b.current_size n ]

unfoldable pub buffer_contains_full_psi_section : Buffer → Bool × Buffer
buffer_contains_full_psi_section b =
    let n = section_length b in
    if too_short b 4
    then (false, b)
    else if ltb b.current_size (n + 3)
    then (false, if ltb max_section_size (n + 3) then buffer_reset_size b else b)
    else (true, record b { current_size = n + 3 })

-- The length field of a PES packet.
unfoldable pub packet_length : Buffer → ℕ
packet_length b = convert_to_16 (byte_at b 4) (byte_at b 5)

unfoldable pub buffer_contains_full_pes_section : Buffer → Bool × Buffer
buffer_contains_full_pes_section b =
    let n = packet_length b in
    if too_short b 6
    then (false, b)
    else if not b.pes_unbounded_data
    then if ltb b.current_size (n + 6 - 1)
      then (false, b)
      else (true, record b { current_size = n + 6 })
    else (true, b)

unfoldable pub buffer_is_unbounded : Buffer → Bool × Buffer
buffer_is_unbounded b =
    let stream_type = pes_identify_stream_id (byte_at b 3) in
    if b.pes_unbounded_data
    then (true, b)
    else if b.holds_pes_data && ltb 6 b.current_size
    then if (is_video stream_type || is_audio stream_type) && packet_length b == 0
      then (true, record b { pes_unbounded_data = true })
      else (false, b)
    else (false, b)

-- The last four bytes; with fewer of them the index is negative.
unfoldable pub buffer_crc32 : Option Buffer → Run ℕ
buffer_crc32 none = ok 0
buffer_crc32 (some b) =
    let i = b.current_size - 4 in
    if ltb b.current_size 4 || ltb (length (allocation b.bytes)) b.current_size
    then fault
    else ok
        (convert_to_32 (byte_at b i) (byte_at b (i + 1)) (byte_at b (i + 2)) (byte_at b (i + 3)))
