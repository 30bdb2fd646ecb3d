-- ===== src/Dsmcc/Modules.antt =====
-- src/dsm-cc/dii.c: the blocks of a module, and the module that they make up.
-- `blocks` gives the contents of the file "block_<b>.bin" of a module, `none` where there is none.
use native.Mathlib.Nat.{suc-mul, add-mul, div-add-mod', mod-lt}
use demuxfs.Prelude.{
  ℕ, zero, suc, ◌+◌, ◌-◌, ◌*◌, ◌/◌, ◌%◌, ◌^◌, ◌≤◌, ◌<◌, ◌≡◌, refl, ap, Bool, true, false, ◌&&◌,
  Option, none, some, List, [], ◌∷◌, ◌++◌, length, take, drop, ltb, ◌==◌, if◌then◌else◌, Run, ok,
  fault, ◌>>=◌, arith, take-append-drop, length-take, length-drop, Bool-cases, inl, inr, ◌≢◌,
  ==_iff,
}

unfoldable pub dii_expected_module_blocks : ℕ → ℕ → ℕ
dii_expected_module_blocks module_size block_size =
    module_size / block_size + (if module_size % block_size == 0 then 0 else 1)

abbrev is_there : Option (List ℕ) → Bool
is_there none = false
is_there (some b) = true

-- The loop over the blocks that a module should have, from `i` on.
unfoldable pub blocks_there : (ℕ → Option (List ℕ)) → ℕ → ℕ → Bool
blocks_there blocks i zero = true
blocks_there blocks i (suc n) = is_there (blocks i) && blocks_there blocks (i + 1) n

-- For a module whose directory is there.
unfoldable pub dii_module_complete : (ℕ → Option (List ℕ)) → ℕ → ℕ → Bool
dii_module_complete blocks module_size block_size =
    if module_size == 0
    then true
    else blocks_there blocks 0 (dii_expected_module_blocks module_size block_size)

-- The loop that copies the blocks one behind the other, into `room` bytes: over the numbers `b` up to
-- UINT16_MAX, until `missing` blocks have been found. A block that does not fit is written past the end.
unfoldable pub gather : ℕ → (ℕ → Option (List ℕ)) → ℕ → ℕ → ℕ → Run (List ℕ)
gather zero blocks b missing room = ok []
gather (suc numbers) blocks b missing room = if missing == 0 then ok [] else elim (blocks b) [
  | none ↦ gather numbers blocks (b + 1) missing room
  | some bytes ↦
      if ltb room (length bytes)
      then fault
      else (gather numbers blocks (b + 1) (missing - 1) (room - length bytes) >>= λ rest.
          ok (bytes ++ rest))
]

-- The bytes that dii_create_filesystem copies together; the length that it hands on with them is one more.
unfoldable pub download_data : (ℕ → Option (List ℕ)) → ℕ → ℕ → Run (List ℕ)
download_data blocks module_size block_size =
    gather (2 ^ 16 - 1) blocks 0 (dii_expected_module_blocks module_size block_size) module_size

-- The blocks from `b` on are those of the data, `n` of them.
abbrev pub AreBlocks : (ℕ → Option (List ℕ)) → ℕ → ℕ → List ℕ → ℕ → Type 0
AreBlocks blocks b size data_ zero = Unit {0}
AreBlocks blocks b size data_ (suc n) =
    (blocks b ≡ some (take size data_)) × AreBlocks blocks (b + 1) size (drop size data_) n

gather_lem :
    (blocks : ℕ → Option (List ℕ)) (size numbers b missing : ℕ) (data_ : List ℕ)
    → missing ≤ numbers
    → length data_ ≤ missing * size
    → missing * size < length data_ + size
    → AreBlocks blocks b size data_ missing
    → gather numbers blocks b missing (length data_) ≡ ok data_
unfolding gather
gather_lem blocks size zero b zero [] l h k a = refl
gather_lem blocks size (suc numbers) b zero [] l h k a = refl
gather_lem blocks size zero b zero (x ∷ data_) l h k a = absurd (omega arith)
gather_lem blocks size (suc numbers) b zero (x ∷ data_) l h k a = absurd (omega arith)
gather_lem blocks size zero b (suc missing) data_ l h k a = absurd (omega arith)
gather_lem blocks size (suc numbers) b (suc missing) data_ l h k (here, rest) =
    let mul : suc missing * size ≡ missing * size + size = suc-mul missing size in
    let len = length-take size data_ in
    let len' = length-drop size data_ in
    let fits : ltb (length data_) (length (take size data_)) ≡ false = ground (arith, len) in
    let left : length data_ - length (take size data_) ≡ length (drop size data_) =
      omega (arith, len, len') in
    let ih =
      gather_lem blocks size numbers (b + 1) missing (drop size data_) (omega arith)
        (omega (arith, mul, len', h)) (omega (arith, mul, len', k)) rest in
    let more : (suc missing == 0) ≡ false = ground arith in
    let one : suc missing - 1 ≡ missing = omega arith in
    rw (more, here) (rw (fits, left, one) (rw ih (ap ok (take-append-drop size data_))))

blocks_there-AreBlocks :
    (blocks : ℕ → Option (List ℕ)) (b size n : ℕ) (data_ : List ℕ)
    → AreBlocks blocks b size data_ n
    → blocks_there blocks b n ≡ true
unfolding blocks_there
blocks_there-AreBlocks blocks b size zero data_ a = refl
blocks_there-AreBlocks blocks b size (suc n) data_ (here, rest) =
    rw here (blocks_there-AreBlocks blocks (b + 1) size n (drop size data_) rest)

-- So many blocks are enough, and one less is not.
expected_lem :
    (n size : ℕ)
    → 1 ≤ size
    → (n ≤ dii_expected_module_blocks n size * size)
      × (dii_expected_module_blocks n size * size < n + size)
unfolding dii_expected_module_blocks
expected_lem n size h =
    let e = div-add-mod' n size in
    let l : n % size < size = mod-lt n (omega arith) in
    elim (Bool-cases (n % size == 0)) [
      | inl whole ↦
          let none_left : n % size ≡ 0 = (==_iff (n % size) 0).0 whole in
          let same : (n / size + 0) * size ≡ n / size * size = ap (λ q. q * size) (omega arith) in
          rw whole (omega (arith, e, same, none_left), omega (arith, e, same, none_left, h))
      | inr part ↦
          let left : n % size ≢ 0 = λ z. ground (arith, part, z) in
          let more : (n / size + 1) * size ≡ n / size * size + 1 * size =
            add-mul (n / size) 1 size in
          rw part (omega (arith, e, more, l), omega (arith, e, more, left))
    ]

-- When the blocks of a module are the pieces of some data, in their order, and there are fewer than 2 ^ 16 of them,
-- the module is complete, and what is put together of the blocks is the data.
pub download_data-AreBlocks :
    (blocks : ℕ → Option (List ℕ)) (data_ : List ℕ) (block_size : ℕ)
    → 1 ≤ block_size
    → dii_expected_module_blocks (length data_) block_size < 2 ^ 16
    → AreBlocks blocks 0 block_size data_ (dii_expected_module_blocks (length data_) block_size)
    → (dii_module_complete blocks (length data_) block_size ≡ true)
      × (download_data blocks (length data_) block_size ≡ ok data_)
unfolding dii_module_complete download_data
download_data-AreBlocks blocks data_ block_size h l a =
    let n = dii_expected_module_blocks (length data_) block_size in
    let there = blocks_there-AreBlocks blocks 0 block_size n data_ a in
    let (enough, few) = expected_lem (length data_) block_size h in
    (
      elim (Bool-cases (length data_ == 0)) [ inl z ↦ rw z refl | inr z ↦ rw (z, there) refl ],
      gather_lem blocks block_size (2 ^ 16 - 1) 0 n data_ (omega arith) enough few a,
    )
