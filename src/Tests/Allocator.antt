-- ===== src/Tests/Allocator.antt =====
-- An allocator for the concrete inputs.
use demuxfs.Prelude.{
  ℕ, ◌≡◌, ◌∙◌, some, List, ◌++◌, true, arith, length, take, replicate, min, length-replicate,
  length-take, length-append, take-take, take-append_le,
}
use demuxfs.Buffer.{Allocator}

abbrev pub resized : List ℕ → ℕ → List ℕ
resized old n = take n (old ++ replicate n 0)

pub length-resized : (old : List ℕ) (n : ℕ) → length (resized old n) ≡ n
length-resized old n = omega (
  arith,
  length-take n (old ++ replicate n 0),
  length-append old (replicate n 0),
  length-replicate {A = ℕ} n 0,
)

pub take-resized :
    (old : List ℕ) (n : ℕ)
    → take (min n (length old)) (resized old n) ≡ take (min n (length old)) old
take-resized old n =
    take-take (min n (length old)) n (old ++ replicate n 0) (omega arith)
    ∙ take-append_le (min n (length old)) old (replicate n 0) (omega arith)

pub granted-size : (n : ℕ) (m : List ℕ) → some (replicate n 0) ≡ some m → length m ≡ n
granted-size n m e = let same : m ≡ replicate n 0 = cc in rw same (length-replicate n 0)

pub regranted-size :
    (old : List ℕ) (n : ℕ) (m : List ℕ) → some (resized old n) ≡ some m → length m ≡ n
regranted-size old n m e = let same : m ≡ resized old n = cc in rw same (length-resized old n)

pub regranted-keeps :
    (old : List ℕ) (n : ℕ) (m : List ℕ)
    → some (resized old n) ≡ some m
    → take (min n (length old)) m ≡ take (min n (length old)) old
regranted-keeps old n m e = let same : m ≡ resized old n = cc in rw same (take-resized old n)

-- An allocator that never refuses.
abbrev pub generous : Allocator
generous = record {
  calloc_grants = λ n. true;
  malloc = λ n. some (replicate n 0);
  realloc = λ old n. some (resized old n);
  malloc_size = λ n m e. granted-size n m e;
  realloc_size = λ old n m e. regranted-size old n m e;
  realloc_keeps = λ old n m e. regranted-keeps old n m e;
}
