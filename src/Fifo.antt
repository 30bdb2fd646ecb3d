-- ===== src/Fifo.antt =====
-- src/fifo.c: the FIFO through which a process reads a stream.
-- What the system answers to calls of open() and write() is given from outside. A file descriptor below
-- zero is `none`.
use demuxfs.Prelude.{
  ℕ, zero, suc, ◌≤◌, ◌≡◌, refl, Bool, true, false, Option, none, some, List, [], ◌∷◌, ◌++◌, length,
  take, replicate, ltb, if◌then◌else◌, Run, ok, fault, arith,
}

pub record Fifo : Type 0 where
  pub flushed : Bool
  pub fd : Option ℕ

-- write() has taken some bytes, or failed with EAGAIN, or with another error.
pub data Written : Type 0 where
  wrote : ℕ → Written
  again : Written
  failed : Written

unfoldable pub fifo_init : Fifo
fifo_init = record { flushed = true; fd = none }

-- `opened` is what open() answers, should it be called.
unfoldable pub fifo_is_open : Option ℕ → Fifo → Bool × Fifo
fifo_is_open opened f = elim f.fd [
  | some n ↦ (true, f)
  | none ↦ elim opened [ some n ↦ (true, record f { fd = some n }) | none ↦ (false, f) ]
]

abbrev pub closed : Fifo
closed = record { flushed = true; fd = none }

-- What one answer makes of the FIFO.
abbrev pub settle : Written → Fifo → Fifo
settle (wrote zero) f = closed
settle (wrote (suc n)) f = record f { flushed = false }
settle again f = f
settle failed f = closed

abbrev pub taken : Written → List ℕ → List ℕ
taken (wrote n) data_ = take n data_
taken again data_ = []
taken failed data_ = []

pub record Appended : Type 0 where
  pub fifo : Fifo
  pub bytes : List ℕ
  pub answers : List Written

-- The loop over the answers; `none` when all of them have been EAGAIN, and it has not ended.
unfoldable pub append_loop : List Written → Fifo → List ℕ → Option Appended
append_loop [] f data_ = none
append_loop (again ∷ rest) f data_ = append_loop rest (settle again f) data_
append_loop (a ∷ rest) f data_ =
    some record { fifo = settle a f; bytes = taken a data_; answers = rest }

-- `data_` is what can be read at `data`: to hand write() more than that is a fault.
unfoldable pub fifo_append : List Written → Fifo → List ℕ → ℕ → Run (Option Appended)
fifo_append answers f data_ size =
    if ltb (length data_) size then fault else ok (append_loop answers f (take size data_))

append_loop-again :
    (k : ℕ) (rest : List Written) (f : Fifo) (data_ : List ℕ)
    → append_loop (replicate k again ++ rest) f data_ ≡ append_loop rest f data_
unfolding append_loop
append_loop-again zero rest f data_ = refl
append_loop-again (suc k) rest f data_ = append_loop-again k rest f data_

-- However often write() answers with EAGAIN, the loop ends with its first other answer. When that answer has
-- taken some bytes, the reader gets these, and the FIFO stays open and counts as written to; when it has taken
-- none, or is another error, the reader gets nothing, and the FIFO is closed and counts as flushed.
pub fifo_append_ends :
    (k size : ℕ) (rest : List Written) (f : Fifo) (data_ : List ℕ)
    → size ≤ length data_
    → ((n : ℕ)
        → fifo_append (replicate k again ++ (wrote (suc n) ∷ rest)) f data_ size
          ≡ ok (
              some record {
                fifo = record { flushed = false; fd = f.fd };
                bytes = take (suc n) (take size data_);
                answers = rest;
              }))
      × (fifo_append (replicate k again ++ (wrote 0 ∷ rest)) f data_ size
          ≡ ok (
              some
                record { fifo = record { flushed = true; fd = none }; bytes = []; answers = rest }))
      × (fifo_append (replicate k again ++ (failed ∷ rest)) f data_ size
          ≡ ok (
              some
                record { fifo = record { flushed = true; fd = none }; bytes = []; answers = rest }))
unfolding fifo_append append_loop
fifo_append_ends k size rest f data_ h =
    let fits : ltb (length data_) size ≡ false = ground arith in
    let given = take size data_ in
    (
      λ n. rw (fits, append_loop-again k (wrote (suc n) ∷ rest) f given) refl,
      rw (fits, append_loop-again k (wrote 0 ∷ rest) f given) refl,
      rw (fits, append_loop-again k (failed ∷ rest) f given) refl,
    )
