-- ===== src/Tables/Laws.antt =====
-- Reading a payload at an offset: when a read is in bounds, and what it finds where some bytes stand.
use demuxfs.Prelude.{
  ℕ, zero, suc, ◌+◌, ◌<◌, ◌≤◌, ◌≡◌, refl, ap, List, [], ◌∷◌, ◌++◌, length, get_or, Run, ok, fault,
  ◌>>=◌, arith, length-append,
}
use demuxfs.Byteops.{convert_to_16}
use demuxfs.Tables.{at, at16}

-- A read in bounds.
pub at-in : (xs : List ℕ) (i : ℕ) → i < length xs → at xs i ≡ ok (get_or xs i 0)
unfolding at
at-in [] i h = absurd (omega arith)
at-in (x ∷ xs) zero h = refl
at-in (x ∷ xs) (suc i) h = at-in xs i (omega arith)

-- A read out of bounds.
pub at-out : (xs : List ℕ) (i : ℕ) → length xs ≤ i → at xs i ≡ fault
unfolding at
at-out [] i h = refl
at-out (x ∷ xs) zero h = absurd (omega arith)
at-out (x ∷ xs) (suc i) h = at-out xs i (omega arith)

pub at16-in :
    (xs : List ℕ) (i : ℕ)
    → i + 1 < length xs
    → at16 xs i ≡ ok (convert_to_16 (get_or xs i 0) (get_or xs (i + 1) 0))
unfolding at16
at16-in xs i h = rw (at-in xs i (omega arith), at-in xs (i + 1) h) refl

pub at16-out : (xs : List ℕ) (i : ℕ) → length xs ≤ i → at16 xs i ≡ fault
unfolding at16
at16-out xs i h = rw (at-out xs i h) refl

-- The bytes `ys` stand in the payload from `i` on.
abbrev pub Stands : List ℕ → ℕ → List ℕ → Type 0
Stands xs i ys = (k : ℕ) → k < length ys → at xs (i + k) ≡ ok (get_or ys k 0)

get_or-append_left :
    (xs ys : List ℕ) (k : ℕ) → k < length xs → get_or (xs ++ ys) k 0 ≡ get_or xs k 0
get_or-append_left [] ys k h = absurd (omega arith)
get_or-append_left (x ∷ xs) ys zero h = refl
get_or-append_left (x ∷ xs) ys (suc k) h = get_or-append_left xs ys k (omega arith)

get_or-append_right : (xs ys : List ℕ) (k : ℕ) → get_or (xs ++ ys) (length xs + k) 0 ≡ get_or ys k 0
get_or-append_right [] ys k = let e : 0 + k ≡ k = omega arith in rw e refl
get_or-append_right (x ∷ xs) ys k =
    let e : suc (length xs) + k ≡ suc (length xs + k) = omega arith in
    rw e (get_or-append_right xs ys k)

-- What two lists of bytes make together.
module _ (xs : List ℕ) (i : ℕ) (ys zs : List ℕ) (h : Stands xs i (ys ++ zs)) where
  pub left_part : Stands xs i ys
  left_part k l =
      rw (h k (omega (arith, length-append ys zs, l))) (ap ok (get_or-append_left ys zs k l))

  pub right_part : Stands xs (i + length ys) zs
  right_part k l =
      let e : i + length ys + k ≡ i + (length ys + k) = omega arith in
      rw e (
        rw (h (length ys + k) (omega (arith, length-append ys zs, l)))
          (ap ok (get_or-append_right ys zs k)))

-- The bytes of a part stand in the whole.
pub append-Stands : (xs ys zs : List ℕ) → Stands (xs ++ (ys ++ zs)) (length xs) ys
append-Stands xs ys zs k l =
    let long : length xs + k < length (xs ++ (ys ++ zs)) =
      omega (arith, length-append xs (ys ++ zs), length-append ys zs) in
    rw (at-in _ _ long)
      (ap ok (rw (get_or-append_right xs (ys ++ zs) k) (get_or-append_left ys zs k l)))

-- A read where bytes stand.
module _ (xs : List ℕ) (i : ℕ) (ys : List ℕ) (h : Stands xs i ys) where
  pub at-Stands : (k j : ℕ) → k < length ys → i + k ≡ j → at xs j ≡ ok (get_or ys k 0)
  at-Stands k j l e = rw (← e) (h k l)

  pub at16-Stands :
      (k j : ℕ)
      → k + 1 < length ys
      → i + k ≡ j
      → at16 xs j ≡ ok (convert_to_16 (get_or ys k 0) (get_or ys (k + 1) 0))
  unfolding at16
  at16-Stands k j l e =
      rw (at-Stands k j (omega arith) e, at-Stands (k + 1) (j + 1) l (omega arith)) refl

-- What follows any value of a run does not matter where it faults.
pub faults_after {ℓ κ} :
    {A : Type ℓ} {B : Type κ} (r : Run A) (f : A → Run B)
    → ((a : A) → f a ≡ fault)
    → (r >>= f) ≡ fault
faults_after fault f h = refl
faults_after (ok a) f h = h a

pub at16-partly : (xs : List ℕ) (i : ℕ) → length xs ≤ i + 1 → at16 xs i ≡ fault
unfolding at16
at16-partly xs i h =
    faults_after (at xs i) (λ a. at xs (i + 1) >>= λ b. ok (convert_to_16 a b))
      (λ a. rw (at-out xs (i + 1) h) refl)
