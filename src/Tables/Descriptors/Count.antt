-- ===== src/Tables/Descriptors/Count.antt =====
-- src/tables/descriptors/descriptors.c: when the loop of descriptors_count ends.
use demuxfs.Prelude.{
  ℕ, zero, suc, ◌+◌, ◌-◌, ◌≤◌, ◌<◌, ◌≡◌, ◌≢◌, refl, false, Option, none, some, List, [], ◌∷◌, ltb,
  ◌==◌, Run, ok, fault, ◌>>=◌, arith, All, Bool-cases, inl, inr,
}
use demuxfs.Tables.{at}
use demuxfs.Tables.Descriptors.{next_count, descriptors_count, advance}

-- A byte that is read where none is 0xfe.
data Read : Run ℕ → Type 0 where
  out : Read fault
  read : (b : ℕ) → b ≢ 0xfe → Read (ok b)

at-Read : (xs : List ℕ) (i : ℕ) → All (λ b. b ≢ 0xfe) xs → Read (at xs i)
unfolding at
at-Read [] i h = out
at-Read (x ∷ xs) zero (h, hs) = read x h
at-Read (x ∷ xs) (suc i) (h, hs) = at-Read xs i hs

-- The steps that the loop takes are not 0.
data Step : Option ℕ → Type 0 where
  bad : Step none
  step : (n : ℕ) → 1 ≤ n → Step (some n)

next_count-Step : (b : ℕ) → b ≢ 0xfe → Step (next_count b)
unfolding next_count
next_count-Step b h = elim (Bool-cases (ltb b 128)) [
  | inl e ↦ rw e (step (b + 2) (omega arith))
  | inr e ↦ elim (Bool-cases (ltb b 254)) [
    | inl e' ↦ rw (e, e') bad
    | inr e' ↦ rw (e, e') (step (b - 254) (ground arith))
  ]
]

some≢none : {A : Type 0} (a : A) → ◌≢◌ {A = Run (Option A)} (ok (some a)) (ok none)
some≢none a e = cc e

go_on :
    (again : ℕ → Run (Option ℕ)) (o : Option ℕ)
    → Step o
    → ((n : ℕ) → 1 ≤ n → again n ≢ ok none)
    → advance again o ≢ ok none
go_on again _ bad k = some≢none 0
go_on again _ (step n p) k = k n p

after :
    (again : ℕ → Run (Option ℕ)) (r : Run ℕ)
    → Read r
    → ((n : ℕ) → 1 ≤ n → again n ≢ ok none)
    → (r >>= λ b. advance again (next_count b)) ≢ ok none
after again _ out k = λ e. cc e
after again _ (read b ne) k = go_on again (next_count b) (next_count-Step b ne) k

-- When no byte of the payload is 0xfe, the loop of descriptors_count ends in one round more than there
-- are bytes left at most.
pub descriptors_count-ends :
    (payload : List ℕ) (rounds i len num : ℕ)
    → All (λ b. b ≢ 0xfe) payload
    → len < rounds
    → descriptors_count rounds payload i len num ≢ ok none
unfolding descriptors_count
descriptors_count-ends payload zero i len num h l = absurd (omega arith)
descriptors_count-ends payload (suc rounds) i len num h l = elim (Bool-cases (len == 0)) [
  | inl e ↦ rw e (some≢none num)
  | inr e ↦
      let not_zero : 1 ≤ len = ground (arith, e) in
      elim (Bool-cases (ltb len 2)) [
        | inl e' ↦ rw (e, e') (some≢none 0)
        | inr e' ↦
            rw (e, e')
              (after _ (at payload (i + 1)) (at-Read payload (i + 1) h) (λ n p.
                descriptors_count-ends payload rounds (i + n) (len - n) (num + 1) h
                  (omega (arith, p, l, not_zero))))
      ]
]

-- A descriptor that announces 0xfe bytes keeps the loop where it is: it does not end in any number of
-- rounds.
pub descriptors_count-forever :
    (payload : List ℕ) (i len num : ℕ)
    → at payload (i + 1) ≡ ok 0xfe
    → 2 ≤ len
    → (rounds : ℕ) → descriptors_count rounds payload i len num ≡ ok none
unfolding descriptors_count next_count
descriptors_count-forever payload i len num e l zero = refl
descriptors_count-forever payload i len num e l (suc rounds) =
    let t : (len == 0) ≡ false = ground arith in
    let t' : ltb len 2 ≡ false = ground arith in
    let here : i + 0 ≡ i = omega arith in
    let left : len - 0 ≡ len = omega arith in
    let ih = descriptors_count-forever payload i len (num + 1) e l rounds in
    rw (t, t') (rw e (rw (here, left) ih))
