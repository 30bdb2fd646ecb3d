-- ===== src/Tables/Descriptors/Laws.antt =====
-- src/tables/descriptors/descriptors.c: descriptors that stand in a payload are counted and parsed.
use demuxfs.Prelude.{
  ℕ, zero, suc, ◌+◌, ◌-◌, ◌<◌, ◌≡◌, refl, ap, false, true, some, List, [], ◌∷◌, ◌++◌, length, ltb,
  ◌==◌, ok, arith, All, length-append,
}
use demuxfs.Tables.{at}
use demuxfs.Tables.Laws.{Stands, at-Stands, left_part, right_part}
use demuxfs.Tables.Descriptors.{Call, called, descriptors_parse, next_count, descriptors_count}

pub record Descriptor : Type 0 where
  pub tag : ℕ
  pub body : List ℕ

abbrev pub write_descriptor : Descriptor → List ℕ
write_descriptor d = d.tag ∷ length d.body ∷ d.body

abbrev pub write_descriptors : List Descriptor → List ℕ
write_descriptors [] = []
write_descriptors (d ∷ ds) = write_descriptor d ++ write_descriptors ds

-- One call for each descriptor that has a parser, in their order.
abbrev pub calls_of : ℕ → List Descriptor → List Call
calls_of i [] = []
calls_of i (d ∷ ds) = called d.tag i (length d.body) ++ calls_of (i + (2 + length d.body)) ds

-- A length below 128 is the same as a signed and an unsigned char.
abbrev pub IsShort : Descriptor → Type 0
IsShort d = length d.body < 128

module _ (payload : List ℕ) (i : ℕ) (d : Descriptor) (ds : List Descriptor)
    (h : Stands payload i (write_descriptors (d ∷ ds))) where
  pub here : Stands payload i (write_descriptor d)
  here = left_part payload i (write_descriptor d) (write_descriptors ds) h

  pub tag_there : at payload i ≡ ok d.tag
  tag_there = at-Stands payload i (write_descriptor d) here 0 i (omega arith) (omega arith)

  pub len_there : at payload (i + 1) ≡ ok (length d.body)
  len_there = at-Stands payload i (write_descriptor d) here 1 (i + 1) (omega arith) refl

  pub rest_there : Stands payload (i + (2 + length d.body)) (write_descriptors ds)
  rest_there k l =
      let e : i + suc (suc (length d.body)) ≡ i + (2 + length d.body) = omega arith in
      rw (← e) (right_part payload i (write_descriptor d) (write_descriptors ds) h k l)

pub nothing_between {ℓ} : {A : Type ℓ} (xs ys : List A) → (xs ++ []) ++ ys ≡ xs ++ ys
nothing_between [] ys = refl
nothing_between (x ∷ xs) ys = ap (λ l. x ∷ l) (nothing_between xs ys)

pub parse_lem :
    (payload : List ℕ) (i : ℕ) (ds : List Descriptor)
    → Stands payload i (write_descriptors ds)
    → descriptors_parse (length ds) payload i ≡ ok (length (write_descriptors ds), calls_of i ds)
unfolding descriptors_parse
parse_lem payload i [] h = refl
parse_lem payload i (d ∷ ds) h =
    let ih = parse_lem payload (i + (2 + length d.body)) ds (rest_there payload i d ds h) in
    rw (tag_there payload i d ds h, len_there payload i d ds h)
      (rw ih (
        ap (λ n. ok (n, calls_of i (d ∷ ds)))
          (omega (arith, length-append d.body (write_descriptors ds)))))

next_count-short : (b : ℕ) → b < 128 → next_count b ≡ some (b + 2)
unfolding next_count
next_count-short b h = let t : ltb b 128 ≡ true = ground arith in rw t refl

pub count_lem :
    (payload : List ℕ) (i : ℕ) (ds : List Descriptor) (rounds len num : ℕ)
    → Stands payload i (write_descriptors ds)
    → All IsShort ds
    → len ≡ length (write_descriptors ds)
    → length ds < rounds
    → descriptors_count rounds payload i len num ≡ ok (some (num + length ds))
unfolding descriptors_count
count_lem payload i ds zero len num h s e r = absurd (omega arith)
count_lem payload i [] (suc rounds) len num h s e r =
    let t : (len == 0) ≡ true = ground arith in rw t (ap (λ n. ok (some n)) (omega arith))
count_lem payload i (d ∷ ds) (suc rounds) len num h (s, ss) e r =
    let size = length-append d.body (write_descriptors ds) in
    let long : len ≡ 2 + length d.body + length (write_descriptors ds) = omega (arith, e, size) in
    let t : (len == 0) ≡ false = ground (arith, long) in
    let t' : ltb len 2 ≡ false = ground (arith, long) in
    let same : length d.body + 2 ≡ 2 + length d.body = omega arith in
    let ih =
      count_lem payload (i + (2 + length d.body)) ds rounds (len - (2 + length d.body)) (num + 1)
        (rest_there payload i d ds h) ss (omega (arith, long)) (omega (arith, r)) in
    rw (t, t')
      (rw (len_there payload i d ds h) (
        rw (next_count-short (length d.body) s)
          (rw same (rw ih (ap (λ n. ok (some n)) (omega arith))))))
