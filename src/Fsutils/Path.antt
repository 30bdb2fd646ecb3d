-- ===== src/Fsutils/Path.antt =====
-- src/fsutils.c: the path of an entry leads back to the entry.
use mathlib.Core.Path.{subst}
use mathlib.Core.List.{append-nil}
use demuxfs.Prelude.{
  ℕ, zero, suc, ◌+◌, ◌-◌, ◌≤◌, ◌≡◌, refl, sym, ap, ◌∙◌, true, false, some, List, [], ◌∷◌, ◌++◌,
  length, length-append, ◌==◌, ltb, ok, fault, arith, inl, inr, Bool-cases,
}
use demuxfs.Fsutils.{
  Dentry, Dentries, load_dentry, slash, is_null, is_empty, path_walk_loop, fsutils_path_walk,
  after_slash, fsutils_get_dentry, get_dentry_loop,
}
use demuxfs.Fsutils.Below.{Below, top, child, end, resolve, walk_up}

-- The path as it is written out: that of the root is a slash.
abbrev pub shown : List ℕ → List ℕ
shown [] = slash ∷ []
shown (x ∷ xs) = x ∷ xs

shown-append : (path name : List ℕ) → shown (path ++ slash ∷ name) ≡ path ++ slash ∷ name
shown-append [] name = refl
shown-append (x ∷ path) name = refl

-- In a buffer with room for the path and its NUL, and with a round for each level and one more, the walk from an
-- entry up to the root writes the path of the entry.
pub fsutils_path_walk_lem :
    (fs : Dentries) (root : ℕ) {n a : ℕ} {path : List ℕ} (rounds size : ℕ)
    → Below fs root n path a
    → n + 2 ≤ rounds
    → length (shown path) + 1 ≤ size
    → fsutils_path_walk rounds fs a size ≡ ok (some (shown path))
unfolding fsutils_path_walk path_walk_loop
fsutils_path_walk_lem fs root rounds zero b r h = absurd (omega arith)
fsutils_path_walk_lem fs root zero (suc size) b r h = absurd (omega arith)
fsutils_path_walk_lem fs root (suc zero) (suc size) (top d l name parent) r h = absurd (omega arith)
fsutils_path_walk_lem fs root (suc (suc rounds)) (suc size) (top d l name parent) r h =
    let room : ltb (suc size) 2 ≡ false = ground arith in
    let fits : ltb size 1 ≡ false = ground arith in rw l (rw (name, parent) (rw (room, fits) refl))
fsutils_path_walk_lem fs root (suc rounds) (suc size)
      (child {n} {path} {p} a d below l parent _ _ _) r h =
    let len : length (path ++ slash ∷ d.name) ≡ length path + suc (length d.name) =
      length-append path (slash ∷ d.name) in
    let e = shown-append path d.name in
    let h' : length (path ++ slash ∷ d.name) + 1 ≤ suc size =
      subst (λ s. length s + 1 ≤ suc size) e h in
    let room : ltb (suc size) (length d.name + 1) ≡ false = ground arith in
    let fits : ltb size (length d.name) ≡ false = ground arith in
    let next : suc size - length d.name ≡ suc (size - length d.name) = omega arith in
    rw l (
      rw (parent, e)
        (rw (room, fits, next, append-nil d.name)
          (walk_up fs root below rounds (size - length d.name) d.name (omega arith) (omega arith))))

root_entry :
    (fs : Dentries) (root : ℕ) {n a : ℕ} {path : List ℕ}
    → Below fs root n path a
    → (d : Dentry) × (load_dentry fs root ≡ ok d)
root_entry fs root (top d l _ _) = (d, l)
root_entry fs root (child a d below _ _ _ _ _) = root_entry fs root below

has_slash : (xs ys : List ℕ) → is_null (after_slash (xs ++ slash ∷ ys)) ≡ false
unfolding after_slash
has_slash [] ys = refl
has_slash (x ∷ xs) ys = elim (Bool-cases (x == slash)) [
  | inl e ↦ rw e refl
  | inr e ↦ rw e (has_slash xs ys)
]

length-nonempty : (xs : List ℕ) → is_empty xs ≡ false → 1 ≤ length xs
length-nonempty [] e = ground (arith, e)
length-nonempty (x ∷ xs) e = omega arith

-- A path of at least two bytes with a slash is resolved by the loop.
get_dentry-loop :
    (fs : Dentries) (root k : ℕ) (s : List ℕ) (d : Dentry)
    → load_dentry fs root ≡ ok d
    → 2 ≤ length s
    → is_null (after_slash s) ≡ false
    → fsutils_get_dentry (suc k) fs root s ≡ get_dentry_loop k fs root s
unfolding fsutils_get_dentry
get_dentry-loop fs root k [] d l h e = absurd (omega arith)
get_dentry-loop fs root k (x ∷ []) d l h e = absurd (omega arith)
get_dentry-loop fs root k (x ∷ y ∷ zs) d l h e = rw l (rw e refl)

get_dentry-Below :
    (fs : Dentries) (root : ℕ) {n a : ℕ} {path : List ℕ} (depth : ℕ)
    → Below fs root n path a
    → n + 2 ≤ depth
    → fsutils_get_dentry depth fs root (shown path) ≡ ok (some a)
unfolding fsutils_get_dentry get_dentry_loop after_slash
get_dentry-Below fs root zero b r = absurd (omega arith)
get_dentry-Below fs root (suc k) (top d l name parent) r = refl
get_dentry-Below fs root (suc k) (child {n} {path} {p} a d below l parent h e c) r =
    let s : List ℕ = path ++ slash ∷ d.name in
    let (dr, lr) = root_entry fs root below in
    let one = length-nonempty d.name e in
    let len : length s ≡ length path + suc (length d.name) = length-append path (slash ∷ d.name) in
    let last : get_dentry_loop (suc (k - n - 2)) fs a [] ≡ ok (some a) = refl in
    let walk =
      resolve fs root (child a d below l parent h e c) (suc (k - n - 2)) k [] (omega arith) end in
    rw (shown-append path d.name) (
      get_dentry-loop fs root k s dr lr (omega arith) (has_slash path d.name)
      ∙ sym (ap (λ t. get_dentry_loop k fs root t) (append-nil s))
      ∙ walk
      ∙ last)

-- For an entry whose parents up to the root each find their child by its name, and whose names have no slash,
-- resolving the path that the walk up to the root has written, in a buffer with room for it, gives the entry
-- back.
pub get_dentry-path_walk :
    (fs : Dentries) (root n a rounds size depth : ℕ) (path : List ℕ)
    → Below fs root n path a
    → n + 2 ≤ rounds
    → length (shown path) + 1 ≤ size
    → n + 2 ≤ depth
    → (s : List ℕ) × (fsutils_path_walk rounds fs a size ≡ ok (some s))
      × (fsutils_get_dentry depth fs root s ≡ ok (some a))
get_dentry-path_walk fs root n a rounds size depth path b r h k = (
  shown path,
  fsutils_path_walk_lem fs root rounds size b r h,
  get_dentry-Below fs root depth b k,
)

-- Where the names of an entry and of its parent, which is not the root, take as many bytes as the buffer has, less
-- one, the walk writes in front of the buffer.
pub path_walk_underrun :
    (fs : Dentries) (rounds a p q size : ℕ) (d dp : Dentry)
    → load_dentry fs a ≡ ok d
    → d.parent ≡ some p
    → load_dentry fs p ≡ ok dp
    → dp.parent ≡ some q
    → size ≡ length d.name + length dp.name + 1
    → fsutils_path_walk (suc (suc rounds)) fs a size ≡ fault
unfolding fsutils_path_walk path_walk_loop
path_walk_underrun fs rounds a p q zero d dp l e lp ep h = absurd (omega arith)
path_walk_underrun fs rounds a p q (suc size) d dp l e lp ep h =
    let room : ltb (suc size) (length d.name + 1) ≡ false = ground arith in
    let fits : ltb size (length d.name) ≡ false = ground arith in
    let room' : ltb (suc size - length d.name) (length dp.name + 1) ≡ false = ground arith in
    let fits' : ltb (size - length d.name) (length dp.name + 1) ≡ true = ground arith in
    rw l (rw (e, room, fits) (rw lp (rw (ep, room') (rw fits' refl))))
