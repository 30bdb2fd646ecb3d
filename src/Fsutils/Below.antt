-- ===== src/Fsutils/Below.antt =====
-- src/fsutils.c: entries that are reached by their paths.
use mathlib.Core.List.{append_assoc}
use demuxfs.Prelude.{
  ℕ, zero, suc, ◌+◌, ◌-◌, ◌≤◌, ◌≡◌, ◌≢◌, refl, ap, ◌∙◌, true, false, none, some, List, [], ◌∷◌,
  ◌++◌, length, length-append, All, ◌==◌, ltb, ok, arith,
}
use demuxfs.Fsutils.{
  Dentry, Dentries, load_dentry, fsutils_get_child, slash, is_empty, path_walk_loop, after_slash,
  component, get_dentry_loop,
}

-- The entry at `a` lies `n` levels below the root, and `path` leads there: on each level the parent finds the
-- child by its name, and the child knows its parent.
pub data Below (fs : Dentries) (root : ℕ) : ℕ → List ℕ → ℕ → Type 0 where
  top :
      (d : Dentry)
      → load_dentry fs root ≡ ok d
      → d.name ≡ slash ∷ []
      → d.parent ≡ none
      → Below fs root 0 [] root
  child :
      {n : ℕ} {path : List ℕ} {p : ℕ} (a : ℕ) (d : Dentry)
      → Below fs root n path p
      → load_dentry fs a ≡ ok d
      → d.parent ≡ some p
      → All (λ x. x ≢ slash) d.name
      → is_empty d.name ≡ false
      → fsutils_get_child fs p d.name ≡ ok (some a)
      → Below fs root (suc n) (path ++ slash ∷ d.name) a

-- What stands behind a name: the end of the path, or a slash.
pub data Boundary : List ℕ → Type 0 where
  end : Boundary []
  more : (s : List ℕ) → Boundary (slash ∷ s)

pub component-append :
    (name tail : List ℕ)
    → All (λ x. x ≢ slash) name
    → Boundary tail
    → component (name ++ tail) ≡ name
unfolding component
component-append [] _ h end = refl
component-append [] _ h (more s) = refl
component-append (x ∷ xs) tail h b =
    let test : (x == slash) ≡ false = ground (arith, h.0) in
    rw test (ap (λ l. x ∷ l) (component-append xs tail h.1 b))

pub after_slash-append :
    (name tail : List ℕ) → All (λ x. x ≢ slash) name → after_slash (name ++ tail) ≡ after_slash tail
unfolding after_slash
after_slash-append [] tail h = refl
after_slash-append (x ∷ xs) tail h =
    let test : (x == slash) ≡ false = ground (arith, h.0) in
    rw test (after_slash-append xs tail h.1)

-- The loop looks for the next slash, so a name in front of it makes no difference.
pub loop_skips :
    (k : ℕ) (fs : Dentries) (a : ℕ) (name tail : List ℕ)
    → All (λ x. x ≢ slash) name
    → get_dentry_loop k fs a (name ++ tail) ≡ get_dentry_loop k fs a tail
unfolding get_dentry_loop
loop_skips zero fs a name tail h = refl
loop_skips (suc k) fs a name tail h = rw (after_slash-append name tail h, get_dentry_loop) refl

pub loop_step :
    (k : ℕ) (fs : Dentries) (p a : ℕ) (name tail : List ℕ)
    → All (λ x. x ≢ slash) name
    → is_empty name ≡ false
    → Boundary tail
    → fsutils_get_child fs p name ≡ ok (some a)
    → get_dentry_loop (suc k) fs p (slash ∷ (name ++ tail)) ≡ get_dentry_loop k fs a tail
unfolding get_dentry_loop after_slash
loop_step k fs p a name tail h e b c =
    rw (component-append name tail h b) (rw (e, c) (loop_skips k fs a name tail h))

module _ (fs : Dentries) (root : ℕ) where
  pub resolve :
      {n a : ℕ} {path : List ℕ}
      → Below fs root n path a
      → (k m : ℕ) (tail : List ℕ) → m ≡ k + n
      → Boundary tail
      → get_dentry_loop m fs root (path ++ tail) ≡ get_dentry_loop k fs a tail
  resolve (top d _ _ _) k m tail e b = ap (λ i. get_dentry_loop i fs root tail) (omega arith)
  resolve (child {n} {path} {p} a d below _ _ h e c) k m tail fuel b =
      rw (append_assoc path (slash ∷ d.name) tail) (
        resolve below (suc k) m (slash ∷ (d.name ++ tail)) (omega arith) (more (d.name ++ tail))
        ∙ loop_step k fs p a d.name tail h e b c)

  pub walk_up :
      {n p : ℕ} {path : List ℕ}
      → Below fs root n path p
      → (rounds ptr : ℕ) (out : List ℕ) → n + 2 ≤ rounds
      → length path + 1 ≤ ptr
      → path_walk_loop rounds fs (some p) out ptr (suc ptr) true ≡ ok (some (path ++ slash ∷ out))
  unfolding path_walk_loop
  walk_up below zero ptr out r h = absurd (omega arith)
  walk_up (top d l name parent) (suc zero) ptr out r h = absurd (omega arith)
  walk_up (top d l name parent) (suc (suc rounds)) ptr out r h =
      let room : ltb (suc ptr) 2 ≡ false = ground arith in
      let fits : ltb ptr 1 ≡ false = ground arith in rw l (rw (name, parent) (rw (room, fits) refl))
  walk_up (child {n} {path} {p} a d below l parent _ _ _) (suc rounds) ptr out r h =
      let len : length (path ++ slash ∷ d.name) ≡ length path + suc (length d.name) =
        length-append path (slash ∷ d.name) in
      let room : ltb (suc ptr) (length d.name + 1) ≡ false = ground arith in
      let fits : ltb ptr (length d.name + 1) ≡ false = ground arith in
      let next : suc ptr - (length d.name + 1) ≡ suc (ptr - (length d.name + 1)) = omega arith in
      rw l (
        rw parent (
          rw (room, fits, next, append_assoc path (slash ∷ d.name) (slash ∷ out))
            (walk_up below rounds (ptr - (length d.name + 1)) (d.name ++ slash ∷ out) (omega arith)
              (omega arith))))
