-- ===== src/Fsutils/Find.antt =====
-- src/fsutils.c: the search for an inode, against the tree that the entries in the store make up.
use demuxfs.Prelude.{
  ℕ, zero, suc, ◌≤◌, ◌≡◌, refl, Bool, true, false, Option, none, some, List, [], ◌∷◌, ◌++◌, ◌==◌,
  if◌then◌else◌, Run, ok, ◌>>=◌, arith, max,
}
use demuxfs.Fsutils.{Dentry, Dentries, load_dentry, has_dir_bit, find_among, fsutils_find_by_inode}

-- An entry at its address, with the trees of its children.
mutual
  pub data Tree : Type 0 where
    node : ℕ → Dentry → Forest → Tree

  pub data Forest : Type 0 where
    leaf : Forest
    tree : Tree → Forest → Forest

abbrev pub address : Tree → ℕ
address (node a d f) = a

abbrev pub entry : Tree → Dentry
entry (node a d f) = d

-- The store holds the tree: each entry stands at its address and lists its children in their order.
unfoldable mutual
  pub Holds : Dentries → Tree → Type 0
  Holds fs (node a d f) = (load_dentry fs a ≡ ok d) × HoldsAll fs d.children f

  pub HoldsAll : Dentries → List ℕ → Forest → Type 0
  HoldsAll fs [] leaf = Unit {0}
  HoldsAll fs (c ∷ cs) (tree t ts) = (address t ≡ c) × Holds fs t × HoldsAll fs cs ts
  HoldsAll fs _ _ = ⊥

-- The entries that a search meets, in their order: an entry, and then its children one after the other, those
-- of an entry below only if that is a directory.
unfoldable mutual
  pub visited : Tree → List (ℕ × Dentry)
  visited (node a d f) = (a, d) ∷ visited_below f

  pub visited_below : Forest → List (ℕ × Dentry)
  visited_below leaf = []
  visited_below (tree t ts) =
      (if has_dir_bit (entry t) then visited t else (address t, entry t) ∷ []) ++ visited_below ts

-- How deep the calls nest.
unfoldable mutual
  pub height : Tree → ℕ
  height (node a d f) = suc (height_below f)

  pub height_below : Forest → ℕ
  height_below leaf = 0
  height_below (tree t ts) = max (height t) (height_below ts)

-- The address of the first of the entries with the inode.
unfoldable pub first_with : ℕ → List (ℕ × Dentry) → Option ℕ
first_with inode [] = none
first_with inode ((a, d) ∷ rest) = if d.inode == inode then some a else first_with inode rest

abbrev or_else : Option ℕ → Option ℕ → Option ℕ
or_else (some a) o = some a
or_else none o = o

if-or_else :
    (b : Bool) (x : ℕ) (y z : Option ℕ)
    → (if b then some x else or_else y z) ≡ or_else (if b then some x else y) z
if-or_else true x y z = refl
if-or_else false x y z = refl

first_with-append :
    (inode : ℕ) (xs ys : List (ℕ × Dentry))
    → first_with inode (xs ++ ys) ≡ or_else (first_with inode xs) (first_with inode ys)
unfolding first_with
first_with-append inode [] ys = refl
first_with-append inode ((a, d) ∷ xs) ys =
    rw (first_with-append inode xs ys)
      (if-or_else (d.inode == inode) a (first_with inode xs) (first_with inode ys))

if_ok :
    (b : Bool) (x y : Option ℕ) (r : Run (Option ℕ))
    → r ≡ ok y
    → (if b then ok x else r) ≡ ok (if b then x else y)
if_ok true x y r e = refl
if_ok false x y r e = e

-- One round of the loop, for a directory and for another entry.
round :
    (dir : Bool) (o q p : Option ℕ) (enter rest : Run (Option ℕ))
    → enter ≡ ok o
    → rest ≡ ok p
    → ((if dir then enter else ok q) >>= λ ret. elim ret [ some a ↦ ok (some a) | none ↦ rest ])
      ≡ ok (or_else (if dir then o else q) p)
round true none q p enter rest e e' = rw (e) e'
round true (some a) q p enter rest e e' = rw (e) refl
round false o none p enter rest e e' = e'
round false o (some a) p enter rest e e' = refl

first_with_if :
    (inode : ℕ) (dir : Bool) (xs ys : List (ℕ × Dentry))
    → first_with inode (if dir then xs else ys)
      ≡ (if dir then first_with inode xs else first_with inode ys)
first_with_if inode true xs ys = refl
first_with_if inode false xs ys = refl

mutual
  unfolding Holds HoldsAll visited visited_below height height_below first_with find_among
      fsutils_find_by_inode

  find :
      (fs : Dentries) (inode : ℕ) (t : Tree) (depth : ℕ)
      → Holds fs t
      → height t ≤ depth
      → fsutils_find_by_inode depth fs inode (address t) ≡ ok (first_with inode (visited t))
  find fs inode (node a d f) zero h k = absurd (omega arith)
  find fs inode (node a d f) (suc depth) h k = rw (h.0) (
      if_ok (d.inode == inode) (some a) (first_with inode (visited_below f)) _
        (find_below fs inode f d.children depth h.1 (omega arith)))

  find_below :
      (fs : Dentries) (inode : ℕ) (f : Forest) (cs : List ℕ) (depth : ℕ)
      → HoldsAll fs cs f
      → height_below f ≤ depth
      → find_among fs (fsutils_find_by_inode depth fs inode) inode cs
        ≡ ok (first_with inode (visited_below f))
  find_below fs inode leaf [] depth h k = refl
  find_below fs inode leaf (c ∷ cs) depth h k = absurd h
  find_below fs inode (tree t ts) [] depth h k = absurd h
  find_below fs inode (tree (node a d f) ts) (c ∷ cs) depth h k =
      let here : fsutils_find_by_inode depth fs inode a
          ≡ ok (first_with inode (visited (node a d f))) =
        find fs inode (node a d f) depth h.1 (omega arith) in
      let rest = find_below fs inode ts cs depth h.2 (omega arith) in
      rw (← h.0) (
        rw (h.1.0) (
          rw
            (
              first_with-append inode (if has_dir_bit d then visited (node a d f) else (a, d) ∷ [])
                  (visited_below ts),
              first_with_if inode (has_dir_bit d) (visited (node a d f)) ((a, d) ∷ []),
            )
            (round (has_dir_bit d) (first_with inode (visited (node a d f)))
              (if d.inode == inode then some a else none) (first_with inode (visited_below ts)) _ _
              here rest)))

-- Where the store holds a tree, and the calls may nest as deep as the tree is high, the search for an inode ends
-- without a fault, in the address of the first entry with this inode among those that it meets: the root, and the
-- entries below it by way of directories, in their order; and in NULL when there is none.
pub fsutils_find_by_inode_lem :
    (fs : Dentries) (inode : ℕ) (t : Tree) (depth : ℕ)
    → Holds fs t
    → height t ≤ depth
    → fsutils_find_by_inode depth fs inode (address t) ≡ ok (first_with inode (visited t))
fsutils_find_by_inode_lem fs inode t depth h k = find fs inode t depth h k
