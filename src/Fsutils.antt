-- ===== src/Fsutils.antt =====
-- src/fsutils.c, src/demuxfs.h: the tree of directory entries, and the lookups in it.
-- A `struct dentry *` is an address in a store of entries; the store has `none` where an entry has been
-- freed. A string is the list of its bytes in front of the NUL, and a NULL string is `none`. What nests
-- or follows links without end would use up the stack: with the depth that is left used up, a run is a
-- `fault`.
pub mod Find
pub mod Below
pub mod Path
pub mod Create
pub mod Store
pub mod Added
pub mod Version
use demuxfs.Prelude.{
  ℕ, zero, suc, ◌+◌, ◌-◌, Bool, true, false, ◌&&◌, not, Option, none, some, List, [], ◌∷◌, ◌++◌,
  length, get_elem?, ◌==◌, ltb, if◌then◌else◌, Run, ok, fault, ◌>>=◌, bit_and,
}

pub record Dentry : Type 0 where
  pub inode : ℕ
  pub name : List ℕ
  pub mode : ℕ
  pub obj_type : ℕ
  pub contents : Option (List ℕ)
  pub size : ℕ
  pub parent : Option ℕ
  pub children : List ℕ

abbrev pub Dentries : Type 0
Dentries = List (Option Dentry)

-- `dentry->...`
unfoldable pub load_dentry : Dentries → ℕ → Run Dentry
load_dentry fs a = elim (get_elem? fs a) [ some (some d) ↦ ok d | _ ↦ fault ]

-- The bits S_IFDIR, and the types of S_ISDIR and S_ISLNK.
abbrev pub has_dir_bit : Dentry → Bool
has_dir_bit d = not (bit_and d.mode 0x4000 == 0)

-- `mode & S_IFLNK`: true for a regular file too, whose type is one of the two bits of a link's.
abbrev pub has_link_bits : Dentry → Bool
has_link_bits d = not (bit_and d.mode 0xa000 == 0)

abbrev pub is_link : Dentry → Bool
is_link d = bit_and d.mode 0xf000 == 0xa000

-- `strcmp(a, b) == 0`
unfoldable pub same_string : List ℕ → List ℕ → Bool
same_string [] [] = true
same_string (x ∷ xs) (y ∷ ys) = (x == y) && same_string xs ys
same_string _ _ = false

abbrev pub slash : ℕ
slash = 47

abbrev pub dot : ℕ
dot = 46

abbrev pub is_null {ℓ} : {A : Type ℓ} → Option A → Bool
is_null none = true
is_null (some a) = false

-- The first of the addresses whose entry has the name.
unfoldable pub child_named : Dentries → List ℕ → List ℕ → Run (Option ℕ)
child_named fs name [] = ok none
child_named fs name (c ∷ cs) =
    let rest = child_named fs name cs in
    load_dentry fs c >>= λ d. if same_string d.name name then ok (some c) else rest

unfoldable pub fsutils_get_child : Dentries → ℕ → List ℕ → Run (Option ℕ)
fsutils_get_child fs a name =
    if same_string name (dot ∷ [])
    then ok (some a)
    else load_dentry fs a >>= λ d.
        if same_string name (dot ∷ dot ∷ [])
        then ok (some (elim d.parent [ some p ↦ p | none ↦ a ]))
        else child_named fs name d.children

-- The loop over the children; `enter` is the call for a child that is a directory.
unfoldable pub find_among : Dentries → (ℕ → Run (Option ℕ)) → ℕ → List ℕ → Run (Option ℕ)
find_among fs enter inode [] = ok none
find_among fs enter inode (c ∷ cs) =
    let rest = find_among fs enter inode cs in
    load_dentry fs c >>= λ d.
    (if has_dir_bit d then enter c else ok (if d.inode == inode then some c else none)) >>= λ ret.
    elim ret [ some a ↦ ok (some a) | none ↦ rest ]

unfoldable pub fsutils_find_by_inode : ℕ → Dentries → ℕ → ℕ → Run (Option ℕ)
fsutils_find_by_inode zero fs inode a = fault
fsutils_find_by_inode (suc depth) fs inode a = load_dentry fs a >>= λ d.
    if d.inode == inode
    then ok (some a)
    else find_among fs (fsutils_find_by_inode depth fs inode) inode d.children

-- The loop of fsutils_path_walk, which writes the names from the end of the buffer backwards. `out` is
-- the string from `ptr` on, `ptr` its offset in the buffer, `roomsize` the number that is compared.
unfoldable pub path_walk_loop :
    ℕ → Dentries → Option ℕ → List ℕ → ℕ → ℕ → Bool → Run (Option (List ℕ))
path_walk_loop zero fs d out ptr roomsize append_slash = fault
path_walk_loop (suc rounds) fs none out ptr roomsize append_slash = ok (some out)
path_walk_loop (suc rounds) fs (some a) out ptr roomsize append_slash = load_dentry fs a >>= λ d.
    let len = length d.name in
    let with_slash = append_slash && not (is_null d.parent) in
    let need = if with_slash then len + 1 else len in
    let rest =
      path_walk_loop rounds fs d.parent (d.name ++ (if with_slash then slash ∷ out else out))
        (ptr - need) (roomsize - need) true in
    if ltb roomsize (len + 1) then ok none else if ltb ptr need then fault else rest

-- A buffer of no bytes has no last byte.
unfoldable pub fsutils_path_walk : ℕ → Dentries → ℕ → ℕ → Run (Option (List ℕ))
fsutils_path_walk rounds fs a zero = fault
fsutils_path_walk rounds fs a (suc size) =
    path_walk_loop rounds fs (some a) [] size (suc size) false

-- `strlen(s) == 0`
abbrev pub is_empty : List ℕ → Bool
is_empty [] = true
is_empty (x ∷ xs) = false

-- `strstr(start, "/")`, and the byte behind it.
unfoldable pub after_slash : List ℕ → Option (List ℕ)
after_slash [] = none
after_slash (x ∷ xs) = if x == slash then some xs else after_slash xs

-- The string up to the next slash, or its end.
unfoldable pub component : List ℕ → List ℕ
component [] = []
component (x ∷ xs) = if x == slash then [] else x ∷ component xs

unfoldable mutual
  pub fsutils_get_dentry : ℕ → Dentries → ℕ → List ℕ → Run (Option ℕ)
  fsutils_get_dentry zero fs root path = fault
  fsutils_get_dentry (suc depth) fs root [] = fault
  fsutils_get_dentry (suc depth) fs root (x ∷ []) = ok (some root)
  fsutils_get_dentry (suc depth) fs root (x ∷ y ∷ zs) =
      let rest = get_dentry_loop depth fs root (x ∷ y ∷ zs) in
      load_dentry fs root >>= λ d.
      if is_null (after_slash (x ∷ y ∷ zs)) && is_link d
      then elim d.parent [ none ↦ ok none | some p ↦ fsutils_get_child fs p (x ∷ y ∷ zs) ]
      else rest

  -- `prev` is what has been resolved, and `start` what is behind it.
  pub get_dentry_loop : ℕ → Dentries → ℕ → List ℕ → Run (Option ℕ)
  get_dentry_loop zero fs prev start = fault
  get_dentry_loop (suc depth) fs prev start = elim (after_slash start) [
    | none ↦ ok (some prev)
    | some next ↦
        if is_empty (component next)
        then ok none
        else (fsutils_get_child fs prev (component next) >>= λ cached. elim cached [
          | some a ↦ get_dentry_loop depth fs a next
          | none ↦ load_dentry fs prev >>= λ d.
              if has_link_bits d
              then elim d.contents [
                | none ↦ fault
                | some target ↦ fsutils_get_dentry depth fs prev target >>= λ linked. elim linked [
                  | some a ↦ get_dentry_loop depth fs a (slash ∷ next)
                  | none ↦ ok none
                ]
              ]
              else ok none
        ])
  ]
