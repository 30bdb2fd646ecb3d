-- ===== src/Fsutils/Create.antt =====
-- src/fsutils.h, src/fsutils.c: making entries, and the versions of a table.
-- An entry that is made stands at an address that none had before. Extended attributes are left out.
use demuxfs.Prelude.{
  ℕ, ◌+◌, ◌%◌, ◌^◌, Bool, false, Option, none, some, List, [], ◌∷◌, ◌++◌, length, set, ◌==◌,
  if◌then◌else◌, Run, ok, fault, ◌>>=◌,
}
use demuxfs.Fsutils.{Dentry, Dentries, load_dentry, fsutils_get_child}

abbrev pub obj_type_dir : ℕ
obj_type_dir = 2

abbrev pub obj_type_symlink : ℕ
obj_type_symlink = 4

abbrev pub obj_type_fifo : ℕ
obj_type_fifo = 8

-- What a parent becomes when the entry at `a` is put at the end of its children.
abbrev pub with_child : Dentry → ℕ → Dentry → Dentry
with_child dp a d = record dp {
  size = if d.obj_type == obj_type_fifo then dp.size else (dp.size + d.size) % 2 ^ 64;
  children = dp.children ++ (a ∷ []);
}

-- The entry that the macro has filled in, put below its parent; or the one that has the name there.
unfoldable pub create_common : Dentries → ℕ → Dentry → Run (ℕ × Dentries)
create_common fs p d = fsutils_get_child fs p d.name >>= λ tmp. elim tmp [
  | some a ↦ ok (a, fs)
  | none ↦ load_dentry fs p >>= λ dp. ok (
    length fs,
    set fs p (some (with_child dp (length fs) d)) ++ (some (record d { parent = some p }) ∷ []),
  )
]

-- `list_del(&dentry->list)`: the entry is taken off the list of children that it is on.
unfoldable pub remove : ℕ → List ℕ → List ℕ
remove a [] = []
remove a (c ∷ cs) = if c == a then cs else c ∷ remove a cs

unfoldable pub list_del : ℕ → Dentries → Dentries
list_del a [] = []
list_del a (none ∷ fs) = none ∷ list_del a fs
list_del a (some d ∷ fs) = some (record d { children = remove a d.children }) ∷ list_del a fs

abbrev pub is_parent : ℕ → Option ℕ → Bool
is_parent p none = false
is_parent p (some q) = q == p

-- An entry that is on the list of another directory than it says it is, is moved.
unfoldable pub move_to : Dentries → ℕ → ℕ → Run (ℕ × Dentries)
move_to fs p a = load_dentry fs a >>= λ d.
    if is_parent p d.parent
    then ok (a, fs)
    else (load_dentry (list_del a fs) p >>= λ dp.
        let fs1 = set (list_del a fs) p (some (with_child dp a d)) in
        load_dentry fs1 a >>= λ d1. ok (a, set fs1 a (some (record d1 { parent = some p }))))

unfoldable pub create_directory : Dentries → ℕ → List ℕ → Run (ℕ × Dentries)
create_directory fs p name = fsutils_get_child fs p name >>= λ found. elim found [
  | some a ↦ move_to fs p a
  | none ↦ create_common fs p record {
    inode = 0;
    name = name;
    mode = 0x416d;
    obj_type = obj_type_dir;
    contents = none;
    size = 0;
    parent = none;
    children = [];
  }
]

-- The variable that holds a new link is declared again inside the macro, so what the macro gives is
-- NULL when it has made one.
unfoldable pub create_symlink : Dentries → ℕ → List ℕ → List ℕ → Run (Option ℕ × Dentries)
create_symlink fs p name target = fsutils_get_child fs p name >>= λ found. elim found [
  | some a ↦ ok (some a, fs)
  | none ↦
      create_common fs p record {
        inode = 0;
        name = name;
        mode = 0xa1ff;
        obj_type = obj_type_symlink;
        contents = some target;
        size = 0;
        parent = none;
        children = [];
      }
      >>= λ made. ok (none, made.1)
]

-- "Current"
abbrev pub fs_current_name : List ℕ
fs_current_name = 67 ∷ 117 ∷ 114 ∷ 114 ∷ 101 ∷ 110 ∷ 116 ∷ []

-- "Version_" and the number, whose digits snprintf writes.
abbrev pub version_name : (ℕ → List ℕ) → ℕ → List ℕ
version_name digits version = 86 ∷ 101 ∷ 114 ∷ 115 ∷ 105 ∷ 111 ∷ 110 ∷ 95 ∷ digits version

-- The link to the version is made, or led there.
unfoldable pub point_current : Dentries → ℕ → List ℕ → Run Dentries
point_current fs p target = fsutils_get_child fs p fs_current_name >>= λ current. elim current [
  | none ↦ create_symlink fs p fs_current_name target >>= λ made. ok made.1
  | some c ↦ load_dentry fs c >>= λ d. ok (set fs c (some (record d { contents = some target })))
]

unfoldable pub fsutils_create_version_dir : (ℕ → List ℕ) → Dentries → ℕ → ℕ → Run (ℕ × Dentries)
fsutils_create_version_dir digits fs p version =
    create_directory fs p (version_name digits version) >>= λ child.
    point_current child.1 p (version_name digits version) >>= λ fs'. ok (child.0, fs')

unfoldable pub fsutils_get_current : Dentries → ℕ → Run (Option ℕ)
fsutils_get_current fs p = fsutils_get_child fs p fs_current_name >>= λ current. elim current [
  | none ↦ ok none
  | some c ↦ load_dentry fs c >>= λ d. elim d.contents [
    | none ↦ fault
    | some target ↦ fsutils_get_child fs p target
  ]
]
