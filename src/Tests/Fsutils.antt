-- ===== src/Tests/Fsutils.antt =====
-- src/fsutils.c at a concrete tree: "/a/bc" and "/d".
use demuxfs.Prelude.{
  ℕ, ◌+◌, ◌≡◌, refl, sym, ap, Option, Run, none, some, List, [], ◌∷◌, ok, fault, arith,
}
use demuxfs.Fsutils.{
  Dentry, Dentries, load_dentry, same_string, child_named, fsutils_get_child, fsutils_find_by_inode,
  fsutils_path_walk, fsutils_get_dentry,
}
use demuxfs.Fsutils.Create.{fsutils_create_version_dir, fsutils_get_current}
use demuxfs.Fsutils.Store.{IsDirectory}
use demuxfs.Fsutils.Version.{AreChildren, create_version_dir-get_current}
use demuxfs.Fsutils.Find.{
  Tree, node, leaf, tree, Holds, height, visited, first_with, fsutils_find_by_inode_lem,
}
use demuxfs.Fsutils.Below.{Below, top, child}
use demuxfs.Fsutils.Path.{get_dentry-path_walk}

abbrev root : Dentry
root = record {
  inode = 1;
  name = 47 ∷ [];
  mode = 0x416d;
  obj_type = 2;
  contents = none;
  size = 0;
  parent = none;
  children = 1 ∷ 3 ∷ [];
}

abbrev a : Dentry
a = record {
  inode = 10;
  name = 97 ∷ [];
  mode = 0x416d;
  obj_type = 2;
  contents = none;
  size = 0;
  parent = some 0;
  children = 2 ∷ [];
}

abbrev bc : Dentry
bc = record {
  inode = 20;
  name = 98 ∷ 99 ∷ [];
  mode = 0x8124;
  obj_type = 2;
  contents = none;
  size = 0;
  parent = some 1;
  children = [];
}

abbrev d : Dentry
d = record {
  inode = 20;
  name = 100 ∷ [];
  mode = 0x8124;
  obj_type = 2;
  contents = none;
  size = 0;
  parent = some 0;
  children = [];
}

abbrev dentries : Dentries
dentries = some root ∷ some a ∷ some bc ∷ some d ∷ []

abbrev dentry_tree : Tree
dentry_tree = node 0 root (tree (node 1 a (tree (node 2 bc leaf) leaf)) (tree (node 3 d leaf) leaf))

dentry_tree-Holds : Holds dentries dentry_tree
unfolding Holds load_dentry
dentry_tree-Holds = (refl, (refl, (refl, (refl, (refl, tt), tt)), (refl, (refl, tt), tt)))

-- Two entries have the inode 20; the first is found.
fsutils_find_by_inode_lem_example : fsutils_find_by_inode 3 dentries 20 0 ≡ ok (some 2)
unfolding Holds height visited first_with
fsutils_find_by_inode_lem_example =
    fsutils_find_by_inode_lem dentries 20 dentry_tree 3 dentry_tree-Holds (omega arith)

root_found : Below dentries 0 0 [] 0
unfolding load_dentry
root_found = top root refl refl refl

bc_found : Below dentries 0 2 (47 ∷ 97 ∷ 47 ∷ 98 ∷ 99 ∷ []) 2
unfolding load_dentry fsutils_get_child child_named same_string
bc_found =
    child 2 bc (child 1 a root_found refl refl ((λ e. absurd (omega (arith, e))), tt) refl refl)
      refl refl ((λ e. absurd (omega (arith, e))), ((λ e. absurd (omega (arith, e))), tt)) refl refl

get_dentry-path_walk_example :
    (s : List ℕ) × (fsutils_path_walk 4 dentries 2 6 ≡ ok (some s))
    × (fsutils_get_dentry 4 dentries 0 s ≡ ok (some 2))
get_dentry-path_walk_example =
    get_dentry-path_walk dentries 0 2 2 4 6 4 (47 ∷ 97 ∷ 47 ∷ 98 ∷ 99 ∷ []) bc_found (omega arith)
      (omega arith) (omega arith)

-- "/a" has the versions 1, to which the link leads, and a second one is made.
abbrev version_1 : Dentry
version_1 = record {
  inode = 0;
  name = 86 ∷ 101 ∷ 114 ∷ 115 ∷ 105 ∷ 111 ∷ 110 ∷ 95 ∷ 49 ∷ [];
  mode = 0x416d;
  obj_type = 2;
  contents = none;
  size = 0;
  parent = some 0;
  children = [];
}

abbrev current : Dentry
current = record {
  inode = 0;
  name = 67 ∷ 117 ∷ 114 ∷ 114 ∷ 101 ∷ 110 ∷ 116 ∷ [];
  mode = 0xa1ff;
  obj_type = 4;
  contents = some version_1.name;
  size = 0;
  parent = some 0;
  children = [];
}

abbrev table : Dentry
table = record a { children = 1 ∷ 2 ∷ [] }

abbrev versions : Dentries
versions = some table ∷ some version_1 ∷ some current ∷ []

table-IsDirectory : IsDirectory versions 0 table
unfolding load_dentry
table-IsDirectory = record {
  loads = refl;
  loaded = ((version_1, refl), ((current, refl), tt));
  apart = ((λ e. absurd (omega (arith, e))), ((λ e. absurd (omega (arith, e))), tt));
}

unfoldable parent_of : Run Dentry → Option ℕ
parent_of (ok d) = d.parent
parent_of fault = none

table-AreChildren : AreChildren versions 0 table.children
unfolding load_dentry parent_of
table-AreChildren = ((λ d e. ap parent_of (sym e)), ((λ d e. ap parent_of (sym e)), tt))

create_version_dir-get_current_example :
    (child : ℕ) × (fs' : Dentries) × (fsutils_create_version_dir (λ n. (48 + n) ∷ []) versions 0 2
      ≡ ok (child, fs'))
    × (fsutils_get_current fs' 0 ≡ ok (some child))
create_version_dir-get_current_example =
    create_version_dir-get_current (λ n. (48 + n) ∷ []) versions 0 2 table table-IsDirectory
      table-AreChildren
