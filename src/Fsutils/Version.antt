-- ===== src/Fsutils/Version.antt =====
-- src/fsutils.c: the current version of a table is the one that was made last.
use demuxfs.Prelude.{
  ℕ, ◌≡◌, ◌≢◌, refl, ap, ◌∙◌, true, false, none, some, List, [], length, set, All, ◌==◌, ok, arith,
  Option-cases, inl, inr,
}
use demuxfs.Fsutils.{Dentry, Dentries, load_dentry, same_string, child_named}
use demuxfs.Fsutils.Create.{
  obj_type_dir, obj_type_symlink, with_child, move_to, create_directory, create_symlink,
  fs_current_name, version_name, point_current, fsutils_create_version_dir, fsutils_get_current,
}
use demuxfs.Fsutils.Store.{
  same_string_self, load-set_self, load-set_ne, child_named-set, or_new, named_ok, found_in,
  IsDirectory, IsProper, get_child-IsProper,
}
use demuxfs.Fsutils.Added.{
  added, added-loads_new, added-IsDirectory, added-named, create_common-new,
}

-- A directory that has a child of the name.
record Has (fs : Dentries) (p : ℕ) (name : List ℕ) (child : ℕ) : Type 0 where
  entry : Dentry
  directory : IsDirectory fs p entry
  named : child_named fs name entry.children ≡ ok (some child)

current-IsProper : IsProper fs_current_name
unfolding same_string
current-IsProper = (refl, refl)

version-IsProper : (digits : ℕ → List ℕ) (v : ℕ) → IsProper (version_name digits v)
unfolding same_string
version-IsProper digits v = (refl, refl)

current-version :
    (digits : ℕ → List ℕ) (v : ℕ) → same_string (version_name digits v) fs_current_name ≡ false
unfolding same_string
current-version digits v = refl

abbrev new_directory : List ℕ → Dentry
new_directory name = record {
  inode = 0;
  name = name;
  mode = 0x416d;
  obj_type = obj_type_dir;
  contents = none;
  size = 0;
  parent = none;
  children = [];
}

abbrev new_link : List ℕ → Dentry
new_link target = record {
  inode = 0;
  name = fs_current_name;
  mode = 0xa1ff;
  obj_type = obj_type_symlink;
  contents = some target;
  size = 0;
  parent = none;
  children = [];
}

or_new_self : (name : List ℕ) (l : ℕ) → or_new none (same_string name name) l ≡ some l
or_new_self name l = rw (same_string_self name) refl

-- Each child that has an entry says that its parent is `p`.
abbrev pub AreChildren : Dentries → ℕ → List ℕ → Type 0
AreChildren fs p cs = All (λ c. (d : Dentry) → load_dentry fs c ≡ ok d → d.parent ≡ some p) cs

module _ (fs : Dentries) (p : ℕ) (dp : Dentry) (name : List ℕ) (dir : IsDirectory fs p dp)
    (proper : IsProper name) where
  create_directory-new :
      child_named fs name dp.children ≡ ok none
      → create_directory fs p name ≡ ok (length fs, added fs p dp (new_directory name))
  unfolding create_directory
  create_directory-new e =
      rw (get_child-IsProper fs p dp name proper dir.loads, e)
        (create_common-new fs p dp (new_directory name) dir proper e)

  create_directory-old :
      (c : ℕ)
      → AreChildren fs p dp.children
      → child_named fs name dp.children ≡ ok (some c)
      → create_directory fs p name ≡ ok (c, fs)
  unfolding create_directory move_to
  create_directory-old c parents e =
      let (d, l) : (d : Dentry) × (load_dentry fs c ≡ ok d) =
        found_in (λ x. (d : Dentry) × (load_dentry fs x ≡ ok d)) fs name dp.children c dir.loaded
          dir.loaded e in
      let parent : d.parent ≡ some p =
        found_in (λ x. (y : Dentry) → load_dentry fs x ≡ ok y → y.parent ≡ some p) fs name
          dp.children c dir.loaded parents e d l in
      let self : (p == p) ≡ true = ground arith in
      rw (get_child-IsProper fs p dp name proper dir.loads, e) (rw (l, parent) (rw self refl))

  -- The directory of the version is there afterwards, be it new or not.
  create_directory-Has :
      AreChildren fs p dp.children
      → (child : ℕ) × (fs' : Dentries) × (create_directory fs p name ≡ ok (child, fs'))
        × Has fs' p name child
  create_directory-Has parents =
      let (o, e) = named_ok fs name dp.children dir.loaded in
      elim (Option-cases o) [
        | inl absent ↦
            let none_yet = e ∙ ap ok absent in
            (
              length fs,
              added fs p dp (new_directory name),
              create_directory-new none_yet,
              record {
                entry = with_child dp (length fs) (new_directory name);
                directory = added-IsDirectory fs p dp (new_directory name) dir;
                named =
                    added-named fs p dp (new_directory name) dir name none none_yet
                    ∙ ap ok (or_new_self name (length fs));
              },
            )
        | inr (c, present) ↦
            let there = e ∙ ap ok present in
            (
              c,
              fs,
              create_directory-old c parents there,
              record { entry = dp; directory = dir; named = there },
            )
      ]

create_symlink-new :
    (fs : Dentries) (p : ℕ) (dp : Dentry) (target : List ℕ)
    → IsDirectory fs p dp
    → child_named fs fs_current_name dp.children ≡ ok none
    → create_symlink fs p fs_current_name target ≡ ok (none, added fs p dp (new_link target))
unfolding create_symlink
create_symlink-new fs p dp target dir e =
    rw (get_child-IsProper fs p dp fs_current_name current-IsProper dir.loads, e)
      (rw (create_common-new fs p dp (new_link target) dir current-IsProper e) refl)

module _ (fs : Dentries) (p : ℕ) (dp : Dentry) (dir : IsDirectory fs p dp) (target : List ℕ)
    (proper : IsProper target) (child : ℕ)
    (named : child_named fs target dp.children ≡ ok (some child)) where
  current_new :
      child_named fs fs_current_name dp.children ≡ ok none
      → (fs' : Dentries) × (point_current fs p target ≡ ok fs')
        × (fsutils_get_current fs' p ≡ ok (some child))
  unfolding point_current fsutils_get_current
  current_new e =
      let link : Dentry = new_link target in
      let dir' = added-IsDirectory fs p dp link dir in
      let made = create_symlink-new fs p dp target dir e in
      let here = get_child-IsProper fs p dp fs_current_name current-IsProper dir.loads in
      let current =
        added-named fs p dp link dir fs_current_name none e
        ∙ ap ok (or_new_self fs_current_name (length fs)) in
      let version = added-named fs p dp link dir target (some child) named in
      (
        added fs p dp link,
        rw (here, e) (rw made refl),
        rw
            (
              get_child-IsProper (added fs p dp link) p _ fs_current_name current-IsProper
                  dir'.loads,
              current,
            )
            (rw (added-loads_new fs p dp link dir)
              (get_child-IsProper (added fs p dp link) p _ target proper dir'.loads ∙ version)),
      )

  current_old :
      (c : ℕ)
      → child_named fs fs_current_name dp.children ≡ ok (some c)
      → (fs' : Dentries) × (point_current fs p target ≡ ok fs')
        × (fsutils_get_current fs' p ≡ ok (some child))
  unfolding point_current fsutils_get_current
  current_old c e =
      let (d, l) : (d : Dentry) × (load_dentry fs c ≡ ok d) =
        found_in (λ x. (d : Dentry) × (load_dentry fs x ≡ ok d)) fs fs_current_name dp.children c
          dir.loaded dir.loaded e in
      let apart : c ≢ p =
        found_in (λ x. x ≢ p) fs fs_current_name dp.children c dir.loaded dir.apart e in
      let d' : Dentry = record d { contents = some target } in
      let fs' : Dentries = set fs c (some d') in
      let loads : load_dentry fs' p ≡ ok dp = load-set_ne fs c p (some d') apart ∙ dir.loads in
      let current = child_named-set fs c d' d fs_current_name dp.children l refl ∙ e in
      let version = child_named-set fs c d' d target dp.children l refl ∙ named in
      (
        fs',
        rw (get_child-IsProper fs p dp fs_current_name current-IsProper dir.loads, e) (rw l refl),
        rw (get_child-IsProper fs' p dp fs_current_name current-IsProper loads, current)
            (rw (load-set_self fs c d' d l)
              (get_child-IsProper fs' p dp target proper loads ∙ version)),
      )

  point_current-get_current :
      (fs' : Dentries) × (point_current fs p target ≡ ok fs')
      × (fsutils_get_current fs' p ≡ ok (some child))
  point_current-get_current =
      let (o, e) = named_ok fs fs_current_name dp.children dir.loaded in
      elim (Option-cases o) [
        | inl absent ↦ current_new (e ∙ ap ok absent)
        | inr (c, present) ↦ current_old c (e ∙ ap ok present)
      ]

-- For a directory whose children have entries that say that they are its children, and which is not one of
-- them, making the directory of a version succeeds, whether the version or the link are there or not; and the
-- current version is afterwards the directory that was made or found.
pub create_version_dir-get_current :
    (digits : ℕ → List ℕ) (fs : Dentries) (p v : ℕ) (dp : Dentry)
    → IsDirectory fs p dp
    → AreChildren fs p dp.children
    → (child : ℕ) × (fs' : Dentries) × (fsutils_create_version_dir digits fs p v ≡ ok (child, fs'))
      × (fsutils_get_current fs' p ≡ ok (some child))
unfolding fsutils_create_version_dir
create_version_dir-get_current digits fs p v dp dir parents =
    let name : List ℕ = version_name digits v in
    let proper = version-IsProper digits v in
    let (child, fs1, made, has) = create_directory-Has fs p dp name dir proper parents in
    let (fs2, pointed, current) =
      point_current-get_current fs1 p has.entry has.directory name proper child has.named in
    (child, fs2, rw made (rw pointed refl), current)
