-- ===== src/Fsutils/Added.antt =====
-- src/fsutils.h: a store to which an entry has been added.
use mathlib.Core.Path.{subst}
use mathlib.Core.List.{append-nil}
use demuxfs.Prelude.{
  ℕ, ◌≡◌, ◌≢◌, refl, ◌∙◌, Option, none, some, List, [], ◌∷◌, ◌++◌, length, length-set, set, ok,
  arith,
}
use demuxfs.Fsutils.{Dentry, Dentries, load_dentry, same_string, child_named}
use demuxfs.Fsutils.Create.{with_child, create_common}
use demuxfs.Fsutils.Store.{
  load-set_self, load-append, load-append_at, load-new, Loaded, child_named-set, child_named-append,
  or_new, child_named-behind, IsDirectory, IsProper, get_child-IsProper, set-Loaded, All-last,
}

-- The store in which an entry has been put below a directory.
abbrev pub added : Dentries → ℕ → Dentry → Dentry → Dentries
added fs p dp d =
    set fs p (some (with_child dp (length fs) d)) ++ (some (record d { parent = some p }) ∷ [])

module _ (fs : Dentries) (p : ℕ) (dp d : Dentry) (dir : IsDirectory fs p dp) where
  pub added-loads_new :
      load_dentry (added fs p dp d) (length fs) ≡ ok (record d { parent = some p })
  added-loads_new =
      load-append_at (set fs p (some (with_child dp (length fs) d))) (length fs)
        (record d { parent = some p }) (length-set fs p (some (with_child dp (length fs) d)))

  pub added-IsDirectory : IsDirectory (added fs p dp d) p (with_child dp (length fs) d)
  added-IsDirectory =
      let below : length fs ≢ p = λ e. omega (arith, load-new fs p dp dir.loads, e) in
      record {
        loads =
            load-append (set fs p (some (with_child dp (length fs) d))) _ p _
              (load-set_self fs p (with_child dp (length fs) d) dp dir.loads);
        loaded =
            All-last _ dp.children (length fs)
              (set-Loaded fs p (with_child dp (length fs) d) dp _ dp.children dir.loads dir.loaded)
              (record d { parent = some p }, added-loads_new);
        apart = All-last _ dp.children (length fs) dir.apart below;
      }

  -- Behind what was found before, the new entry is found by its name.
  pub added-named :
      (n : List ℕ) (o : Option ℕ)
      → child_named fs n dp.children ≡ ok o
      → child_named (added fs p dp d) n (with_child dp (length fs) d).children
        ≡ ok (or_new o (same_string d.name n) (length fs))
  added-named n o e =
      let dp' : Dentry = with_child dp (length fs) d in
      let tail : Dentries = some (record d { parent = some p }) ∷ [] in
      let loaded = set-Loaded fs p dp' dp [] dp.children dir.loads dir.loaded in
      child_named-behind (added fs p dp d) n dp.children (length fs) (record d { parent = some p })
        o (set-Loaded fs p dp' dp tail dp.children dir.loads dir.loaded) added-loads_new
        (child_named-append (set fs p (some dp')) tail n dp.children
            (subst (λ g. Loaded g dp.children) (append-nil (set fs p (some dp'))) loaded)
          ∙ child_named-set fs p dp' dp n dp.children dir.loads refl
          ∙ e)

  pub create_common-new :
      IsProper d.name
      → child_named fs d.name dp.children ≡ ok none
      → create_common fs p d ≡ ok (length fs, added fs p dp d)
  unfolding create_common
  create_common-new n e = rw (get_child-IsProper fs p dp d.name n dir.loads, e, dir.loads) refl
