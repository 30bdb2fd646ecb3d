-- ===== src/Tests/Hash.antt =====
-- src/hash.c at tables of three slots.
use demuxfs.Prelude.{ℕ, ◌≡◌, refl, false, none, some, arith}
use demuxfs.Hash.{
  HashTable, probe, hashtable_new, hashtable_add, hashtable_get, hashtable_del, probe_loop,
}
use demuxfs.Hash.Laws.{IsValid}
use demuxfs.Hash.Add.{hashtable_new-IsValid, hashtable_add-IsValid, get-add}
use demuxfs.Hash.Delete.{get-del_lost}

abbrev empty_table : HashTable ℕ
empty_table = hashtable_new 3

abbrev one_item : HashTable ℕ
one_item = (hashtable_add empty_table 1 (some 10) false).1

-- The keys 1 and 4 meet in slot 1.
abbrev two_items : HashTable ℕ
two_items = (hashtable_add one_item 4 (some 40) false).1

abbrev full_table : HashTable ℕ
full_table = (hashtable_add two_items 2 (some 20) false).1

empty_table-IsValid : IsValid empty_table
empty_table-IsValid = hashtable_new-IsValid {A = ℕ} 3 (omega arith)

one_item-IsValid : IsValid one_item
one_item-IsValid = hashtable_add-IsValid empty_table empty_table-IsValid 1 (some 10) false

two_items-IsValid : IsValid two_items
two_items-IsValid = hashtable_add-IsValid one_item one_item-IsValid 4 (some 40) false

full_table-IsValid : IsValid full_table
full_table-IsValid = hashtable_add-IsValid two_items two_items-IsValid 2 (some 20) false

get-add_example : hashtable_get (hashtable_add one_item 4 (some 40) false).1 1 ≡ some 10
unfolding hashtable_get hashtable_add hashtable_new probe probe_loop
get-add_example = get-add one_item one_item-IsValid 4 (some 40) false refl 1

get-del_lost_example :
    (hashtable_get two_items 4 ≡ some 40) × (hashtable_get (hashtable_del two_items 1).2 4 ≡ none)
unfolding hashtable_add hashtable_new probe probe_loop hashtable_get
get-del_lost_example =
    get-del_lost two_items two_items-IsValid 1 4 0 1
      (record { key = 1; payload = some 10; has_free_function = false })
      (record { key = 4; payload = some 40; has_free_function = false }) (omega arith) (omega arith)
      (λ j h.
        let z : j ≡ 0 = omega arith in
        rw z (record { key = 1; payload = some 10; has_free_function = false }, refl, omega arith))
      refl refl refl refl
