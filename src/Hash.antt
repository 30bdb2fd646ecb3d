-- ===== src/Hash.antt =====
-- src/hash.c: the open-addressing hash table that holds tables, parsers and packet buffers.
-- A pointer to user data is an `Option`, `none` for NULL. `hashtable_get`, `hashtable_add` and
-- `hashtable_del` walk the slots by the same do-while loop, which is `probe`; what each of them does
-- at an empty slot, at its key and when the walk is back at its start follows in its own function.
-- Items are allocated one by one and each stands in one slot, so the loop's test on pointers,
-- `item != start`, is a test on slots. The calls of free functions are returned as a list of the data
-- that they are given. The mutex is not modelled: no operation below takes it.
pub mod Probe
pub mod Laws
pub mod Add
pub mod Delete
use demuxfs.Prelude.{
  ℕ, zero, suc, ◌+◌, ◌%◌, Bool, true, false, Option, none, some, List, [], ◌∷◌, ◌++◌, ◌==◌,
  if◌then◌else◌, get_or, set, replicate, length,
}

pub record Item (A : Type 0) : Type 0 where
  pub key : ℕ
  pub payload : Option A
  pub has_free_function : Bool

pub record HashTable (A : Type 0) : Type 0 where
  pub size : ℕ
  pub items : List (Option (Item A))

-- Where a walk ends: at an empty slot, at an item with the key, or back at its start.
-- `stuck` is no behaviour of the program: the model's count of rounds is used up.
pub data Stop (A : Type 0) : Type 0 where
  vacant : ℕ → Stop A
  hit : ℕ → Item A → Stop A
  wrapped : Stop A
  stuck : Stop A

module _ {A : Type 0} where
  unfoldable pub hashtable_new : ℕ → HashTable A
  hashtable_new size = record { size = size; items = replicate size none }

  -- The loop, with the slot where it began and the slot that it looks at.
  unfoldable pub probe_loop : ℕ → HashTable A → ℕ → ℕ → ℕ → Stop A
  probe_loop zero t key start index = stuck
  probe_loop (suc rounds) t key start index = elim (get_or t.items index none) [
    | none ↦ vacant index
    | some item ↦
        let next = (index + 1) % t.size in
        let rest = probe_loop rounds t key start next in
        if item.key == key then hit index item else if next == start then wrapped else rest
  ]

  -- No more rounds than slots are made.
  unfoldable pub probe : HashTable A → ℕ → Stop A
  unfolding probe_loop
  probe t key = probe_loop t.size t key (key % t.size) (key % t.size)

  unfoldable pub hashtable_get : HashTable A → ℕ → Option A
  hashtable_get t key = elim (probe t key) [
    | vacant index ↦ none
    | hit index item ↦ item.payload
    | wrapped ↦ none
    | stuck ↦ none
  ]

  unfoldable pub hashtable_add : HashTable A → ℕ → Option A → Bool → Bool × HashTable A
  hashtable_add t key payload has_free_function =
      let item : Item A = record {
        key = key;
        payload = payload;
        has_free_function = has_free_function;
      } in
      elim (probe t key) [
        | vacant index ↦ (true, record t { items = set t.items index (some item) })
        | hit index old ↦ (true, record t { items = set t.items index (some item) })
        | wrapped ↦ (false, t)
        | stuck ↦ (false, t)
      ]

  -- The data that the free function of an item is called with, if it is.
  unfoldable pub hashtable_del_item : Item A → List A
  hashtable_del_item item =
      if item.has_free_function then elim item.payload [ none ↦ [] | some d ↦ d ∷ [] ] else []

  unfoldable pub hashtable_del : HashTable A → ℕ → Bool × List A × HashTable A
  unfolding hashtable_del_item
  hashtable_del t key = elim (probe t key) [
    | vacant index ↦ (true, [], t)
    | hit index item ↦ (true, hashtable_del_item item, record t { items = set t.items index none })
    | wrapped ↦ (false, [], t)
    | stuck ↦ (false, [], t)
  ]

  -- What is freed when the table is destroyed: with the item's own function, or with the one
  -- that the call is given (`fallback` says if there is one).
  unfoldable pub destroy_item : Bool → Item A → List A
  destroy_item fallback item = elim item.payload [
    | none ↦ []
    | some d ↦ if item.has_free_function then d ∷ [] else if fallback then d ∷ [] else []
  ]

  unfoldable pub destroy_items : Bool → List (Option (Item A)) → List A
  unfolding destroy_item
  destroy_items fallback [] = []
  destroy_items fallback (none ∷ items) = destroy_items fallback items
  destroy_items fallback (some item ∷ items) =
      destroy_item fallback item ++ destroy_items fallback items

  unfoldable pub hashtable_destroy : HashTable A → Bool → List A
  unfolding destroy_items
  hashtable_destroy t fallback = destroy_items fallback t.items

  unfoldable pub clear_items : List (Option (Item A)) → List (Option (Item A))
  clear_items [] = []
  clear_items (item ∷ items) = none ∷ clear_items items

  -- The items are dropped, not freed.
  unfoldable pub hashtable_invalidate_contents : HashTable A → HashTable A
  unfolding clear_items
  hashtable_invalidate_contents t = record t { items = clear_items t.items }
