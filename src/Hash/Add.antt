-- ===== src/Hash/Add.antt =====
-- src/hash.c: what hashtable_add does to a table and to later lookups.
use native.Mathlib.Decide.{ℕ_discrete}
use native.Mathlib.Nat.{mod-lt}
use demuxfs.Prelude.{
  ℕ, zero, suc, ◌+◌, ◌-◌, ◌%◌, ◌<◌, ◌≡◌, ◌≢◌, refl, sym, ap, ◌∙◌, ◌⊎◌, inl, inr, Bool, true, false,
  Option, none, some, ◌==◌, ltb, if◌then◌else◌, get_or, replicate, arith, length-replicate,
}
use demuxfs.Hash.{
  HashTable, Item, Stop, vacant, hit, wrapped, stuck, probe, hashtable_new, hashtable_get,
  hashtable_add,
}
use demuxfs.Hash.Probe.{around, seen, Passes, Walk, at_vacant, at_hit, at_wrapped, probe-Walk}
use demuxfs.Hash.Laws.{IsValid, slot, written, written-IsValid, get-written_self, get-written_ne}

-- The slots of a walk are all slots.
back_to : ℕ → ℕ → ℕ → ℕ
back_to n h i = if ltb i h then i + n - h else i - h

around-back_to :
    (n h i : ℕ) → h < n → i < n → (back_to n h i < n) × (around n h (back_to n h i) ≡ i)
unfolding back_to
around-back_to n h i hh hi = (ground arith, ground arith)

module _ {A : Type 0} where
  -- A new table with at least one slot is valid.
  pub hashtable_new-IsValid : (n : ℕ) → 0 < n → IsValid (hashtable_new {A = A} n)
  unfolding hashtable_new
  hashtable_new-IsValid n pos = record {
    positive = pos;
    sized = length-replicate n none;
    placed = λ i item hi e. absurd (none_at n i item e);
  }
    where
      none_at : (n i : ℕ) (item : Item A) → ¬ (get_or (replicate n none) i none ≡ some item)
      none_at zero i item e = cc
      none_at (suc n) zero item e = cc
      none_at (suc n) (suc i) item e = none_at n i item e

  module _ (t : HashTable A) (v : IsValid t) (key : ℕ) (payload : Option A) (free : Bool) where
    abbrev item : Item A
    item = record { key = key; payload = payload; has_free_function = free }

    -- The two ways in which an addition ends.
    data Outcome : Bool × HashTable A → Type 0 where
      stored :
          (k : ℕ) (hk : k < t.size) (p : Passes t key k)
          (fits : (seen t key k ≡ none)
            ⊎ ((old : Item A) × (seen t key k ≡ some old) × (old.key ≡ key)))
          → Outcome (true, written t v item k hk p fits)
      full : Passes t key t.size → Outcome (false, t)

    add-Outcome :
        (s : Stop A) → probe t key ≡ s → Walk t key s → Outcome (hashtable_add t key payload free)
    unfolding hashtable_add
    add-Outcome (vacant i) e (at_vacant k i' hk at p f) =
        rw (e, hashtable_add) (rw at (stored k hk p (inl f)))
    add-Outcome (hit i old) e (at_hit k i' old' hk at p f same) =
        rw (e, hashtable_add) (rw at (stored k hk p (inr (old, f, same))))
    add-Outcome wrapped e (at_wrapped p) = rw (e, hashtable_add) (full p)
    add-Outcome stuck e w = elim w [ ]

    outcome : Outcome (hashtable_add t key payload free)
    outcome = add-Outcome (probe t key) refl (probe-Walk t key v.positive)

    -- Adding keeps the table valid, whether it stores or finds the table full.
    pub hashtable_add-IsValid : IsValid (hashtable_add t key payload free).1
    hashtable_add-IsValid = go _ outcome
      where
        go : (r : Bool × HashTable A) → Outcome r → IsValid r.1
        go r (stored k hk p fits) = written-IsValid t v item k hk p fits
        go r (full p) = v

    -- After an addition that returned true, the lookup of the added key gives the added data, and
    -- the lookup of every other key gives what it gave before.
    pub get-add :
        (hashtable_add t key payload free).0 ≡ true
        → (q : ℕ)
        → hashtable_get (hashtable_add t key payload free).1 q
          ≡ (if q == key then payload else hashtable_get t q)
    get-add = go _ outcome
      where
        go :
            (r : Bool × HashTable A)
            → Outcome r
            → r.0 ≡ true
            → (q : ℕ) → hashtable_get r.1 q ≡ (if q == key then payload else hashtable_get t q)
        go r (stored k hk p fits) e q = elim (ℕ_discrete q key) [
          | yes same ↦
              ground (arith, get-written_self t v item k hk p fits, ap (hashtable_get r.1) same)
          | no apart ↦ ground (arith, get-written_ne t v item k hk p fits q apart)
        ]
        go r (full p) e q = cc

    -- An addition that returns false has left the table as it was, and every slot of it holds an
    -- item with another key; one that returns true has found room or the key.
    pub add-full :
        (hashtable_add t key payload free).0 ≡ false
        → ((hashtable_add t key payload free).1 ≡ t)
          × ((i : ℕ) → i < t.size → (other : Item A) × (slot t i ≡ some other) × (other.key ≢ key))
    add-full = go _ outcome
      where
        go :
            (r : Bool × HashTable A)
            → Outcome r
            → r.0 ≡ false
            → (r.1 ≡ t)
              × ((i : ℕ)
                  → i < t.size
                  → (other : Item A) × (slot t i ≡ some other) × (other.key ≢ key))
        go r (stored k hk p fits) e = cc
        go r (full p) e = (
          refl,
          λ i hi.
              let (hj, at) = around-back_to t.size (key % t.size) i (mod-lt key v.positive) hi in
              let (other, f, d) = p (back_to t.size (key % t.size) i) hj in
              (other, sym (ap (slot t) at) ∙ f, d),
        )
