-- ===== src/Hash/Delete.antt =====
-- src/hash.c: what hashtable_del does to the deleted key and to the other keys. The slot is emptied
-- and nothing is moved, so a walk that used to pass it now ends there.
use native.Mathlib.Decide.{ℕ_discrete}
use native.Mathlib.Nat.{mod-lt}
use mathlib.Core.Path.{subst}
use demuxfs.Prelude.{
  ℕ, suc, ◌+◌, ◌%◌, ◌≤◌, ◌<◌, ◌≡◌, ◌≢◌, refl, sym, ap, ◌∙◌, ◌⊎◌, inl, inr, true, none, some, set,
  arith, length-set,
}
use demuxfs.Hash.{
  HashTable, Item, Stop, vacant, hit, wrapped, stuck, probe, hashtable_get, hashtable_del,
}
use demuxfs.Hash.Probe.{
  around, around-lt, around-injective, next_around, seen, Passes, Walk, at_hit, probe-Walk,
  probe-vacant, probe-hit,
}
use demuxfs.Hash.Laws.{
  IsValid, slot, get-of_miss, get-of_hit, get_or-set_self, get_or-set_ne, probe-slot,
}

module _ {A : Type 0} (t : HashTable A) (v : IsValid t) where
  abbrev pub emptied : ℕ → HashTable A
  emptied i = record t { items = set t.items i none }

  module _ (i : ℕ) (hi : i < t.size) where
    slot-emptied_self : slot (emptied i) i ≡ none
    slot-emptied_self = get_or-set_self t.items i none none (rw v.sized hi)

    slot-emptied_ne : (j : ℕ) → i ≢ j → slot (emptied i) j ≡ slot t j
    slot-emptied_ne j ne = get_or-set_ne t.items i j none none (rw v.sized hi) ne

    -- A walk that does not pass the emptied slot goes on as before.
    emptied-Passes :
        (q m : ℕ)
        → ((j : ℕ) → j < m → i ≢ around t.size (q % t.size) j)
        → Passes t q m
        → Passes (emptied i) q m
    emptied-Passes q m away p j hj =
        let (other, e, d) = p j hj in
        (other, slot-emptied_ne (around t.size (q % t.size) j) (away j hj) ∙ e, d)

  -- A walk for a key passes no slot that holds the key.
  never_at :
      (q m i : ℕ) (item : Item A)
      → Passes t q m
      → slot t i ≡ some item
      → item.key ≡ q
      → (j : ℕ) → j < m
      → i ≢ around t.size (q % t.size) j
  never_at q m i item p e same j hj at =
      let (other, f, d) = p j hj in absurd (d (cc (ap (slot t) at)))

  del-of_hit :
      (key i : ℕ) (item : Item A)
      → probe t key ≡ hit i item
      → ((hashtable_del t key).0 ≡ true) × ((hashtable_del t key).2 ≡ emptied i)
  unfolding hashtable_del
  del-of_hit key i item e = (rw (e, hashtable_del), rw (e, hashtable_del))

  abbrev Misses : Stop A → Type 0
  Misses (hit i item) = ⊥
  Misses _ = Unit

  del-of_miss : (key : ℕ) (s : Stop A) → probe t key ≡ s → Misses s → (hashtable_del t key).2 ≡ t
  unfolding hashtable_del
  del-of_miss key (vacant i) e m = rw (e, hashtable_del)
  del-of_miss key wrapped e m = rw (e, hashtable_del)
  del-of_miss key stuck e m = rw (e, hashtable_del)
  del-of_miss key (hit i item) e m = absurd m

  -- After a deletion the lookup of the deleted key gives NULL, whether the key was there or not.
  pub get-del_self : (key : ℕ) → hashtable_get (hashtable_del t key).2 key ≡ none
  get-del_self key = go (probe t key) refl (probe-Walk t key v.positive)
    where
      go :
          (s : Stop A)
          → probe t key ≡ s
          → Walk t key s
          → hashtable_get (hashtable_del t key).2 key ≡ none
      go (vacant i) e w = rw (del-of_miss key (vacant i) e tt) (get-of_miss t key (vacant i) e tt)
      go wrapped e w = rw (del-of_miss key wrapped e tt) (get-of_miss t key wrapped e tt)
      go stuck e w = elim w [ ]
      go (hit i item) e (at_hit k i' item' hk at p f same) =
          let hi : i < t.size =
            rw at (around-lt t.size (key % t.size) k (mod-lt key v.positive) hk) in
          let slot_i : slot t i ≡ some item = ap (slot t) at ∙ f in
          let p' = emptied-Passes i hi key k (never_at key k i item p slot_i same) p in
          let ends : seen (emptied i) key k ≡ none =
            ap (slot (emptied i)) (sym at) ∙ slot-emptied_self i hi in
          rw ((del-of_hit key i item e).1) (
            get-of_miss (emptied i) key (vacant (around t.size (key % t.size) k))
              (probe-vacant (emptied i) key k hk p' ends) tt)

  -- A key that is stored behind the deleted one on its own walk is lost: if the walk for `q` finds
  -- `q` at `m` steps and passes the slot of the deleted key before, its lookup then gives NULL.
  pub get-del_lost :
      (key q j m : ℕ) (item other : Item A)
      → j < m
      → m < t.size
      → Passes t q m
      → seen t q j ≡ some item
      → item.key ≡ key
      → seen t q m ≡ some other
      → other.key ≡ q
      → (hashtable_get t q ≡ other.payload) × (hashtable_get (hashtable_del t key).2 q ≡ none)
  get-del_lost key q j m item other hj hm p ej key_j em key_m =
      let h = q % t.size in
      let hh = mod-lt q v.positive in
      let i = around t.size h j in
      let hi = around-lt t.size h j hh (omega arith) in
      let found : probe t key ≡ hit i item =
        subst (λ x. probe t x ≡ hit i item) key_j (probe-slot t i item v hi ej) in
      let p' : Passes (emptied i) q j =
        emptied-Passes i hi q j
          (λ x hx same.
            absurd
              (omega (arith, around-injective t.size h j x hh (omega arith) (omega arith) same)))
          (λ x hx. p x (omega arith)) in
      (
        get-of_hit t q (around t.size h m) other (probe-hit t q m hm p other em key_m),
        rw ((del-of_hit key i item found).1) (
            get-of_miss (emptied i) q (vacant i)
              (probe-vacant (emptied i) q j (omega arith) p' (slot-emptied_self i hi)) tt),
      )

  abbrev Found : ℕ → Type 0
  Found q =
      (i : ℕ) × (item : Item A) × (i < t.size)
      × (slot t i ≡ some item)
      × (item.key ≡ q)
      × (hashtable_get t q ≡ item.payload)

  abbrev Absent : ℕ → Type 0
  Absent q =
      (hashtable_get t q ≡ none)
      × ((i : ℕ) (item : Item A) → i < t.size → slot t i ≡ some item → item.key ≢ q)

  hit_stands :
      (q i : ℕ) (item : Item A)
      → Walk t q (hit i item)
      → (i < t.size) × (slot t i ≡ some item) × (item.key ≡ q)
  hit_stands q i item (at_hit k i' item' hk at p f same) =
      (rw at (around-lt t.size (q % t.size) k (mod-lt q v.positive) hk), ap (slot t) at ∙ f, same)

  -- A lookup gives the payload of the item with the key, or no slot holds the key.
  get_cases : (q : ℕ) → Found q ⊎ Absent q
  get_cases q = go (probe t q) refl (probe-Walk t q v.positive)
    where
      nowhere :
          (s : Stop A)
          → probe t q ≡ s
          → Misses s
          → (i : ℕ) (item : Item A) → i < t.size
          → slot t i ≡ some item
          → item.key ≢ q
      nowhere s e m i item hi stands same =
          let f : s ≡ hit i item =
            sym e ∙ subst (λ x. probe t x ≡ hit i item) same (probe-slot t i item v hi stands) in
          subst Misses f m

      go : (s : Stop A) → probe t q ≡ s → Walk t q s → Found q ⊎ Absent q
      go (vacant i) e w = inr (get-of_miss t q (vacant i) e tt, nowhere (vacant i) e tt)
      go wrapped e w = inr (get-of_miss t q wrapped e tt, nowhere wrapped e tt)
      go stuck e w = elim w [ ]
      go (hit i item) e w =
          let (hi, stands, same) = hit_stands q i item w in
          inl (i, item, hi, stands, same, get-of_hit t q i item e)

  -- Where the slot behind the emptied one is empty, no walk has to pass it.
  module _ (i : ℕ) (hi : i < t.size) (next_empty : slot t ((i + 1) % t.size) ≡ none) where
    never_passed :
        (q m : ℕ) (item : Item A)
        → m < t.size
        → Passes t q m
        → seen t q m ≡ some item
        → (j : ℕ) → j < m
        → i ≢ around t.size (q % t.size) j
    never_passed q m item hm p e j hj at =
        let h = q % t.size in
        let next : slot t ((i + 1) % t.size) ≡ seen t q (suc j) =
          ap (λ x. slot t ((x + 1) % t.size)) at
          ∙ ap (slot t) (next_around t.size h j (mod-lt q v.positive) (omega arith)) in
        elim (le_or_eq (suc j) m hj) [
          | inl lt ↦ let (other, f, d) = p (suc j) lt in cc
          | inr same ↦ cc (ap (seen t q) same)
        ]
      where
        le_or_eq : (j k : ℕ) → j ≤ k → (j < k) ⊎ (j ≡ k)
        le_or_eq j k h = ground arith

    emptied-IsValid : IsValid (emptied i)
    emptied-IsValid = record {
      positive = v.positive;
      sized = length-set t.items i none ∙ v.sized;
      placed = λ i' other hi' e. elim (ℕ_discrete i i') [
        | yes here ↦ cc (ap (slot (emptied i)) here, slot-emptied_self i hi)
        | no away ↦
            let e' = sym (slot-emptied_ne i hi i' away) ∙ e in
            let (m, hm, at, p) = v.placed i' other hi' e' in
            let f : seen t other.key m ≡ some other = sym (ap (slot t) at) ∙ e' in
            (m, hm, at, emptied-Passes i hi other.key m (never_passed other.key m other hm p f) p)
      ];
    }

module _ {A : Type 0} (t : HashTable A) (v : IsValid t) (key i : ℕ) (item : Item A) where
  -- Where the slot behind the deleted item is empty, the table stays valid and every other key
  -- keeps its lookup.
  pub get-del_other :
      probe t key ≡ hit i item
      → slot t ((i + 1) % t.size) ≡ none
      → IsValid (hashtable_del t key).2
        × ((q : ℕ) → q ≢ key → hashtable_get (hashtable_del t key).2 q ≡ hashtable_get t q)
  get-del_other e next_empty =
      let w = probe-Walk t key v.positive in
      let (hi, stands, key_i) = hit_stands t v key i item (subst (Walk t key) e w) in
      let v' = emptied-IsValid t v i hi next_empty in
      rw ((del-of_hit t v key i item e).1) (
        v',
        λ q d. lookup hi stands key_i v' q d (get_cases t v q) (get_cases (emptied t v i) v' q),
      )
    where
      lookup :
          i < t.size
          → slot t i ≡ some item
          → item.key ≡ key
          → (v' : IsValid (emptied t v i)) (q : ℕ) → q ≢ key
          → Found t v q ⊎ Absent t v q
          → Found (emptied t v i) v' q ⊎ Absent (emptied t v i) v' q
          → hashtable_get (emptied t v i) q ≡ hashtable_get t q
      lookup hi stands key_i v' q d (inl (j, other, hj, stands_j, key_j, e₁)) _ =
          let away : i ≢ j = λ same. d (cc (ap (slot t) same)) in
          let stays : slot (emptied t v i) j ≡ some other =
            slot-emptied_ne t v i hi j away ∙ stands_j in
          get-of_hit (emptied t v i) q j other (
            subst (λ x. probe (emptied t v i) x ≡ hit j other) key_j
              (probe-slot (emptied t v i) j other v' hj stays))
          ∙ sym e₁
      lookup hi stands key_i v' q d (inr (e₁, nowhere)) (inr (e₂, _)) = e₂ ∙ sym e₁
      lookup hi stands key_i v' q d (inr (e₁, nowhere)) (inl (j, other, hj, stands_j, key_j, e₂)) =
          let away : i ≢ j =
            λ same. cc (ap (slot (emptied t v i)) same, slot-emptied_self t v i hi) in
          absurd (nowhere j other hj (sym (slot-emptied_ne t v i hi j away) ∙ stands_j) key_j)
