-- ===== src/Hash/Laws.antt =====
-- src/hash.c: a table that has only been added to is a finite map.
use native.Mathlib.Decide.{ℕ_discrete}
use native.Mathlib.Nat.{mod-lt}
use mathlib.Core.Path.{subst}
use demuxfs.Prelude.{
  ℕ, zero, suc, ◌%◌, ◌<◌, ◌≡◌, ◌≢◌, refl, sym, ap, ◌∙◌, ◌⊎◌, inl, inr, Option, none, some, List, [],
  ◌∷◌, ◌==◌, if◌then◌else◌, get_or, set, length, arith, length-set,
}
use demuxfs.Hash.{HashTable, Item, Stop, vacant, hit, wrapped, stuck, probe, hashtable_get}
use demuxfs.Hash.Probe.{around, around-lt, seen, Passes, Walk, at_hit, probe-Walk, probe-hit}

module _ {ℓ} {A : Type ℓ} where
  get_or-set :
      (xs : List A) (i j : ℕ) (v d : A)
      → i < length xs
      → get_or (set xs i v) j d ≡ (if i == j then v else get_or xs j d)
  get_or-set [] i j v d h = absurd (omega arith)
  get_or-set (x ∷ xs) zero zero v d h = refl
  get_or-set (x ∷ xs) zero (suc j) v d h = ground arith
  get_or-set (x ∷ xs) (suc i) zero v d h = ground arith
  get_or-set (x ∷ xs) (suc i) (suc j) v d h = ground (arith, get_or-set xs i j v d)

  pub get_or-set_self :
      (xs : List A) (i : ℕ) (v d : A) → i < length xs → get_or (set xs i v) i d ≡ v
  get_or-set_self xs i v d h = ground (arith, get_or-set xs i i v d)

  pub get_or-set_ne :
      (xs : List A) (i j : ℕ) (v d : A)
      → i < length xs
      → i ≢ j
      → get_or (set xs i v) j d ≡ get_or xs j d
  get_or-set_ne xs i j v d h ne = ground (arith, get_or-set xs i j v d)

module _ {A : Type 0} where
  abbrev pub slot : HashTable A → ℕ → Option (Item A)
  slot t i = get_or t.items i none

  -- An item stands where the walk for its key gets to.
  abbrev pub Placed : HashTable A → ℕ → Item A → Type 0
  Placed t i item =
      (k : ℕ) × (k < t.size) × (i ≡ around t.size (item.key % t.size) k) × Passes t item.key k

  pub record IsValid (t : HashTable A) : Type 0 where
    pub positive : 0 < t.size
    pub sized : length t.items ≡ t.size
    pub placed : (i : ℕ) (item : Item A) → i < t.size → slot t i ≡ some item → Placed t i item

  -- The lookup finds every item that stands in a valid table.
  pub probe-slot :
      (t : HashTable A) (i : ℕ) (item : Item A)
      → IsValid t
      → i < t.size
      → slot t i ≡ some item
      → probe t item.key ≡ hit i item
  probe-slot t i item v hi e =
      let (k, hk, at, p) = v.placed i item hi e in
      rw at (probe-hit t item.key k hk p item (sym (ap (slot t) at) ∙ e) refl)

  pub get-of_hit :
      (t : HashTable A) (q i : ℕ) (item : Item A)
      → probe t q ≡ hit i item
      → hashtable_get t q ≡ item.payload
  unfolding hashtable_get
  get-of_hit t q i item e = rw (e, hashtable_get)

  -- The walk does not end at an item.
  abbrev pub Misses : Stop A → Type 0
  Misses (hit i item) = ⊥
  Misses _ = Unit

  pub get-of_miss :
      (t : HashTable A) (q : ℕ) (s : Stop A) → probe t q ≡ s → Misses s → hashtable_get t q ≡ none
  unfolding hashtable_get
  get-of_miss t q (vacant i) e m = rw (e, hashtable_get)
  get-of_miss t q wrapped e m = rw (e, hashtable_get)
  get-of_miss t q stuck e m = rw (e, hashtable_get)
  get-of_miss t q (hit i item) e m = absurd m

  -- A write at the slot where the walk for the written key ends, by an empty slot or by that key.
  module _ (t : HashTable A) (v : IsValid t) (item : Item A) (k : ℕ) (hk : k < t.size)
      (p : Passes t item.key k)
      (fits : (seen t item.key k ≡ none)
        ⊎ ((old : Item A) × (seen t item.key k ≡ some old) × (old.key ≡ item.key))) where
    abbrev pub place : ℕ
    place = around t.size (item.key % t.size) k

    abbrev pub written : HashTable A
    written = record t { items = set t.items place (some item) }

    place-lt : place < length t.items
    place-lt = rw v.sized (around-lt t.size (item.key % t.size) k (mod-lt item.key v.positive) hk)

    slot-written_self : slot written place ≡ some item
    slot-written_self = get_or-set_self t.items place (some item) none place-lt

    slot-written_ne : (i : ℕ) → place ≢ i → slot written i ≡ slot t i
    slot-written_ne i ne = get_or-set_ne t.items place i (some item) none place-lt ne

    -- Another item is at another place.
    place-ne : (i : ℕ) (other : Item A) → slot t i ≡ some other → other.key ≢ item.key → place ≢ i
    place-ne i other e d same = elim fits [
      | inl empty ↦ cc (ap (slot t) same)
      | inr (old, full, old_key) ↦ absurd (d (cc (ap (slot t) same)))
    ]

    written-Passes : (q m : ℕ) → Passes t q m → Passes written q m
    written-Passes q m pq j hj =
        let (other, e, d) = pq j hj in
        let i = around t.size (q % t.size) j in
        elim (ℕ_discrete other.key item.key) [
          | no apart ↦ (other, slot-written_ne i (place-ne i other e apart) ∙ e, d)
          | yes same ↦ elim (ℕ_discrete place i) [
            | yes at ↦ (item, sym (ap (slot written) at) ∙ slot-written_self, λ e'. d (same ∙ e'))
            | no away ↦ (other, slot-written_ne i away ∙ e, d)
          ]
        ]

    pub written-IsValid : IsValid written
    written-IsValid = record {
      positive = v.positive;
      sized = length-set t.items place (some item) ∙ v.sized;
      placed = λ i other hi e. elim (ℕ_discrete place i) [
        | yes at ↦
            let same : item ≡ other = cc (ap (slot written) at, slot-written_self) in
            subst (Placed written i) same (k, hk, sym at, written-Passes item.key k p)
        | no away ↦
            let (m, hm, at, pm) = v.placed i other hi (sym (slot-written_ne i away) ∙ e) in
            (m, hm, at, written-Passes other.key m pm)
      ];
    }

    place-lt-size : place < t.size
    place-lt-size = subst (λ n. place < n) v.sized place-lt

    -- The lookup of the written key.
    pub get-written_self : hashtable_get written item.key ≡ item.payload
    get-written_self =
        get-of_hit written item.key place item
          (probe-slot written place item written-IsValid place-lt-size slot-written_self)

    -- A lookup of another key that found an item finds it still.
    still_found :
        (q m i : ℕ) (other : Item A)
        → q ≢ item.key
        → m < t.size
        → Passes t q m
        → seen t q m ≡ some other
        → other.key ≡ q
        → hashtable_get written q ≡ other.payload
    still_found q m i other d hm pq f same =
        let at = around t.size (q % t.size) m in
        get-of_hit written q at other (
          probe-hit written q m hm (written-Passes q m pq) other
            (slot-written_ne at (place-ne at other f (λ e. d (sym same ∙ e))) ∙ f) same)

    -- One that found none finds none.
    still_missing :
        (q : ℕ) (s' : Stop A)
        → q ≢ item.key
        → probe written q ≡ s'
        → Walk written q s'
        → ((i : ℕ) (other : Item A) → probe t q ≢ hit i other)
        → hashtable_get written q ≡ none
    still_missing q (vacant i) d e' w' miss = get-of_miss written q (vacant i) e' tt
    still_missing q wrapped d e' w' miss = get-of_miss written q wrapped e' tt
    still_missing q stuck d e' w' miss = get-of_miss written q stuck e' tt
    still_missing q (hit i other) d e' (at_hit m i' other' hm at pq f same) miss =
        let away : place ≢ i =
          λ here. d (cc (ap (slot written) here, slot-written_self, ap (slot written) at)) in
        let stands : slot t i ≡ some other =
          sym (slot-written_ne i away) ∙ ap (slot written) at ∙ f in
        let hi : i < t.size = rw at (around-lt t.size (q % t.size) m (mod-lt q v.positive) hm) in
        absurd (
          miss i other
            (subst (λ x. probe t x ≡ hit i other) same (probe-slot t i other v hi stands)))

    pub get-written_ne : (q : ℕ) → q ≢ item.key → hashtable_get written q ≡ hashtable_get t q
    get-written_ne q d = split (probe t q) refl (probe-Walk t q v.positive)
      where
        next : Walk written q (probe written q)
        next = probe-Walk written q v.positive

        split :
            (s : Stop A) → probe t q ≡ s → Walk t q s → hashtable_get written q ≡ hashtable_get t q
        split (vacant i) e w =
            still_missing q (probe written q) d refl next (λ i' other f. cc)
            ∙ sym (get-of_miss t q (vacant i) e tt)
        split wrapped e w =
            still_missing q (probe written q) d refl next (λ i' other f. cc)
            ∙ sym (get-of_miss t q wrapped e tt)
        split stuck e w =
            still_missing q (probe written q) d refl next (λ i' other f. cc)
            ∙ sym (get-of_miss t q stuck e tt)
        split (hit i other) e (at_hit m i' other' hm at pq f same) =
            still_found q m i other d hm pq f same ∙ sym (get-of_hit t q i other e)
