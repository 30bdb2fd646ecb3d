-- ===== src/Hash/Probe.antt =====
-- src/hash.c: how the walk over the slots ends.
use native.Mathlib.Nat.{mod-eq_of_lt, mod-lt, mod_self}
use mathlib.Core.Path.{subst}
use demuxfs.Prelude.{
  ℕ, zero, suc, ◌+◌, ◌-◌, ◌%◌, ◌≤◌, ◌<◌, ◌≡◌, ◌≢◌, refl, ap, ◌∙◌, ◌⊎◌, inl, inr, true, false,
  Option, none, some, ◌==◌, ltb, if◌then◌else◌, get_or, arith, Bool-cases, Option-cases, ==_iff,
  ltb→lt,
}
use demuxfs.Hash.{HashTable, Item, Stop, vacant, hit, wrapped, probe_loop, probe}

-- The slot `k` steps behind `h`, around the end of `n` slots.
abbrev pub around : ℕ → ℕ → ℕ → ℕ
around n h k = if ltb (h + k) n then h + k else h + k - n

pub around-lt : (n h k : ℕ) → h < n → k < n → around n h k < n
around-lt n h k hh hk = ground arith

pub around-injective : (n h j k : ℕ) → h < n → j < n → k < n → around n h j ≡ around n h k → j ≡ k
around-injective n h j k hh hj hk e = ground arith

pub next_slot : (n x : ℕ) → x < n → (x + 1) % n ≡ (if ltb (x + 1) n then x + 1 else 0)
next_slot n x h = elim (Bool-cases (ltb (x + 1) n)) [
  | inl e ↦ rw e (mod-eq_of_lt (ltb→lt (x + 1) n e))
  | inr e ↦ rw e (let same : x + 1 ≡ n = ground arith in rw same (mod_self n))
]

pub next_around : (n h k : ℕ) → h < n → suc k < n → (around n h k + 1) % n ≡ around n h (suc k)
next_around n h k hh hk =
    ground (arith, next_slot n (around n h k) (around-lt n h k hh (omega arith)))

pub next_around_end : (n h k : ℕ) → h < n → suc k ≡ n → (around n h k + 1) % n ≡ h
next_around_end n h k hh hk =
    ground (arith, next_slot n (around n h k) (around-lt n h k hh (omega arith)))

module _ {A : Type 0} where
  -- What the walk for a key sees after `k` steps.
  abbrev pub seen : HashTable A → ℕ → ℕ → Option (Item A)
  seen t key k = get_or t.items (around t.size (key % t.size) k) none

  -- The first `k` slots of the walk hold items with other keys.
  abbrev pub Passes : HashTable A → ℕ → ℕ → Type 0
  Passes t key k = (j : ℕ) → j < k → (item : Item A) × (seen t key j ≡ some item) × (item.key ≢ key)

  -- What each end of a walk says about the table.
  pub data Walk (t : HashTable A) (key : ℕ) : Stop A → Type 0 where
    at_vacant :
        (k index : ℕ)
        → k < t.size
        → index ≡ around t.size (key % t.size) k
        → Passes t key k
        → seen t key k ≡ none
        → Walk t key (vacant index)
    at_hit :
        (k index : ℕ) (item : Item A)
        → k < t.size
        → index ≡ around t.size (key % t.size) k
        → Passes t key k
        → seen t key k ≡ some item
        → item.key ≡ key
        → Walk t key (hit index item)
    at_wrapped : Passes t key t.size → Walk t key wrapped

  Passes-suc :
      (t : HashTable A) (key k : ℕ) (item : Item A)
      → Passes t key k
      → seen t key k ≡ some item
      → item.key ≢ key
      → Passes t key (suc k)
  Passes-suc t key k item p e d j h = elim (le_or_eq j k (omega arith)) [
    | inl lt ↦ p j lt
    | inr same ↦ (item, ap (seen t key) same ∙ e, d)
  ]
    where
      le_or_eq : (j k : ℕ) → j ≤ k → (j < k) ⊎ (j ≡ k)
      le_or_eq j k h = ground arith

  module _ (t : HashTable A) (key : ℕ) (pos : 0 < t.size) where
    home : ℕ
    home = key % t.size

    next_round :
        (rounds k : ℕ)
        → rounds + k ≡ t.size
        → k < t.size
        → Passes t key k
        → Walk t key (probe_loop rounds t key (key % t.size) (around t.size (key % t.size) k))
    unfolding probe_loop
    next_round zero k e hk p = absurd (omega arith)
    next_round (suc rounds) k e hk p =
        let h = key % t.size in
        let hh : h < t.size = mod-lt key pos in
        elim (Option-cases (seen t key k)) [
          | inl empty ↦ rw (empty, probe_loop) (at_vacant k (around t.size h k) hk refl p empty)
          | inr (item, full) ↦ elim (Bool-cases (item.key == key)) [
            | inl same ↦
                rw (full, same, probe_loop)
                  (at_hit k (around t.size h k) item hk refl p full ((==_iff item.key key).0 same))
            | inr other ↦ elim (Bool-cases (ltb (suc k) t.size)) [
              | inl more ↦
                  let hk' = ltb→lt (suc k) t.size more in
                  let apart : (around t.size h (suc k) == h) ≡ false = ground arith in
                  rw (full, other, next_around t.size h k hh hk', apart, probe_loop)
                    (next_round rounds (suc k) (omega arith) hk'
                      (Passes-suc t key k item p full (ground arith)))
              | inr last ↦
                  let size : suc k ≡ t.size = ground arith in
                  let back : (h == h) ≡ true = ground arith in
                  rw (full, other, next_around_end t.size h k hh size, back, probe_loop)
                    (at_wrapped
                      (subst (Passes t key) size (Passes-suc t key k item p full (ground arith))))
            ]
          ]
        ]

    -- Every walk ends in one of the three ways, so the rounds suffice.
    pub probe-Walk : Walk t key (probe t key)
    unfolding probe
    probe-Walk =
        let h = key % t.size in
        let first : around t.size h 0 ≡ h = ground (arith, mod-lt key pos) in
        subst (λ i. Walk t key (probe_loop t.size t key h i)) first
          (next_round t.size 0 (omega arith) pos (λ j hj. absurd (omega arith)))

trichotomy : (j k : ℕ) → (j < k) ⊎ ((j ≡ k) ⊎ (k < j))
trichotomy j k = ground arith

module _ {A : Type 0} (t : HashTable A) (key k : ℕ) (hk : k < t.size) (p : Passes t key k) where
  Walk-hit :
      (item : Item A) (s : Stop A)
      → seen t key k ≡ some item
      → item.key ≡ key
      → Walk t key s
      → s ≡ hit (around t.size (key % t.size) k) item
  Walk-hit item s e same (at_vacant k' index hk' ei p' e') = elim (trichotomy k k') [
    | inl lt ↦ let (other, f, d) = p' k lt in absurd (d (cc))
    | inr (inl eq) ↦ cc (ap (seen t key) eq)
    | inr (inr gt) ↦ let (other, f, d) = p k' gt in cc
  ]
  Walk-hit item s e same (at_hit k' index item' hk' ei p' e' same') = elim (trichotomy k k') [
    | inl lt ↦ let (other, f, d) = p' k lt in absurd (d (cc))
    | inr (inl eq) ↦ cc (ap (seen t key) eq, ap (around t.size (key % t.size)) eq)
    | inr (inr gt) ↦ let (other, f, d) = p k' gt in absurd (d (cc))
  ]
  Walk-hit item s e same (at_wrapped p') = let (other, f, d) = p' k hk in absurd (d (cc))

  Walk-vacant :
      (s : Stop A)
      → seen t key k ≡ none
      → Walk t key s
      → s ≡ vacant (around t.size (key % t.size) k)
  Walk-vacant s e (at_vacant k' index hk' ei p' e') = elim (trichotomy k k') [
    | inl lt ↦ let (other, f, d) = p' k lt in cc
    | inr (inl eq) ↦ cc (ap (around t.size (key % t.size)) eq)
    | inr (inr gt) ↦ let (other, f, d) = p k' gt in cc
  ]
  Walk-vacant s e (at_hit k' index item' hk' ei p' e' same') = elim (trichotomy k k') [
    | inl lt ↦ let (other, f, d) = p' k lt in cc
    | inr (inl eq) ↦ cc (ap (seen t key) eq)
    | inr (inr gt) ↦ let (other, f, d) = p k' gt in absurd (d (cc))
  ]
  Walk-vacant s e (at_wrapped p') = let (other, f, d) = p' k hk in cc

  -- A walk that passes `k` slots and then sees its key, or an empty slot, ends there.
  pub probe-hit :
      (item : Item A)
      → seen t key k ≡ some item
      → item.key ≡ key
      → probe t key ≡ hit (around t.size (key % t.size) k) item
  probe-hit item e same = Walk-hit item (probe t key) e same (probe-Walk t key (omega arith))

  pub probe-vacant : seen t key k ≡ none → probe t key ≡ vacant (around t.size (key % t.size) k)
  probe-vacant e = Walk-vacant (probe t key) e (probe-Walk t key (omega arith))
