-- ===== src/Fsutils/Store.antt =====
-- src/fsutils.c: how lookups by name fare when the store of entries is written to.
use mathlib.Core.Path.{subst}
use demuxfs.Prelude.{
  ℕ, zero, suc, ◌<◌, ◌≡◌, ◌≢◌, refl, sym, ap, ◌∙◌, Bool, true, false, Option, none, some, List, [],
  ◌∷◌, ◌++◌, length, set, get_elem?-set_ne, All, ◌==◌, ==_iff, if◌then◌else◌, Run, ok, fault, ◌>>=◌,
  arith, Bool-cases, inl, inr,
}
use demuxfs.Fsutils.{
  Dentry, Dentries, load_dentry, same_string, child_named, fsutils_get_child, dot,
}

pub same_string_self : (xs : List ℕ) → same_string xs xs ≡ true
unfolding same_string
same_string_self [] = refl
same_string_self (x ∷ xs) = let e : (x == x) ≡ true = ground arith in rw e (same_string_self xs)

-- Loads from a store that has been written to.
pub load-set_self :
    (fs : Dentries) (a : ℕ) (d d0 : Dentry)
    → load_dentry fs a ≡ ok d0
    → load_dentry (set fs a (some d)) a ≡ ok d
unfolding load_dentry
load-set_self [] a d d0 e = cc
load-set_self (x ∷ fs) zero d d0 e = refl
load-set_self (x ∷ fs) (suc a) d d0 e = load-set_self fs a d d0 e

pub load-set_ne :
    (fs : Dentries) (a b : ℕ) (v : Option Dentry)
    → a ≢ b
    → load_dentry (set fs a v) b ≡ load_dentry fs b
unfolding load_dentry
load-set_ne fs a b v ne = rw (get_elem?-set_ne fs a b v ne, load_dentry) refl

pub load-append :
    (fs gs : Dentries) (a : ℕ) (d : Dentry)
    → load_dentry fs a ≡ ok d
    → load_dentry (fs ++ gs) a ≡ ok d
unfolding load_dentry
load-append [] gs a d e = cc
load-append (x ∷ fs) gs zero d e = e
load-append (x ∷ fs) gs (suc a) d e = load-append fs gs a d e

load-append_last :
    (fs : Dentries) (d : Dentry) → load_dentry (fs ++ (some d ∷ [])) (length fs) ≡ ok d
unfolding load_dentry
load-append_last [] d = refl
load-append_last (x ∷ fs) d = load-append_last fs d

pub load-append_at :
    (fs : Dentries) (l : ℕ) (d : Dentry)
    → length fs ≡ l
    → load_dentry (fs ++ (some d ∷ [])) l ≡ ok d
load-append_at fs l d e = rw (← e) (load-append_last fs d)

-- What a new entry's address is not: one that has an entry.
pub load-new : (fs : Dentries) (a : ℕ) (d : Dentry) → load_dentry fs a ≡ ok d → a < length fs
unfolding load_dentry
load-new [] a d e = cc
load-new (x ∷ fs) zero d e = omega arith
load-new (x ∷ fs) (suc a) d e = omega (arith, load-new fs a d e)

-- Each of the addresses has an entry.
abbrev pub Loaded : Dentries → List ℕ → Type 0
Loaded fs cs = All (λ c. (d : Dentry) × (load_dentry fs c ≡ ok d)) cs

-- One address: an entry that keeps its name is found as before.
abbrev round_named : Dentries → List ℕ → ℕ → Run (Option ℕ) → Run (Option ℕ)
round_named fs n c rest =
    load_dentry fs c >>= λ d. if same_string d.name n then ok (some c) else rest

round-set :
    (fs : Dentries) (a : ℕ) (d d0 : Dentry) (n : List ℕ) (c : ℕ) (rest : Run (Option ℕ))
    → load_dentry fs a ≡ ok d0
    → d.name ≡ d0.name
    → round_named (set fs a (some d)) n c rest ≡ round_named fs n c rest
round-set fs a d d0 n c rest l e = elim (Bool-cases (a == c)) [
  | inl same ↦
      let s : a ≡ c = (==_iff a c).0 same in rw (← s) (rw (load-set_self fs a d d0 l, l, e) refl)
  | inr other ↦
      let ne : a ≢ c = λ s. ground (arith, other, s) in rw (load-set_ne fs a c (some d) ne) refl
]

pub child_named-set :
    (fs : Dentries) (a : ℕ) (d d0 : Dentry) (n cs : List ℕ)
    → load_dentry fs a ≡ ok d0
    → d.name ≡ d0.name
    → child_named (set fs a (some d)) n cs ≡ child_named fs n cs
unfolding child_named
child_named-set fs a d d0 n [] l e = refl
child_named-set fs a d d0 n (c ∷ cs) l e =
    rw (child_named-set fs a d d0 n cs l e) (round-set fs a d d0 n c (child_named fs n cs) l e)

pub child_named-append :
    (fs gs : Dentries) (n cs : List ℕ)
    → Loaded fs cs
    → child_named (fs ++ gs) n cs ≡ child_named fs n cs
unfolding child_named
child_named-append fs gs n [] h = refl
child_named-append fs gs n (c ∷ cs) ((d, e), h) =
    rw (child_named-append fs gs n cs h, load-append fs gs c d e, e) refl

abbrev pub or_new : Option ℕ → Bool → ℕ → Option ℕ
or_new (some a) b l = some a
or_new none b l = if b then some l else none

if-ok : (b : Bool) (x y : Option ℕ) → (if b then ok x else ok y) ≡ ok (if b then x else y)
if-ok true x y = refl
if-ok false x y = refl

if-or_new :
    (b : Bool) (x : ℕ) (y : Option ℕ) (t : Bool) (l : ℕ)
    → (if b then ok (some x) else ok (or_new y t l)) ≡ ok (or_new (if b then some x else y) t l)
if-or_new true x y t l = refl
if-or_new false x y t l = refl

-- The children, and one more behind them.
child_named-last :
    (fs : Dentries) (n cs : List ℕ) (l : ℕ) (d : Dentry)
    → Loaded fs cs
    → load_dentry fs l ≡ ok d
    → (o : Option ℕ) × (child_named fs n cs ≡ ok o)
      × (child_named fs n (cs ++ (l ∷ [])) ≡ ok (or_new o (same_string d.name n) l))
unfolding child_named
child_named-last fs n [] l d h e = (none, refl, rw e (if-ok (same_string d.name n) (some l) none))
child_named-last fs n (c ∷ cs) l d ((dc, ec), h) e =
    let (o, before, after) = child_named-last fs n cs l d h e in
    (
      if same_string dc.name n then some c else o,
      rw (ec, before) (if-ok (same_string dc.name n) (some c) o),
      rw (ec, after) (if-or_new (same_string dc.name n) c o (same_string d.name n) l),
    )

abbrev value : Run (Option ℕ) → Option ℕ
value (ok o) = o
value fault = none

pub child_named-behind :
    (fs : Dentries) (n cs : List ℕ) (l : ℕ) (d : Dentry) (o : Option ℕ)
    → Loaded fs cs
    → load_dentry fs l ≡ ok d
    → child_named fs n cs ≡ ok o
    → child_named fs n (cs ++ (l ∷ [])) ≡ ok (or_new o (same_string d.name n) l)
child_named-behind fs n cs l d o h e b =
    let (o', before, after) = child_named-last fs n cs l d h e in
    let same : o' ≡ o = ap value (sym before ∙ b) in
    subst (λ x. child_named fs n (cs ++ (l ∷ [])) ≡ ok (or_new x (same_string d.name n) l)) same
      after

pub named_ok :
    (fs : Dentries) (n cs : List ℕ) → Loaded fs cs → (o : Option ℕ) × (child_named fs n cs ≡ ok o)
unfolding child_named
named_ok fs n [] h = (none, refl)
named_ok fs n (c ∷ cs) ((d, e), h) =
    let (o, rest) = named_ok fs n cs h in
    (
      if same_string d.name n then some c else o,
      rw (e, rest) (if-ok (same_string d.name n) (some c) o),
    )

abbrev found_or : Run (Option ℕ) → ℕ → ℕ
found_or (ok (some a)) x = a
found_or _ x = x

-- What is found is one of the children.
pub found_in {κ} :
    (P : ℕ → Type κ) (fs : Dentries) (n cs : List ℕ) (a : ℕ)
    → Loaded fs cs
    → All P cs
    → child_named fs n cs ≡ ok (some a)
    → P a
unfolding child_named
found_in P fs n [] a l h e = cc
found_in P fs n (c ∷ cs) a ((d, le), l) (hc, h) e = elim (Bool-cases (same_string d.name n)) [
  | inl t ↦
      let same : ok (some c) ≡ ok (some a) = rw (← e) (rw (le, t) refl) in
      subst P (ap (λ r. found_or r 0) same) hc
  | inr f ↦
      let rest : child_named fs n cs ≡ ok (some a) = rw (← e) (rw (le, f) refl) in
      found_in P fs n cs a l h rest
]

-- A directory whose children have entries, and which is none of them.
pub record IsDirectory (fs : Dentries) (p : ℕ) (dp : Dentry) : Type 0 where
  pub loads : load_dentry fs p ≡ ok dp
  pub loaded : Loaded fs dp.children
  pub apart : All (λ c. c ≢ p) dp.children

-- A name other than "." and "..".
abbrev pub IsProper : List ℕ → Type 0
IsProper n = (same_string n (dot ∷ []) ≡ false) × (same_string n (dot ∷ dot ∷ []) ≡ false)

pub get_child-IsProper :
    (fs : Dentries) (p : ℕ) (dp : Dentry) (n : List ℕ)
    → IsProper n
    → load_dentry fs p ≡ ok dp
    → fsutils_get_child fs p n ≡ child_named fs n dp.children
unfolding fsutils_get_child
get_child-IsProper fs p dp n (a, b) l = rw (a, l, b) refl

pub set-Loaded :
    (fs : Dentries) (p : ℕ) (d dp : Dentry) (gs : Dentries) (cs : List ℕ)
    → load_dentry fs p ≡ ok dp
    → Loaded fs cs
    → Loaded (set fs p (some d) ++ gs) cs
set-Loaded fs p d dp gs [] l h = tt
set-Loaded fs p d dp gs (c ∷ cs) l ((dc, e), h) = (
  elim (Bool-cases (p == c)) [
    | inl same ↦
        let s : p ≡ c = (==_iff p c).0 same in
        (d, load-append (set fs p (some d)) gs c d (rw (← s) (load-set_self fs p d dp l)))
    | inr other ↦
        let ne : p ≢ c = λ s. ground (arith, other, s) in
        (dc, load-append (set fs p (some d)) gs c dc (load-set_ne fs p c (some d) ne ∙ e))
  ],
  set-Loaded fs p d dp gs cs l h,
)

pub All-last {ℓ κ} :
    {A : Type ℓ} (P : A → Type κ) (xs : List A) (y : A) → All P xs → P y → All P (xs ++ (y ∷ []))
All-last P [] y h k = (k, tt)
All-last P (x ∷ xs) y (hx, h) k = (hx, All-last P xs y h k)
