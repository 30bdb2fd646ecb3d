-- ===== src/Ts/Safety.antt =====
-- src/ts.c: no packet makes ts_parse_packet touch memory that is not its own.
pub mod Psi
pub mod Loop
pub mod Pes
pub mod Packet
pub mod Stream
use demuxfs.Prelude.{
  ℕ, zero, suc, ◌+◌, ◌-◌, ◌%◌, ◌^◌, ◌≤◌, ◌<◌, ◌≡◌, ◌≢◌, ◌⊎◌, inl, inr, refl, sym, ap, ◌∙◌, Bool,
  true, false, not, ◌&&◌, ◌||◌, Option, none, some, List, [], ◌∷◌, ◌++◌, ◌==◌, ltb, leb,
  if◌then◌else◌, ℤ, pos, negsuc, length, take, drop, get_elem?, set, Run, ok, fault, ◌>>=◌, Returns,
  arith, length-set, length-append, Bool-cases, Option-cases, length-drop, bit_and, bit_or, ◌/◌,
  ◌*◌,
}
use demuxfs.Byteops.{convert_to_16}
use demuxfs.Hash.{HashTable, hashtable_get, hashtable_add}
use demuxfs.Hash.Laws
use demuxfs.Hash.Add.{hashtable_add-IsValid, get-add, add-full}
use demuxfs.Buffer.{
  Buffer, Allocator, append_to, buffer_create, buffer_reset_size, section_length,
  buffer_contains_full_psi_section, buffer_contains_full_pes_section, max_section_size, enomem,
}
use demuxfs.Buffer.Laws.{IsValid, contents, length-contents}
use demuxfs.Buffer.Append.{append_to-AppendSpec}
use demuxfs.Buffer.Cases.{bounded}
use demuxfs.Buffer.Sections.{full_psi_section, buffer_create_lem}
use demuxfs.Ts.Header.{TsHeader}
use demuxfs.Ts.Continuity.{continuity_counter_is_ok}
use demuxfs.Ts.Packet.{Options, Tables, Store, load, store, read_at, note_counter}

-- A run of `r` and then of `f`.
pub Returns-bind {ℓ κ μ ν} :
    {A : Type ℓ} {B : Type κ} {P : A → Type μ} {Q : B → Type ν} (r : Run A) (f : A → Run B)
    → Returns r P
    → ((x : A) → P x → Returns (f x) Q)
    → Returns (r >>= f) Q
Returns-bind r f (x, e, p) next = rw e (next x p)

pub get_elem?-some {ℓ} :
    {A : Type ℓ} (xs : List A) (i : ℕ) → i < length xs → (x : A) × (get_elem? xs i ≡ some x)
get_elem?-some [] i h = absurd (omega arith)
get_elem?-some (x ∷ xs) zero h = (x, refl)
get_elem?-some (x ∷ xs) (suc i) h = get_elem?-some xs i (omega arith)

-- An offset that is less than the length of the payload can be read.
pub read_at-Returns :
    (payload : List ℕ) (i : ℕ) → i < length payload → Returns {0, 0} (read_at payload i) (λ b. Unit)
unfolding read_at
read_at-Returns payload i h =
    let (x, e) = get_elem?-some payload i h in rw (e, read_at) (x, refl, tt)

-- No buffer holds more than this between two packets: the largest PES packet has 6 + 0xffff bytes.
abbrev pub most : ℕ
most = 65540

pub record IsSound (b : Buffer) : Type 0 where
  pub valid : IsValid b
  pub few : b.current_size ≤ most

-- Every element satisfies `P`.
pub data Every {ℓ κ} {A : Type ℓ} (P : A → Type κ) : List A → Type (ℓ ⊔ κ) where
  every_nil : Every P []
  every_cons : {x : A} {xs : List A} → P x → Every P xs → Every P (x ∷ xs)

module _ {ℓ κ} {A : Type ℓ} {P : A → Type κ} where
  Every-get : (xs : List A) (i : ℕ) (x : A) → Every P xs → get_elem? xs i ≡ some x → P x
  Every-get [] i x v e = cc
  Every-get (y ∷ xs) zero x (every_cons p v) e = let same : y ≡ x = cc in rw (← same) p
  Every-get (y ∷ xs) (suc i) x (every_cons p v) e = Every-get xs i x v e

  Every-set : (xs : List A) (i : ℕ) (x : A) → Every P xs → P x → Every P (set xs i x)
  Every-set [] i x v p = v
  Every-set (y ∷ xs) zero x (every_cons q v) p = every_cons p v
  Every-set (y ∷ xs) (suc i) x (every_cons q v) p = every_cons q (Every-set xs i x v p)

  Every-append : (xs ys : List A) → Every P xs → Every P ys → Every P (xs ++ ys)
  Every-append [] ys v w = w
  Every-append (x ∷ xs) ys (every_cons p v) w = every_cons p (Every-append xs ys v w)

module _ {W : Type 0} where
  -- The table of packet buffers is valid, and holds addresses of buffers that are sound.
  pub record IsSafe (s : Store W) : Type 0 where
    pub table : Laws.IsValid s.packet_buffer
    pub held :
        (pid address : ℕ)
        → hashtable_get s.packet_buffer pid ≡ some address
        → address < length s.buffers
    pub sound : Every IsSound s.buffers

  pub load-Returns :
      (s : Store W) (address : ℕ)
      → IsSafe s
      → address < length s.buffers
      → Returns (load s address) IsSound
  unfolding load
  load-Returns s address v h =
      let (b, e) = get_elem?-some s.buffers address h in
      rw (e, load) (b, refl, Every-get s.buffers address b v.sound e)

  pub store-IsSafe :
      (s : Store W) (address : ℕ) (b : Buffer) → IsSafe s → IsSound b → IsSafe (store s address b)
  store-IsSafe s address b v p = record {
    table = v.table;
    held = λ pid i e. omega (arith, v.held pid i e, length-set s.buffers address b);
    sound = Every-set s.buffers address b v.sound p;
  }

  -- A safe store, and an address in it if there is one.
  abbrev pub Reaches : Option ℕ → Store W → Type 0
  Reaches none s = IsSafe s
  Reaches (some address) s = IsSafe s × (address < length s.buffers)

  pub Reaches-IsSafe : (buffer : Option ℕ) (s : Store W) → Reaches buffer s → IsSafe s
  Reaches-IsSafe none s r = r
  Reaches-IsSafe (some address) s r = r.0

  pub store-Reaches :
      (s : Store W) (address : ℕ) (b : Buffer)
      → Reaches (some address) s
      → IsSound b
      → Reaches (some address) (store s address b)
  store-Reaches s address b r p =
      (store-IsSafe s address b r.0 p, omega (arith, r.1, length-set s.buffers address b))

  pub note_counter-IsSafe :
      (header : TsHeader) (buffer : Option ℕ) (s : Store W)
      → Reaches buffer s
      → Returns (note_counter header buffer s) IsSafe
  unfolding note_counter
  note_counter-IsSafe header none s r = (s, refl, r)
  note_counter-IsSafe header (some address) s r =
      Returns-bind (load s address) _ (load-Returns s address r.0 r.1) (λ b p. (
        _,
        refl,
        store-IsSafe s address _ r.0 (record {
          valid = record {
            sized = p.valid.sized;
            within = p.valid.within;
            section = p.valid.section;
          };
          few = p.few;
        }),
      ))

  -- A new buffer under a new address.
  pub add-Reaches :
      (s : Store W) (pid : ℕ) (b : Buffer)
      → IsSafe s
      → IsSound b
      → Reaches (some (length s.buffers)) (record s {
        packet_buffer = (hashtable_add s.packet_buffer pid (some (length s.buffers)) false).1;
        buffers = s.buffers ++ (b ∷ []);
      })
  add-Reaches s pid b v p =
      let t = s.packet_buffer in
      let address = length s.buffers in
      let more = length-append s.buffers (b ∷ []) in
      (
        record {
          table = hashtable_add-IsValid t v.table pid (some address) false;
          held = λ q i e. omega (arith, more, reached q i e);
          sound = Every-append s.buffers (b ∷ []) v.sound (every_cons p every_nil);
        },
        omega (arith, more),
      )
    where
      reached :
          (q i : ℕ)
          → hashtable_get (hashtable_add s.packet_buffer pid (some (length s.buffers)) false).1 q
            ≡ some i
          → i ≤ length s.buffers
      reached q i e =
          let t = s.packet_buffer in
          let address = length s.buffers in
          elim (Bool-cases (hashtable_add t pid (some address) false).0) [
            | inl added ↦
                let now = get-add t v.table pid (some address) false added q in
                elim (Bool-cases (q == pid)) [
                  | inl same ↦
                      let it : some address ≡ some i = ground (arith, now, same, e) in
                      let eq : address ≡ i = cc in omega (arith, eq)
                  | inr other ↦
                      let before : hashtable_get t q ≡ some i = ground (arith, now, other, e) in
                      omega (arith, v.held q i before)
                ]
            | inr full ↦
                let same = (add-full t v.table pid (some address) false full).0 in
                let before : hashtable_get t q ≡ some i =
                  sym (ap (λ x. hashtable_get x q) same) ∙ e in
                omega (arith, v.held q i before)
          ]

-- An emptied buffer is sound if it is valid.
pub emptied-IsSound : (b : Buffer) → IsValid b → IsSound (buffer_reset_size b)
emptied-IsSound b v = record {
  valid = record { sized = v.sized; within = omega arith; section = λ psi. omega arith };
  few = omega arith;
}

pub reset-IsSound : (b : Buffer) → IsSound b → IsSound (buffer_reset_size b)
reset-IsSound b p = emptied-IsSound b p.valid

pub continuity-IsSound :
    (header : TsHeader) (b : Buffer) → IsSound b → IsSound (continuity_counter_is_ok header b).1
continuity-IsSound header b p = elim (continuity_cases header b) [
  | inl e ↦ rw e p
  | inr e ↦ rw e (reset-IsSound b p)
]
  where
    continuity_cases :
        (header : TsHeader) (b : Buffer)
        → ((continuity_counter_is_ok header b).1 ≡ b)
          ⊎ ((continuity_counter_is_ok header b).1 ≡ buffer_reset_size b)
    continuity_cases header b = unfold continuity_counter_is_ok in ground arith

-- A valid buffer behind an append: the size is returned, or it is still bounded.
abbrev pub Appended : ℤ × Buffer → Type 0
Appended r =
    IsValid r.1 × ((r.0 ≡ pos r.1.current_size) ⊎ (r.0 ≡ enomem) × (r.1.current_size ≤ most))

-- The append to a sound buffer returns; the buffer is valid and holds no more than before and what
-- was added.
pub append-Returns :
    (a : Allocator) (b : Buffer) (buf : List ℕ) (n : ℕ)
    → IsSound b
    → n ≤ length buf
    → n ≤ 255
    → Returns (append_to a b buf n) Appended
append-Returns a b buf n p h few =
    let (r, done, spec) =
      append_to-AppendSpec a b p.valid buf n h (λ psi. omega arith) (omega (arith, p.few)) in
    (r, done, (spec.0, sizes r spec.0 spec.2))
  where
    sizes :
        (r : ℤ × Buffer)
        → IsValid r.1
        → (r.0 ≡ pos r.1.current_size)
            × (contents r.1 ≡ bounded b.holds_pes_data (contents b ++ take n buf))
          ⊎ (r.0 ≡ enomem) × (contents r.1 ≡ contents b)
        → (r.0 ≡ pos r.1.current_size) ⊎ (r.0 ≡ enomem) × (r.1.current_size ≤ most)
    sizes r v (inl s) = inl s.0
    sizes r v (inr s) = inr (
      s.0,
      omega (
        arith,
        length-contents r.1 v,
        length-contents b p.valid,
        ap (λ (l : List ℕ). length l) s.1,
        p.few,
      ),
    )
