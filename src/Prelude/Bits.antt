-- ===== src/Prelude/Bits.antt =====
-- Laws of `&`, `|` and `^` at variables, from the binary digits that the operations stand for.
use Prim.Native.Nat.{
  ℕ, zero, suc, ◌+◌, ◌-◌, ◌*◌, ◌/◌, ◌%◌, ◌^◌, ◌≤◌, ◌<◌, min, max, bit_and, bit_or, bit_xor, digits,
  bitwise, differ, bit_and-bitwise, bit_or-bitwise, bit_xor-bitwise,
}
use mathlib.Core.Path.{◌≡◌, refl, ap, ap₂}
use native.Mathlib.Nat.{le_refl, pow-suc, one-le-pow}
use native.Mathlib.Omega.{arith}

-- The recursion on digits does not depend on its count, once that is large enough.
module _ (z : ℕ → ℕ) (f : ℕ → ℕ → ℕ) where
  digits_zero : (y fuel : ℕ) → digits z f fuel 0 y ≡ digits z f 0 0 y
  digits_zero y zero = refl
  digits_zero y (suc fuel) = refl

  digits_count :
      (y x fuel more : ℕ) → x ≤ fuel → x ≤ more → digits z f fuel x y ≡ digits z f more x y
  digits_count y zero fuel more p q = rw (digits_zero y fuel) (rw (digits_zero y more))
  digits_count y (suc x) zero more p q = absurd (omega arith)
  digits_count y (suc x) (suc fuel) zero p q = absurd (omega arith)
  digits_count y (suc x) (suc fuel) (suc more) p q =
      rw (digits_count (y / 2) (suc x / 2) fuel more (omega arith) (omega arith))

  bitwise-suc :
      (x y : ℕ)
      → bitwise z f (suc x) y ≡ bitwise z f (suc x / 2) (y / 2) * 2 + f (suc x % 2) (y % 2)
  bitwise-suc x y =
      let half = suc x / 2 in
      let same = digits_count (y / 2) half x half (omega arith) (le_refl half) in
      omega (arith, same)

digit-differ : (x y : ℕ) → x < 2 → y < 2 → differ x y ≡ (x + y) % 2
digit-differ zero y p q = omega arith
digit-differ (suc zero) zero p q = refl
digit-differ (suc zero) (suc zero) p q = refl
digit-differ (suc zero) (suc (suc y)) p q = absurd (omega arith)
digit-differ (suc (suc x)) y p q = absurd (omega arith)

-- One equation for the lowest digit of each operation.
pub bit_xor_step : (x y : ℕ) → bit_xor x y ≡ bit_xor (x / 2) (y / 2) * 2 + (x + y) % 2
bit_xor_step zero y = simp bit_xor-bitwise (omega arith)
bit_xor_step (suc x) y = simp bit_xor-bitwise (
    omega (
      arith,
      bitwise-suc (λ d. d) differ x y,
      digit-differ (suc x % 2) (y % 2) (omega arith) (omega arith),
    ))

pub bit_and_step : (x y : ℕ) → bit_and x y ≡ bit_and (x / 2) (y / 2) * 2 + min (x % 2) (y % 2)
bit_and_step zero y = simp bit_and-bitwise (omega arith)
bit_and_step (suc x) y = simp bit_and-bitwise (bitwise-suc (λ d. 0) min x y)

pub bit_or_step : (x y : ℕ) → bit_or x y ≡ bit_or (x / 2) (y / 2) * 2 + max (x % 2) (y % 2)
bit_or_step zero y = simp bit_or-bitwise (omega arith)
bit_or_step (suc x) y = simp bit_or-bitwise (bitwise-suc (λ d. d) max x y)

two_pow : (q k : ℕ) → q * 2 ^ suc k ≡ 2 * (q * 2 ^ k)
two_pow q k = omega (arith, ap (λ (t : ℕ). q * t) (pow-suc 2 k))

bit_or-zero : (n a : ℕ) → a ≤ n → bit_or a 0 ≡ a
bit_or-zero n zero h = refl
bit_or-zero zero (suc a) h = absurd (omega arith)
bit_or-zero (suc n) (suc a) h =
    omega (arith, bit_or_step (suc a) 0, bit_or-zero n (suc a / 2) (omega arith))

pub bit_and-zero : (a : ℕ) → bit_and a 0 ≡ 0
bit_and-zero a = below a a (le_refl a)
  where
    below : (n a : ℕ) → a ≤ n → bit_and a 0 ≡ 0
    below n zero h = refl
    below zero (suc a) h = absurd (omega arith)
    below (suc n) (suc a) h =
        omega (arith, bit_and_step (suc a) 0, below n (suc a / 2) (omega arith))

pub bit_xor-zero : (a : ℕ) → bit_xor a 0 ≡ a
bit_xor-zero a = below a a (le_refl a)
  where
    below : (n a : ℕ) → a ≤ n → bit_xor a 0 ≡ a
    below n zero h = refl
    below zero (suc a) h = absurd (omega arith)
    below (suc n) (suc a) h =
        omega (arith, bit_xor_step (suc a) 0, below n (suc a / 2) (omega arith))

-- Disjoint fields: `(q << k) | r` is a sum.
pub bit_or_fields : (k q r : ℕ) → r < 2 ^ k → bit_or (q * 2 ^ k) r ≡ q * 2 ^ k + r
bit_or_fields zero q r h = ground (arith, bit_or-zero q q)
bit_or_fields (suc k) q r h =
    ground
      (arith, bit_or_step (q * 2 ^ suc k) r, two_pow q k, bit_or_fields k q (r / 2) (omega arith))

bit_and_low : (k q r : ℕ) → r < 2 ^ k → bit_and (q * 2 ^ k + r) (2 ^ k - 1) ≡ r
bit_and_low zero q r h = rw (bit_and-zero (q * 2 ^ 0 + r)) (omega arith)
bit_and_low (suc k) q r h = ground (
  arith,
  bit_and_step (q * 2 ^ suc k + r) (2 ^ suc k - 1),
  two_pow q k,
  pow-suc 2 k,
  bit_and_low k q (r / 2) (omega arith),
)

-- A mask of `k` ones keeps the remainder by `2 ^ k`.
pub bit_and_mask : (k a : ℕ) → bit_and a (2 ^ k - 1) ≡ a % 2 ^ k
bit_and_mask k a = ground (arith, one-le-pow k 2, bit_and_low k (a / 2 ^ k) (a % 2 ^ k))

-- Exclusive or is a group of exponent two.
pub bit_xor_self : (a : ℕ) → bit_xor a a ≡ 0
bit_xor_self a = below a a (le_refl a)
  where
    below : (n a : ℕ) → a ≤ n → bit_xor a a ≡ 0
    below n zero h = refl
    below zero (suc a) h = absurd (omega arith)
    below (suc n) (suc a) h =
        omega (arith, bit_xor_step (suc a) (suc a), below n (suc a / 2) (omega arith))

pub zero-bit_xor : (b : ℕ) → bit_xor 0 b ≡ b
zero-bit_xor b = bit_xor-bitwise 0 b

pub bit_xor_comm : (a b : ℕ) → bit_xor a b ≡ bit_xor b a
bit_xor_comm a b = below a a b (le_refl a)
  where
    below : (n a b : ℕ) → a ≤ n → bit_xor a b ≡ bit_xor b a
    below n zero b h = rw (zero-bit_xor, bit_xor-zero)
    below zero (suc a) b h = absurd (omega arith)
    below (suc n) (suc a) b h = omega (
      arith,
      bit_xor_step (suc a) b,
      bit_xor_step b (suc a),
      below n (suc a / 2) (b / 2) (omega arith),
    )

xor_halves :
    (a b : ℕ) → (bit_xor a b / 2 ≡ bit_xor (a / 2) (b / 2)) × (bit_xor a b % 2 ≡ (a + b) % 2)
xor_halves a b = (omega (arith, bit_xor_step a b), omega (arith, bit_xor_step a b))

pub bit_xor_assoc : (a b c : ℕ) → bit_xor (bit_xor a b) c ≡ bit_xor a (bit_xor b c)
bit_xor_assoc a b c = below a a b c (le_refl a)
  where
    below : (n a b c : ℕ) → a ≤ n → bit_xor (bit_xor a b) c ≡ bit_xor a (bit_xor b c)
    below n zero b c h = simp zero-bit_xor
    below zero (suc a) b c h = absurd (omega arith)
    below (suc n) (suc a) b c h =
        rw (bit_xor_step (bit_xor (suc a) b) c, bit_xor_step (suc a) (bit_xor b c))
          (rw ((xor_halves (suc a) b).0, (xor_halves b c).0)
            (omega (
              arith,
              (xor_halves (suc a) b).1,
              (xor_halves b c).1,
              below n (suc a / 2) (b / 2) (c / 2) (omega arith),
            )))

bit_xor_left_comm : (a b c : ℕ) → bit_xor a (bit_xor b c) ≡ bit_xor b (bit_xor a c)
bit_xor_left_comm a b c = cc (bit_xor_assoc a b c, bit_xor_assoc b a c, bit_xor_comm a b)

pub bit_xor_exchange :
    (a b c d : ℕ) → bit_xor (bit_xor a b) (bit_xor c d) ≡ bit_xor (bit_xor a c) (bit_xor b d)
bit_xor_exchange a b c d =
    cc (bit_xor_assoc a b (bit_xor c d), bit_xor_assoc a c (bit_xor b d), bit_xor_left_comm b c d)

-- Two numbers with exclusive or 0 are the same.
pub eq_of_xor_zero : (a b : ℕ) → bit_xor a b ≡ 0 → a ≡ b
eq_of_xor_zero a b h = cc (bit_xor_assoc a b b, bit_xor_self b, bit_xor-zero a, zero-bit_xor b, h)

-- Fields do not mix.
pub bit_xor_fields :
    (k q r s t : ℕ)
    → r < 2 ^ k
    → t < 2 ^ k
    → bit_xor (q * 2 ^ k + r) (s * 2 ^ k + t) ≡ bit_xor q s * 2 ^ k + bit_xor r t
bit_xor_fields zero q r s t h g =
    let r0 : r ≡ 0 = omega arith in
    let t0 : t ≡ 0 = omega arith in rw (r0, t0) (ground (arith, ap₂ bit_xor (q1 q) (q1 s)))
  where
    q1 : (q : ℕ) → q * 2 ^ 0 + 0 ≡ q
    q1 q = omega arith
bit_xor_fields (suc k) q r s t h g = ground (
  arith,
  bit_xor_step (q * 2 ^ suc k + r) (s * 2 ^ suc k + t),
  bit_xor_step r t,
  two_pow q k,
  two_pow s k,
  two_pow (bit_xor q s) k,
  bit_xor_fields k q (r / 2) s (t / 2) (omega arith) (omega arith),
)

pub bit_and_fields :
    (k q r s t : ℕ)
    → r < 2 ^ k
    → t < 2 ^ k
    → bit_and (q * 2 ^ k + r) (s * 2 ^ k + t) ≡ bit_and q s * 2 ^ k + bit_and r t
bit_and_fields zero q r s t h g =
    let r0 : r ≡ 0 = omega arith in
    let t0 : t ≡ 0 = omega arith in rw (r0, t0) (ground (arith, ap₂ bit_and (q1 q) (q1 s)))
  where
    q1 : (q : ℕ) → q * 2 ^ 0 + 0 ≡ q
    q1 q = omega arith
bit_and_fields (suc k) q r s t h g = ground (
  arith,
  bit_and_step (q * 2 ^ suc k + r) (s * 2 ^ suc k + t),
  bit_and_step r t,
  two_pow q k,
  two_pow s k,
  two_pow (bit_and q s) k,
  bit_and_fields k q (r / 2) s (t / 2) (omega arith) (omega arith),
)

pub bit_xor-lt : (k a b : ℕ) → a < 2 ^ k → b < 2 ^ k → bit_xor a b < 2 ^ k
bit_xor-lt zero a b h g =
    let a0 : a ≡ 0 = omega arith in let b0 : b ≡ 0 = omega arith in rw (a0, b0) (omega arith)
bit_xor-lt (suc k) a b h g =
    omega (
      arith,
      bit_xor_step a b,
      pow-suc 2 k,
      bit_xor-lt k (a / 2) (b / 2) (omega arith) (omega arith),
    )
