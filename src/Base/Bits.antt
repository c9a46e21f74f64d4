-- ===== src/Base/Bits.antt =====
-- Masks: what `&` and `|` with a run of low ones compute, at every width.
use Prim.Native.Nat.{
  ℕ, zero, suc, ◌+◌, ◌-◌, ◌*◌, ◌/◌, ◌%◌, ◌^◌, ◌≤◌, ◌<◌, min, max, bit_and, bit_or, digits,
  bit_and-bitwise, bit_or-bitwise,
}
use mathlib.Core.Path.{◌≡◌, refl, ap, ◌∙◌}
use native.Mathlib.Nat.{pow-suc, one-le-pow, zero-add, suc-add, suc-mul, mod-eq_of_lt}
use native.Mathlib.Decide.{ℕ_discrete}
use native.Mathlib.Omega.{arith}

-- The native operations stand for a recursion on binary digits with fuel; any fuel that covers
-- the first number gives the same.
module _ (rest : ℕ → ℕ) (digit : ℕ → ℕ → ℕ) where
  digits_irrelevant :
      (f g a b : ℕ) → a ≤ f → a ≤ g → digits rest digit f a b ≡ digits rest digit g a b
  digits_irrelevant zero zero zero b p q = refl
  digits_irrelevant zero (suc g) zero b p q = refl
  digits_irrelevant (suc f) zero zero b p q = refl
  digits_irrelevant (suc f) (suc g) zero b p q = refl
  digits_irrelevant zero g (suc a) b p q = absurd (omega arith)
  digits_irrelevant (suc f) zero (suc a) b p q = absurd (omega arith)
  digits_irrelevant (suc f) (suc g) (suc a) b p q =
      omega (arith, digits_irrelevant f g (suc a / 2) (b / 2) (omega arith) (omega arith))

-- One binary digit of `&` and of `|`.
pub bit_and_low : (a b : ℕ) → bit_and a b ≡ bit_and (a / 2) (b / 2) * 2 + min (a % 2) (b % 2)
bit_and_low zero b = omega (arith, bit_and-bitwise 0 b, bit_and-bitwise 0 (b / 2))
bit_and_low (suc a) b = omega (
  arith,
  bit_and-bitwise (suc a) b,
  bit_and-bitwise (suc a / 2) (b / 2),
  digits_irrelevant (λ _. 0) min a (suc a / 2) (suc a / 2) (b / 2),
)

pub bit_or_low : (a b : ℕ) → bit_or a b ≡ bit_or (a / 2) (b / 2) * 2 + max (a % 2) (b % 2)
bit_or_low zero b = omega (arith, bit_or-bitwise 0 b, bit_or-bitwise 0 (b / 2))
bit_or_low (suc a) b = omega (
  arith,
  bit_or-bitwise (suc a) b,
  bit_or-bitwise (suc a / 2) (b / 2),
  digits_irrelevant (λ y. y) max a (suc a / 2) (suc a / 2) (b / 2),
)

bit_and-zero_fuel : (f a : ℕ) → a ≤ f → bit_and a 0 ≡ 0
bit_and-zero_fuel f zero h = refl
bit_and-zero_fuel zero (suc a) h = absurd (omega arith)
bit_and-zero_fuel (suc f) (suc a) h =
    omega (arith, bit_and_low (suc a) 0, bit_and-zero_fuel f (suc a / 2) (omega arith))

pub bit_and-zero : (a : ℕ) → bit_and a 0 ≡ 0
bit_and-zero a = bit_and-zero_fuel a a (omega arith)

bit_or-zero_fuel : (f a : ℕ) → a ≤ f → bit_or a 0 ≡ a
bit_or-zero_fuel f zero h = refl
bit_or-zero_fuel zero (suc a) h = absurd (omega arith)
bit_or-zero_fuel (suc f) (suc a) h =
    omega (arith, bit_or_low (suc a) 0, bit_or-zero_fuel f (suc a / 2) (omega arith))

pub bit_or-zero : (a : ℕ) → bit_or a 0 ≡ a
bit_or-zero a = bit_or-zero_fuel a a (omega arith)

pub one-le-two-pow : (k : ℕ) → 1 ≤ 2 ^ k
one-le-two-pow k = one-le-pow k 2 (omega arith)

pub two-pow-suc : (k : ℕ) → 2 ^ suc k ≡ 2 * 2 ^ k
two-pow-suc k = omega (arith, pow-suc 2 k)

-- A number as a multiple of `2 ^ k` and a rest: the rest is what the mask of `k` ones keeps, and
-- `|` with that mask sets every digit of the rest.
bit_and-ones_fields : (k q r : ℕ) → r < 2 ^ k → bit_and (q * 2 ^ k + r) (2 ^ k - 1) ≡ r
bit_and-ones_fields zero q r h = rw bit_and-zero (omega arith)
bit_and-ones_fields (suc k) q r h = ground (
  arith,
  bit_and_low (q * 2 ^ suc k + r) (2 ^ suc k - 1),
  ap (λ (t : ℕ). q * t) (two-pow-suc k),
  two-pow-suc k,
  one-le-two-pow k,
  bit_and-ones_fields k q (r / 2) (omega (arith, two-pow-suc k)),
)

pub bit_and-ones : (k a : ℕ) → bit_and a (2 ^ k - 1) ≡ a % 2 ^ k
bit_and-ones k a = ground (arith, one-le-two-pow k, bit_and-ones_fields k (a / 2 ^ k) (a % 2 ^ k))

bit_or-ones_fields :
    (k q r : ℕ) → r < 2 ^ k → bit_or (q * 2 ^ k + r) (2 ^ k - 1) ≡ q * 2 ^ k + (2 ^ k - 1)
bit_or-ones_fields zero q r h = rw bit_or-zero (omega arith)
bit_or-ones_fields (suc k) q r h = ground (
  arith,
  bit_or_low (q * 2 ^ suc k + r) (2 ^ suc k - 1),
  ap (λ (t : ℕ). q * t) (two-pow-suc k),
  two-pow-suc k,
  one-le-two-pow k,
  bit_or-ones_fields k q (r / 2) (omega (arith, two-pow-suc k)),
)

pub bit_or-ones : (k a : ℕ) → bit_or a (2 ^ k - 1) ≡ a - a % 2 ^ k + (2 ^ k - 1)
bit_or-ones k a = ground (arith, one-le-two-pow k, bit_or-ones_fields k (a / 2 ^ k) (a % 2 ^ k))

-- The mask of `m` ones above `k` zeros clears the rest.
bit_and-high_fields :
    (k m q r : ℕ) → r < 2 ^ k → bit_and (q * 2 ^ k + r) ((2 ^ m - 1) * 2 ^ k) ≡ q % 2 ^ m * 2 ^ k
bit_and-high_fields zero m q r h = ground (arith, bit_and-ones m q)
bit_and-high_fields (suc k) m q r h = ground (
  arith,
  bit_and_low (q * 2 ^ suc k + r) ((2 ^ m - 1) * 2 ^ suc k),
  ap (λ (t : ℕ). q * t) (two-pow-suc k),
  ap (λ (t : ℕ). (2 ^ m - 1) * t) (two-pow-suc k),
  ap (λ (t : ℕ). q % 2 ^ m * t) (two-pow-suc k),
  two-pow-suc k,
  one-le-two-pow k,
  bit_and-high_fields k m q (r / 2) (omega (arith, two-pow-suc k)),
)

pub bit_and-high : (k m a : ℕ) → bit_and a ((2 ^ m - 1) * 2 ^ k) ≡ a / 2 ^ k % 2 ^ m * 2 ^ k
bit_and-high k m a =
    ground (arith, one-le-two-pow k, bit_and-high_fields k m (a / 2 ^ k) (a % 2 ^ k))

bit_and-self_fuel : (f a : ℕ) → a ≤ f → bit_and a a ≡ a
bit_and-self_fuel f zero h = refl
bit_and-self_fuel zero (suc a) h = absurd (omega arith)
bit_and-self_fuel (suc f) (suc a) h =
    omega (arith, bit_and_low (suc a) (suc a), bit_and-self_fuel f (suc a / 2) (omega arith))

-- `n & (n - 1)` drops the lowest one, so it is 0 just for the powers of two (and for 0).
two-pow_of_bit_and_fuel : (f n : ℕ) → n ≤ f → 0 < n → bit_and n (n - 1) ≡ 0 → (k : ℕ) × (n ≡ 2 ^ k)
two-pow_of_bit_and_fuel zero n h p e = absurd (omega arith)
two-pow_of_bit_and_fuel (suc f) n h p e = elim (ℕ_discrete (n % 2) 0) [
  | yes even ↦
      let half : (n - 1) / 2 ≡ n / 2 - 1 = omega arith in
      let (k, q) =
        two-pow_of_bit_and_fuel f (n / 2) (omega arith) (omega arith)
          (omega (arith, bit_and_low n (n - 1), ap (bit_and (n / 2)) half)) in
      (suc k, omega (arith, two-pow-suc k))
  | no odd ↦
      let half : (n - 1) / 2 ≡ n / 2 = omega arith in
      (
        0,
        omega (
          arith,
          bit_and_low n (n - 1),
          ap (bit_and (n / 2)) half,
          bit_and-self_fuel (n / 2) (n / 2) (omega arith),
        ),
      )
]

pub two-pow_of_bit_and : (n : ℕ) → 0 < n → bit_and n (n - 1) ≡ 0 → (k : ℕ) × (n ≡ 2 ^ k)
two-pow_of_bit_and n = two-pow_of_bit_and_fuel n n (omega arith)

pub bit_and-two-pow : (k : ℕ) → bit_and (2 ^ k) (2 ^ k - 1) ≡ 0
bit_and-two-pow k = omega (arith, one-le-two-pow k, bit_and-ones_fields k 1 0, lift)
  where
    lift : bit_and (1 * 2 ^ k + 0) (2 ^ k - 1) ≡ bit_and (2 ^ k) (2 ^ k - 1)
    lift = ap (λ (t : ℕ). bit_and t (2 ^ k - 1)) (omega arith)

pub two-pow-add : (m k : ℕ) → 2 ^ (m + k) ≡ 2 ^ m * 2 ^ k
two-pow-add zero k = rw zero-add (omega arith)
two-pow-add (suc m) k =
    rw suc-add (
      omega
        (arith, two-pow-suc (m + k), two-pow-add m k, ap (λ (t : ℕ). t * 2 ^ k) (two-pow-suc m)))

mul-pred : (p k : ℕ) → 1 ≤ p → p * k - k ≡ (p - 1) * k
mul-pred zero k h = absurd (omega arith)
mul-pred (suc p) k h = let e : suc p - 1 ≡ p = omega arith in rw (e, suc-mul) (omega arith)

-- The mask that clears `k` digits of a word of `m + k` bits.
pub bit_and-complement :
    (m k a : ℕ) → a < 2 ^ (m + k) → bit_and a (2 ^ (m + k) - 2 ^ k) ≡ a - a % 2 ^ k
bit_and-complement m k a h = ap (bit_and a) ones ∙ (bit_and-high k m a ∙ cleared)
  where
    ones : 2 ^ (m + k) - 2 ^ k ≡ (2 ^ m - 1) * 2 ^ k
    ones = rw (two-pow-add m k) (mul-pred (2 ^ m) (2 ^ k) (one-le-two-pow m))

    below : a / 2 ^ k < 2 ^ m
    below = grind (arith, two-pow-add m k, one-le-two-pow k)

    cleared : a / 2 ^ k % 2 ^ m * 2 ^ k ≡ a - a % 2 ^ k
    cleared = rw (mod-eq_of_lt below) (grind arith)
