-- ===== src/Base/Blocks.antt =====
-- Numbers cut into blocks of equal size.
use Prim.Native.Nat.{ℕ, ◌+◌, ◌-◌, ◌*◌, ◌/◌, ◌%◌, ◌≤◌, ◌<◌}
use mathlib.Core.Path.{◌≡◌, ap}
use native.Mathlib.Nat.{
  div-add-mod', div-mul-le_self, lt-div-mul-add, div-eq_of_lt-le, mul-mod_left,
}
use native.Mathlib.Omega.{arith}

-- The start of a number's block is a multiple of the size.
pub block_start : (a b : ℕ) → a - a % b ≡ a / b * b
block_start a b = omega (arith, div-add-mod' a b)

pub block_start-mod : (a b : ℕ) → (a - a % b) % b ≡ 0
block_start-mod a b = rw (block_start a b) (mul-mod_left (a / b) b)

-- A number lies in the block that starts at `n` exactly when both have the same quotient.
pub div-eq_of_block :
    (n a b : ℕ) → 1 ≤ b → n % b ≡ 0 → n ≤ a → a ≤ n - n % b + (b - 1) → a / b ≡ n / b
div-eq_of_block n a b h e lo hi =
    div-eq_of_lt-le b (omega (arith, block_start n b)) (omega (arith, block_start n b))

pub block_of_div-eq :
    (n a b : ℕ) → 1 ≤ b → n % b ≡ 0 → a / b ≡ n / b → (n ≤ a) × (a ≤ n - n % b + (b - 1))
block_of_div-eq n a b h e q = (
  omega (arith, block_start n b, same, div-mul-le_self a b),
  omega (arith, block_start n b, same, lt-div-mul-add {a = a} {b = b} h),
)
  where
    same : a / b * b ≡ n / b * b
    same = ap (λ (t : ℕ). t * b) q

-- A block that starts below a multiple of the size ends there at the latest.
pub block_end : (n b m : ℕ) → n % b ≡ 0 → n < m * b → n + b ≤ m * b
block_end n b m e h = grind (arith, block_start n b, below)
  where
    below : n / b * b < m * b
    below = omega (arith, block_start n b)
