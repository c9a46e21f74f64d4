-- ===== src/Ip/Range/Convert.antt =====
-- src/lib/ip.hpp: the conversions between networks and ranges.
use native.Mathlib.Nat.{mod-eq_of_lt, pow-le-pow_right}
use native.Mathlib.Decide.{dec_lt}
use neo.Base.{
  ℕ, ◌+◌, ◌-◌, ◌*◌, ◌%◌, ◌^◌, ◌≤◌, ◌<◌, ◌≡◌, ◌↔◌, refl, ap, ◌∙◌, subst, bit_and, true, Option, some,
  arith, ◌==◌, ==_iff, &&→fst,
}
use neo.Base.Blocks.{block_end}
use neo.Base.Bits.{two-pow-add, bit_and-ones, bit_and-two-pow, two-pow_of_bit_and, one-le-two-pow}
use neo.Ip.Address.{u32_mod, and_mask}
use neo.Ip.Network.{IpInterface}
use neo.Ip.Network.Masks.{block, block-le, broadcast_addr_lem}
use neo.Ip.Network.Contains.{IsNetwork}
use neo.Ip.Range.{IpRange, IsValid, range_of_network, size, aligned, is_network, network_of_range}
use neo.Ip.Range.Size.{size_exact}

-- The bounds of a network's range.
range_of_network_bounds :
    (n : IpInterface)
    → IsNetwork n
    → ((range_of_network n).lb ≡ n.value) × ((range_of_network n).ub ≡ n.value + (block n - 1))
unfolding range_of_network
range_of_network_bounds n v = (refl, omega (arith, broadcast_addr_lem n, v.aligned))

-- `n - 1` in 32 bits.
pred_u32 : (n : ℕ) → 1 ≤ n → n ≤ u32_mod → (n + u32_mod - 1) % u32_mod ≡ n - 1
pred_u32 n h b = omega arith

two-pow-le : (k : ℕ) → k < 32 → 2 ^ k ≤ 2 ^ 31
two-pow-le k h = pow-le-pow_right {n = 2} (omega arith) {j = 31} (omega arith)

aligned-two-pow : (r : IpRange) (k : ℕ) → k < 32 → (aligned r (2 ^ k) ≡ true) ↔ (r.lb % 2 ^ k ≡ 0)
unfolding aligned and_mask
aligned-two-pow r k h =
    rw
      (
        pred_u32 (2 ^ k) (one-le-two-pow k) (omega (arith, two-pow-le k h)),
        bit_and-two-pow k,
        bit_and-ones k r.lb,
      )
      (==_iff (r.lb % 2 ^ k) 0)

-- What the test says of any size that fits: the size is a power of two and divides the start.
two-pow_of_aligned :
    (r : IpRange) (n : ℕ) → 1 ≤ n → n < u32_mod → aligned r n ≡ true → (k : ℕ) × (n ≡ 2 ^ k)
unfolding aligned
two-pow_of_aligned r n h b e = two-pow_of_bit_and n h (
    (==_iff (bit_and n (n - 1)) 0).0
      (subst (λ (m : ℕ). (bit_and n m == 0) ≡ true) (pred_u32 n h (omega arith)) (&&→fst _ _ e)))

pub range_of_network-IsValid : (n : IpInterface) → IsNetwork n → IsValid (range_of_network n)
range_of_network-IsValid n v =
    let (lo, hi) = range_of_network_bounds n v in
    let split : 32 ≡ n.prefix + (32 - n.prefix) = omega (arith, v.valid.prefix_bound) in
    let whole : u32_mod ≡ 2 ^ n.prefix * block n =
      ap (λ (k : ℕ). 2 ^ k) split ∙ two-pow-add n.prefix (32 - n.prefix) in
    record {
      ordered = omega (arith, block-le n);
      bound = omega (
        arith,
        block-le n,
        block_end n.value (block n) (2 ^ n.prefix) v.aligned (omega (arith, v.valid.value_bound)),
      );
    }

size_of_network :
    (n : IpInterface) → IsNetwork n → 2 ≤ n.prefix → size (range_of_network n) ≡ some (block n)
size_of_network n v h =
    let (lo, hi) = range_of_network_bounds n v in
    let small : block n ≤ 2 ^ 30 = pow-le-pow_right {n = 2} (omega arith) {j = 30} (omega arith) in
    (size_exact (range_of_network n) (range_of_network-IsValid n v)).1 (omega (arith, block-le n))
    ∙ ap some (omega (arith, block-le n))

-- The test of a network's range passes, and the size is not cut.
network_test :
    (n : IpInterface)
    → IsNetwork n
    → 2 ≤ n.prefix
    → (block n % u32_mod ≡ block n) × (aligned (range_of_network n) (block n) ≡ true)
unfolding range_of_network
network_test n v h =
    let k = 32 - n.prefix in
    (
      mod-eq_of_lt (omega (arith, two-pow-le k)),
      (aligned-two-pow (range_of_network n) k (omega arith)).1 v.aligned,
    )

network_accepted :
    (n : IpInterface) → IsNetwork n → 2 ≤ n.prefix → is_network (range_of_network n) ≡ some true
unfolding is_network
network_accepted n v h = ground (arith, size_of_network n v h, network_test n v h)

-- A network of at most 2^30 addresses is recovered from its range, where the mathematics library
-- computes the logarithm of a power of two exactly.
pub network_of_range-range_of_network :
    (int_log2 : ℕ → Option ℕ)
    → ((k : ℕ) → k < 32 → int_log2 (2 ^ k) ≡ some k)
    → (n : IpInterface) → IsNetwork n
    → 2 ≤ n.prefix
    → network_of_range int_log2 (range_of_network n) ≡ some n
unfolding network_of_range
network_of_range-range_of_network int_log2 exact n v h = ground (
  arith,
  size_of_network n v h,
  network_test n v h,
  exact (32 - n.prefix) (omega arith),
  range_of_network_bounds n v,
)

exponent-lt : (k : ℕ) → 2 ^ k < 2 ^ 31 → k < 31
exponent-lt k h = elim (dec_lt k 31) [
  | yes p ↦ p
  | no p ↦
      absurd (omega (arith, pow-le-pow_right {n = 2} (omega arith) {i = 31} {j = k} (omega arith)))
]

network_of_aligned :
    (r : IpRange) (k : ℕ)
    → IsValid r
    → r.ub - r.lb + 1 ≡ 2 ^ k
    → k < 31
    → r.lb % 2 ^ k ≡ 0
    → (n : IpInterface) × IsNetwork n × (2 ≤ n.prefix) × (range_of_network n ≡ r)
network_of_aligned r k v size_eq small al = (n, v', omega arith, ground (arith, bounds, block_eq))
  where
    n : IpInterface
    n = record { value = r.lb; prefix = 32 - k }

    block_eq : block n ≡ 2 ^ k
    block_eq = ap (λ (j : ℕ). 2 ^ j) (omega arith)

    v' : IsNetwork n
    v' = record {
      valid = record {
        value_bound = omega (arith, v.ordered, v.bound);
        prefix_bound = omega arith;
      };
      aligned = rw block_eq al;
    }

    bounds : ((range_of_network n).lb ≡ r.lb) × ((range_of_network n).ub ≡ r.lb + (block n - 1))
    bounds = range_of_network_bounds n v'

-- Among the valid ranges of fewer than 2^31 addresses, `is_network` accepts exactly the ranges of
-- networks.
pub is_network_iff :
    (r : IpRange)
    → IsValid r
    → r.ub - r.lb + 1 < 2 ^ 31
    → (is_network r ≡ some true)
      ↔ ((n : IpInterface) × IsNetwork n × (2 ≤ n.prefix) × (range_of_network n ≡ r))
unfolding is_network
is_network_iff r v small = (
  accepted,
  λ (n, v', long, e). subst (λ q. is_network q ≡ some true) e (network_accepted n v' long),
)
  where
    count : ℕ
    count = r.ub - r.lb + 1

    sized : size r ≡ some count
    sized = (size_exact r v).1 small

    fits : count % u32_mod ≡ count
    fits = mod-eq_of_lt (omega arith)

    accepted :
        is_network r ≡ some true
        → (n : IpInterface) × IsNetwork n × (2 ≤ n.prefix) × (range_of_network n ≡ r)
    accepted e =
        let test : aligned r count ≡ true = ground (arith, sized, fits) in
        let (k, power) = two-pow_of_aligned r count (omega arith) (omega arith) test in
        let short : k < 31 = exponent-lt k (omega arith) in
        network_of_aligned r k v power short
          ((aligned-two-pow r k (omega arith)).0 (subst (λ m. aligned r m ≡ true) power test))
