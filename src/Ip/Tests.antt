-- ===== src/Ip/Tests.antt =====
-- Runs of the theorems on the address data types at concrete values.
use neo.Base.{
  ℕ, zero, suc, ◌-◌, ◌/◌, ◌^◌, ◌<◌, ◌≡◌, ◌↔◌, refl, true, false, Option, none, some, arith, ◌==◌,
  if◌then◌else◌,
}
use mathlib.Core.Option
use neo.Base.Bits.{two-pow-suc, one-le-two-pow}
use neo.Ip.Address.{IPv4Address}
use neo.Ip.Network.{IpInterface, network, contains}
use neo.Ip.Network.Contains.{IsNetwork, network-contains}
use neo.Ip.Range.{IpRange, size, is_network, range_of_network, network_of_range}
use neo.Ip.Range as Range

-- 10.0.0.0 to 10.0.0.255
abbrev some_range : IpRange
some_range = record { lb = 167772160; ub = 167772415 }

abbrev some_range_valid : Range.IsValid some_range
some_range_valid = record { ordered = omega arith; bound = omega arith }

-- 10.0.0.1/24
abbrev some_interface : IpInterface
some_interface = record { value = 167772161; prefix = 24 }

network-contains_example :
    (n : IpInterface) × (network some_interface ≡ some n)
    × IsNetwork n
    × (n.prefix ≡ 24)
    × ((a : IPv4Address) → (contains n a ≡ true) ↔ (a / 2 ^ (32 - 24) ≡ 167772161 / 2 ^ (32 - 24)))
network-contains_example =
    network-contains some_interface
      (record { value_bound = omega arith; prefix_bound = omega arith })

-- The logarithm by halving, as the mathematics library computes it on powers of two.
abbrev int_log2_upto : ℕ → ℕ → Option ℕ
int_log2_upto zero n = none
int_log2_upto (suc fuel) n =
    let rest = int_log2_upto fuel (n / 2) in if n == 1 then some 0 else Option.map suc rest

halve : (k : ℕ) → (2 ^ suc k / 2 ≡ 2 ^ k) × ((2 ^ suc k == 1) ≡ false)
halve k =
    let s = two-pow-suc k in
    let p = one-le-two-pow k in (ground (arith, s, p), ground (arith, s, p))

int_log2_upto-exact : (fuel k : ℕ) → k < fuel → int_log2_upto fuel (2 ^ k) ≡ some k
int_log2_upto-exact zero k h = absurd (ground arith)
int_log2_upto-exact (suc fuel) zero h = refl
int_log2_upto-exact (suc fuel) (suc k) h =
    let (a, b) = halve k in rw (b, a, int_log2_upto-exact fuel k (omega (arith, h))) refl

-- 10.0.0.0/24
abbrev some_network : IpInterface
some_network = record { value = 167772160; prefix = 24 }

abbrev some_network_valid : IsNetwork some_network
some_network_valid = record {
  valid = record { value_bound = omega arith; prefix_bound = omega arith };
  aligned = omega arith;
}
