-- ===== src/Ip/Range.antt =====
-- src/lib/ip.hpp: IPRange, an inclusive range of addresses, and its conversions to networks.
pub mod Size
pub mod Convert
use neo.Base.{
  ℕ, ◌+◌, ◌-◌, ◌%◌, ◌^◌, ◌≤◌, ◌<◌, Bool, true, false, ◌&&◌, Option, none, some, ltb, leb, ◌==◌,
  bit_and, if◌then◌else◌,
}
use neo.Ip.Address.{IPv4Address, u32_mod, sub, and_mask}
use neo.Ip.Network.{IpInterface, network_addr, broadcast_addr}

pub record IpRange : Type 0 where
  pub lb : IPv4Address
  pub ub : IPv4Address

pub record IsValid (r : IpRange) : Type 0 where
  pub ordered : r.lb ≤ r.ub
  pub bound : r.ub < u32_mod

-- The constructor from two addresses.
unfoldable pub make_range : IPv4Address → IPv4Address → Option IpRange
make_range lb ub = if ltb ub lb then none else some (record { lb = lb; ub = ub })

-- The constructor from a network.
unfoldable pub range_of_network : IpInterface → IpRange
range_of_network n = record { lb = network_addr n; ub = broadcast_addr n }

-- `ub - lb + 1`. The difference is an int, so adding 1 to the largest int is undefined behaviour
-- (`none`), and a negative sum is converted to the 64 bits of size_t.
abbrev size_of_diff : ℕ → Option ℕ
size_of_diff d =
    if d == 2 ^ 31 - 1
    then none
    else if ltb d (2 ^ 31)
    then some (d + 1)
    else some ((2 ^ 64 + d + 1 - 2 ^ 32) % 2 ^ 64)

unfoldable pub size : IpRange → Option ℕ
unfolding sub
size r = size_of_diff (sub r.ub r.lb)

-- `contains(const Addr &)` and `contains(const IPRange<Addr> &)`.
unfoldable pub contains : IpRange → IPv4Address → Bool
contains r addr = leb r.lb addr && leb addr r.ub

unfoldable pub contains_range : IpRange → IpRange → Bool
contains_range r s = leb r.lb s.lb && leb s.ub r.ub

-- `n` is a power of two (or 0) and the range starts at a multiple of it, in 32 bits.
unfoldable pub aligned : IpRange → ℕ → Bool
unfolding and_mask
aligned r n =
    let pred_n = (n + u32_mod - 1) % u32_mod in bit_and n pred_n == 0 && and_mask r.lb pred_n == 0

-- `is_network()`; the size is stored in 32 bits.
unfoldable pub is_network : IpRange → Option Bool
unfolding size
is_network r = elim (size r) [ none ↦ none | some n ↦ some (aligned r (n % u32_mod)) ]

-- The constructor of IPNetwork from a range. The argument stands for `(int)log2(…)` of <cmath>.
unfoldable pub network_of_range : (ℕ → Option ℕ) → IpRange → Option IpInterface
unfolding size
network_of_range int_log2 r = elim (size r) [
  | none ↦ none
  | some n ↦
      if aligned r (n % u32_mod)
      then elim (int_log2 (n % u32_mod)) [
        | none ↦ none
        | some k ↦ some (record { value = r.lb; prefix = 32 - k })
      ]
      else none
]
