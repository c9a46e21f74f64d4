-- ===== src/Ip/Network.antt =====
-- src/lib/ip.hpp: IPInterface and IPNetwork. A logged error is an exception, `none` here.
pub mod Masks
pub mod Contains
use neo.Base.{
  ℕ, ◌+◌, ◌-◌, ◌%◌, ◌^◌, ◌≤◌, ◌<◌, ◌≡◌, Bool, true, false, not, ◌&&◌, Option, none, some, ltb, leb,
  ◌==◌, if◌then◌else◌,
}
use neo.Base.Int.{ℤ, pos, negsuc}
use neo.Ip.Address.{IPv4Address, u32_mod, and_mask, or_mask}

-- An address with the length of its network prefix. IPNetwork inherits both fields.
pub record IpInterface : Type 0 where
  pub value : IPv4Address
  pub prefix : ℕ

-- The value fits 32 bits, and the prefix is in the range that the constructors check.
pub record IsValid (i : IpInterface) : Type 0 where
  pub value_bound : i.value < u32_mod
  pub prefix_bound : i.prefix ≤ 32

-- The constructor from an address and an int.
unfoldable pub make_interface : IPv4Address → ℤ → Option IpInterface
make_interface addr (negsuc n) = none
make_interface addr (pos n) = if ltb 32 n then none else some (record { value = addr; prefix = n })

-- `mask()`: computed in 64 bits, then cut to 32.
unfoldable pub mask : IpInterface → IPv4Address
mask i = (2 ^ 64 - 1 - (2 ^ (32 - i.prefix) - 1)) % u32_mod

-- The local `mask` of `network`, `is_network` and `broadcast_addr`: the ones of the host part.
unfoldable pub host_mask : IpInterface → ℕ
host_mask i = (2 ^ (32 - i.prefix) - 1) % u32_mod

unfoldable pub is_network : IpInterface → Bool
unfolding host_mask and_mask
is_network i = and_mask i.value (host_mask i) == 0

-- The constructor of IPNetwork from an address and a prefix length.
unfoldable pub make_network : IPv4Address → ℤ → Option IpInterface
unfolding make_interface is_network
make_network addr prefix = elim (make_interface addr prefix) [
  | none ↦ none
  | some i ↦ if is_network i then some i else none
]

-- `network()`: the network that the interface is in. `~mask` is taken in 32 bits.
unfoldable pub network : IpInterface → Option IpInterface
unfolding make_network host_mask and_mask
network i = make_network (and_mask i.value (u32_mod - 1 - host_mask i)) (pos i.prefix)

abbrev pub network_addr : IpInterface → IPv4Address
network_addr n = n.value

unfoldable pub broadcast_addr : IpInterface → IPv4Address
unfolding host_mask or_mask
broadcast_addr n = or_mask n.value (host_mask n)

-- `contains(const Addr &)`.
unfoldable pub contains : IpInterface → IPv4Address → Bool
contains n addr = leb (network_addr n) addr && leb addr (broadcast_addr n)

-- `contains(const IPRange<Addr> &)`, from the two bounds of the range.
unfoldable pub contains_range : IpInterface → IPv4Address → IPv4Address → Bool
contains_range n lb ub = leb (network_addr n) lb && leb ub (broadcast_addr n)

-- `operator<` on interfaces: the longer prefix first, then the smaller address.
unfoldable pub precedes : IpInterface → IpInterface → Bool
precedes a b =
    if ltb b.prefix a.prefix
    then true
    else if ltb a.prefix b.prefix
    then false
    else ltb a.value b.value

-- `operator==`.
unfoldable pub same_network : IpInterface → IpInterface → Bool
same_network a b = a.value == b.value && a.prefix == b.prefix
