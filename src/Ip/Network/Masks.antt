-- ===== src/Ip/Network/Masks.antt =====
-- src/lib/ip.hpp: the masks of IPInterface and IPNetwork as arithmetic on the address.
use neo.Base.{ℕ, ◌+◌, ◌-◌, ◌%◌, ◌^◌, ◌≤◌, ◌<◌, bit_and, ◌≡◌, ap, ◌∙◌, subst, ◌↔◌, arith, true}
use native.Mathlib.Nat.{pow-le-pow_right}
use neo.Base.Bits.{bit_and-ones, bit_or-ones, bit_and-complement, one-le-two-pow}
use neo.Ip.Address.{u32_mod, and_mask, or_mask}
use neo.Ip.Network.{IpInterface, IsValid, host_mask, is_network, broadcast_addr}

-- The number of addresses of a network.
abbrev pub block : IpInterface → ℕ
block i = 2 ^ (32 - i.prefix)

pub block-le : (i : IpInterface) → (1 ≤ block i) × (block i ≤ u32_mod)
block-le i =
    (one-le-two-pow (32 - i.prefix), pow-le-pow_right {n = 2} (omega arith) {j = 32} (omega arith))

pub host_mask_lem : (i : IpInterface) → host_mask i ≡ block i - 1
unfolding host_mask
host_mask_lem i = omega (arith, block-le i)

pub and-host_mask : (i : IpInterface) → and_mask i.value (host_mask i) ≡ i.value % block i
unfolding and_mask
and-host_mask i = rw host_mask_lem (bit_and-ones (32 - i.prefix) i.value)

-- A network's host part is zero.
pub is_network-aligned : (i : IpInterface) → (is_network i ≡ true) ↔ (i.value % block i ≡ 0)
unfolding is_network
is_network-aligned i = ground (arith, and-host_mask i)

pub broadcast_addr_lem :
    (i : IpInterface) → broadcast_addr i ≡ i.value - i.value % block i + (block i - 1)
unfolding broadcast_addr or_mask
broadcast_addr_lem i = rw host_mask_lem (bit_or-ones (32 - i.prefix) i.value)

-- The address that `network` passes on has the host part cleared.
pub cleared :
    (i : IpInterface)
    → IsValid i
    → and_mask i.value (u32_mod - 1 - host_mask i) ≡ i.value - i.value % block i
unfolding and_mask
cleared i v =
    ap (bit_and i.value) mask_eq
    ∙ bit_and-complement i.prefix (32 - i.prefix) i.value
        (subst (λ n. i.value < 2 ^ n) split v.value_bound)
  where
    split : 32 ≡ i.prefix + (32 - i.prefix)
    split = omega (arith, v.prefix_bound)

    mask_eq : u32_mod - 1 - host_mask i ≡ 2 ^ (i.prefix + (32 - i.prefix)) - block i
    mask_eq = rw (← split) (omega (arith, host_mask_lem i, block-le i))
