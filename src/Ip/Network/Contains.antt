-- ===== src/Ip/Network/Contains.antt =====
-- src/lib/ip.hpp: which addresses a network contains.
use neo.Base.{ℕ, ◌-◌, ◌/◌, ◌%◌, ◌≡◌, refl, sym, subst, ◌↔◌, arith, true, some}
use neo.Base.Blocks.{block_start-mod, div-eq_of_block, block_of_div-eq}
use neo.Base.Int.{pos}
use native.Mathlib.Nat.{mod-lt}
use neo.Ip.Address.{IPv4Address}
use neo.Ip.Network.{IpInterface, IsValid, make_interface, make_network, network, contains}
use neo.Ip.Network.Masks.{block, block-le, is_network-aligned, broadcast_addr_lem, cleared}

-- A network value as the constructor of IPNetwork leaves it.
pub record IsNetwork (n : IpInterface) : Type 0 where
  pub valid : IsValid n
  pub aligned : n.value % block n ≡ 0

-- A network contains the addresses that agree with it above the host part.
pub contains_iff :
    (n : IpInterface) (a : IPv4Address)
    → IsNetwork n
    → (contains n a ≡ true) ↔ (a / block n ≡ n.value / block n)
unfolding contains
contains_iff n a v = ground (
  arith,
  broadcast_addr_lem n,
  block-le n,
  div-eq_of_block n.value a (block n) (block-le n).0 v.aligned,
  block_of_div-eq n.value a (block n) (block-le n).0 v.aligned,
)

make_network_lem : (n : IpInterface) → IsNetwork n → make_network n.value (pos n.prefix) ≡ some n
unfolding make_network make_interface
make_network_lem n v = ground (arith, is_network-aligned n)

-- The network of an interface: the address with its host part cleared.
abbrev pub enclosing : IpInterface → IpInterface
enclosing i = record { value = i.value - i.value % block i; prefix = i.prefix }

pub enclosing-IsNetwork : (i : IpInterface) → IsValid i → IsNetwork (enclosing i)
enclosing-IsNetwork i v = record {
  valid = record { value_bound = omega (arith, v.value_bound); prefix_bound = v.prefix_bound };
  aligned = block_start-mod i.value (block i);
}

pub network-enclosing : (i : IpInterface) → IsValid i → network i ≡ some (enclosing i)
unfolding network
network-enclosing i v = rw (cleared i v) (make_network_lem (enclosing i) (enclosing-IsNetwork i v))

div-enclosing : (i : IpInterface) → (enclosing i).value / block i ≡ i.value / block i
div-enclosing i = sym (
    div-eq_of_block (enclosing i).value i.value (block i) (block-le i).0
      (block_start-mod i.value (block i)) (omega arith)
      (omega (arith, block_start-mod i.value (block i), mod-lt i.value (block-le i).0)))

-- The network of a valid interface exists, is a network of the same prefix length, and contains
-- exactly the addresses that agree with the interface's above the host part.
pub network-contains :
    (i : IpInterface)
    → IsValid i
    → (n : IpInterface) × (network i ≡ some n)
      × IsNetwork n
      × (n.prefix ≡ i.prefix)
      × ((a : IPv4Address) → (contains n a ≡ true) ↔ (a / block i ≡ i.value / block i))
network-contains i v = (
  enclosing i,
  network-enclosing i v,
  enclosing-IsNetwork i v,
  refl,
  λ a.
      subst (λ (q : ℕ). (contains (enclosing i) a ≡ true) ↔ (a / block i ≡ q)) (div-enclosing i)
        (contains_iff (enclosing i) a (enclosing-IsNetwork i v)),
)
