-- ===== src/Topology/Nodes.antt =====
-- src/node.cpp, src/interface.cpp and src/network.cpp: the interfaces and the peers of a node.
use Prim.Native.String.{String}
use neo.Base.{
  ℕ, Bool, true, false, List, [], ◌∷◌, Option, none, some, if◌then◌else◌, find, put, insert_new,
  find_name, insert_name, set_insert, ltb,
}
use neo.Base.Partial.{◌>>=◌}
use neo.Ip.Address.{IPv4Address}
use neo.Ip.Network.{IpInterface, network, mask}
use neo.Objects.{Interface}
use neo.Routing.Route.{Route}
use neo.Routing.Table.{insert}
use neo.Topology.{InterfaceInfo, NodeInfo, Endpoint, L2Lan}

-- The interface's accessors; `none` is the logged error on a switchport.
unfoldable pub addr : InterfaceInfo → Option IPv4Address
addr i = if i.is_switchport then none else some i.ipv4.value

unfoldable pub prefix_length : InterfaceInfo → Option ℕ
prefix_length i = if i.is_switchport then none else some i.ipv4.prefix

unfoldable pub intf_mask : InterfaceInfo → Option IPv4Address
intf_mask i = if i.is_switchport then none else some (mask i.ipv4)

unfoldable pub intf_network : InterfaceInfo → Option IpInterface
intf_network i = if i.is_switchport then none else network i.ipv4

module _ (info : Interface → InterfaceInfo) where
  -- An interface with an address, and the route to its network.
  unfoldable pub add_l3 : Interface → NodeInfo → Option NodeInfo
  unfolding addr intf_network
  add_l3 i n = addr (info i) >>= λ ip. insert_new ip i n.intfs_l3 >>= λ l3.
      intf_network (info i) >>= λ net.
      let route : Route = record {
        network = net;
        next_hop = ip;
        egress_intf = (info i).name;
        adm_dist = 0;
      } in
      some (record n { intfs_l3 = l3; rib = insert route n.rib })

  -- `none` is a logged error: a duplicate name or address.
  unfoldable pub add_interface : Interface → NodeInfo → Option NodeInfo
  unfolding add_l3
  add_interface i n = insert_name (info i).name i n.intfs >>= λ all.
      let named : NodeInfo = record n { intfs = all } in
      if (info i).is_switchport
      then some (record named { intfs_l2 = set_insert ltb i n.intfs_l2 })
      else add_l3 i named

unfoldable pub has_ip : IPv4Address → NodeInfo → Bool
has_ip a n = elim (find a n.intfs_l3) [ none ↦ false | some _ ↦ true ]

unfoldable pub is_l3_only : NodeInfo → Bool
is_l3_only n = elim n.intfs_l2 [ [] ↦ true | _ ∷ _ ↦ false ]

abbrev first_of : List Interface → Option Interface
first_of [] = none
first_of (i ∷ is) = some i

-- The address 127.0.0.1.
abbrev localhost : IPv4Address
localhost = 2130706433

-- The interface "lo", or that of 127.0.0.1, or the first one with an address, or the first
-- switchport; `none` is the null pointer.
unfoldable pub loopback_intf : NodeInfo → Option Interface
loopback_intf n = elim (find_name "lo" n.intfs) [
  | some i ↦ some i
  | none ↦ elim (find localhost n.intfs_l3) [
    | some i ↦ some i
    | none ↦ elim n.intfs_l3 [ e ∷ _ ↦ some e.value | [] ↦ first_of n.intfs_l2 ]
  ]
]

-- `none` is the pair of null pointers.
unfoldable pub get_peer : String → NodeInfo → Option Endpoint
get_peer name n = find_name name n.l2_peers

-- `none` is the logged error "Two peers on interface".
unfoldable pub add_peer : String → Endpoint → NodeInfo → Option NodeInfo
add_peer name peer n =
    insert_name name peer n.l2_peers >>= λ peers. some (record n { l2_peers = peers })

unfoldable pub set_l2lan : Interface → L2Lan → NodeInfo → NodeInfo
set_l2lan i lan n = record n { l2_lans = put i lan n.l2_lans }

unfoldable pub mapped_to_l2lan : Interface → NodeInfo → Bool
mapped_to_l2lan i n = elim (find i n.l2_lans) [ none ↦ false | some _ ↦ true ]

-- `none` is the exception of `at`.
unfoldable pub get_l2lan : Interface → NodeInfo → Option L2Lan
get_l2lan i n = find i n.l2_lans
