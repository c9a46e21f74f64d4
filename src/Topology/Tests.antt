-- ===== src/Topology/Tests.antt =====
-- Runs of the theorems on a switch and two hosts.
use neo.Base.{
  Bool-cases, inl, inr, subst, ℕ, ◌==◌, true, false, List, [], ◌∷◌, none, some, if◌then◌else◌, All,
  ◌≡◌, ◌≢◌, refl, arith,
}
use neo.Ip.Address.{IPv4Address}
use neo.Ip.Network.{contains, broadcast_addr}
use neo.Model.{FibIpnh}
use neo.Routing.Table.{RoutingTable, lookup}
use neo.Topology.{InterfaceInfo, NodeInfo, Endpoint, L2Lan, World}
use neo.Topology.Nodes.{has_ip}
use neo.Topology.Lan.{endpoint, l2_lan}
use neo.Topology.Lan.Terminates.{Lists, l2_lan-ends}
use neo.Topology.Hops.{out_of_fuel, get_ipnhs}
use neo.Topology.Hops.Terminates.{get_ipnhs-ends}
use neo.Topology.Hops.Sound.{IsHop, get_ipnhs-IsHop}
use neo.Topology.Links.{Link, Net, add_link}

abbrev port : InterfaceInfo
port = record { name = "p"; is_switchport = true; ipv4 = record { value = 0; prefix = 0 } }

abbrev host_port : IPv4Address → InterfaceInfo
host_port a = record { name = "e"; is_switchport = false; ipv4 = record { value = a; prefix = 24 } }

-- A route to everything by the address 7, and the route to the network of the interface.
abbrev routes : RoutingTable
routes =
    record {
      network = record { value = 0; prefix = 24 };
      next_hop = 6;
      egress_intf = "e";
      adm_dist = 0;
    }
    ∷ record {
      network = record { value = 0; prefix = 0 };
      next_hop = 7;
      egress_intf = "";
      adm_dist = 1;
    }
    ∷ []

abbrev switch_info : NodeInfo
switch_info = record {
  name = "s";
  intfs = record { name = "p"; value = 11 } ∷ [];
  intfs_l3 = [];
  intfs_l2 = 11 ∷ [];
  rib = [];
  l2_peers = record { name = "p"; value = endpoint 2 21 } ∷ [];
  l2_lans = [];
}

abbrev host_info : NodeInfo
host_info = record {
  name = "h";
  intfs = record { name = "e"; value = 21 } ∷ [];
  intfs_l3 = record { key = 6; value = 21 } ∷ [];
  intfs_l2 = [];
  rib = routes;
  l2_peers = [];
  l2_lans = [];
}

-- The switch 1 and the hosts.
abbrev small_world : World
small_world = record {
  node = λ n. if n == 1 then switch_info else host_info;
  intf = λ i. if i == 11 then port else host_port 6;
}

abbrev switchports : List Endpoint
switchports = endpoint 1 11 ∷ []

small_world-Lists : (n : ℕ) → Lists small_world switchports n
small_world-Lists n = elim (Bool-cases (n == 1)) [
  | inl e ↦ let one : 1 ≡ n = ground arith in subst (Lists small_world switchports) one (refl, tt)
  | inr e ↦ rw e tt
]

abbrev small_lan : L2Lan
small_lan = record {
  tbl = record { key = 1; value = endpoint 2 21 ∷ [] } ∷ [];
  l2_endpoints = endpoint 1 11 ∷ [];
  l3_endpoints = record { key = 6; value = endpoint 2 21 } ∷ [];
}

l2_lan-ends_example : (lan : L2Lan) × (l2_lan small_world 2 1 ≡ some lan)
l2_lan-ends_example = l2_lan-ends small_world switchports small_world-Lists 2 1 (omega arith)

get_ipnhs-ends_example : get_ipnhs small_world 4 2 routes 6 [] ≢ out_of_fuel
get_ipnhs-ends_example = get_ipnhs-ends small_world 2 routes 4 6 (omega arith)

abbrev itself : FibIpnh
itself = record { l3_node = 2; l3_intf = 0; l2_node = 2; l2_intf = 0 }

get_ipnhs-IsHop_example : All (IsHop small_world 2 routes 6) (itself ∷ [])
unfolding get_ipnhs lookup contains broadcast_addr has_ip
get_ipnhs-IsHop_example = get_ipnhs-IsHop small_world 2 routes 6 4 [] (6 ∷ []) (itself ∷ []) refl

-- A second host on the switch.
abbrev cable : Link
cable = record { node1 = 3; node2 = 2; intf1 = 31; intf2 = 21 }

abbrev small_net : Net
small_net = record { world = small_world; links = []; lans = [] }

abbrev cabled : Net
cabled = elim (add_link cable small_net) [ none ↦ small_net | some n ↦ n ]
