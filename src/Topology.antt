-- ===== src/Topology.antt =====
-- src/node.cpp, src/interface.cpp, src/link.cpp, src/l2-lan.cpp and src/fib.cpp: the nodes, how
-- they are linked, and the next hops that their routing tables give.
-- A pointer is a number. `World` is what the pointers to nodes and interfaces point to.
pub mod Fib
pub mod Nodes
pub mod Lan
pub mod Hops
pub mod Links
mod Tests
use Prim.Native.String.{String}
use neo.Base.{ℕ, Bool, true, false, List, [], ◌∷◌, Option, none, some, Keyed, Named}
use neo.Ip.Address.{IPv4Address}
use neo.Ip.Network.{IpInterface}
use neo.Objects.{Node, Interface}
use neo.Routing.Table.{RoutingTable}

pub record InterfaceInfo : Type 0 where
  pub name : String
  pub is_switchport : Bool
  pub ipv4 : IpInterface

-- A node and one of its interfaces.
pub record Endpoint : Type 0 where
  pub node : Node
  pub interface : Interface

-- The maps and sets are in the order of their keys.
pub record L2Lan : Type 0 where
  pub tbl : List (Keyed (List Endpoint))
  pub l2_endpoints : List Endpoint
  pub l3_endpoints : List (Keyed Endpoint)

-- The maps by name are read by name only, and the other maps have the order of their keys.
pub record NodeInfo : Type 0 where
  pub name : String
  pub intfs : List (Named Interface)
  pub intfs_l3 : List (Keyed Interface)
  pub intfs_l2 : List Interface
  pub rib : RoutingTable
  pub l2_peers : List (Named Endpoint)
  pub l2_lans : List (Keyed L2Lan)

pub record World : Type 0 where
  pub node : Node → NodeInfo
  pub intf : Interface → InterfaceInfo
