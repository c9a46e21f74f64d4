-- ===== src/Topology/Hops.antt =====
-- src/node.cpp: `get_ipnh` and `get_ipnhs`, the next hops of a node for an address.
pub mod Terminates
pub mod Sound
use Prim.Native.String.{String}
use neo.Base.{
  length, ◌+◌, ℕ, zero, suc, Bool, true, false, not, ◌==◌, List, [], ◌∷◌, Option, none, some,
  if◌then◌else◌, find, set_insert, set_union, elem,
}
use neo.Base.Partial.{◌>>=◌}
use neo.Ip.Address.{IPv4Address}
use neo.Objects.{Node, Interface}
use neo.Model.{FibIpnh}
use neo.Routing.Route.{Route, is_recursive}
use neo.Routing.Table.{RoutingTable, lookup}
use neo.Topology.{NodeInfo, Endpoint, L2Lan, World}
use neo.Topology.Fib.{precedes}
use neo.Topology.Nodes.{has_ip, get_peer, get_l2lan}

abbrev pub ipnh : Node → Interface → Node → Interface → FibIpnh
ipnh a b c d = record { l3_node = a; l3_intf = b; l2_node = c; l2_intf = d }

-- `L2_LAN::find_l3_endpoint`; `none` is the pair of null pointers.
unfoldable pub find_l3_endpoint : IPv4Address → L2Lan → Option Endpoint
find_l3_endpoint dst lan = find dst lan.l3_endpoints

-- The end of `get_ipnh`, from the endpoint that the LAN has for the address.
abbrev pub through_lan : Endpoint → Option Endpoint → FibIpnh
through_lan l2 none = ipnh 0 0 0 0
through_lan l2 (some l3) = ipnh l3.node l3.interface l2.node l2.interface

-- The hops and the addresses that have been looked up by then.
pub data Outcome : Type 0 where
  out_of_fuel : Outcome
  threw : Outcome
  found : List FibIpnh → List IPv4Address → Outcome

-- The hop of a route with an egress interface is added unless it is null.
abbrev pub with_hop : Option FibIpnh → List FibIpnh → Option (List FibIpnh)
with_hop none hops = none
with_hop (some h) hops = some (if h.l3_node == 0 then hops else set_insert precedes h hops)

module _ (w : World) where
  -- The next hop from the interface's peer; `none` is the exception of `at` in `get_l2lan`.
  unfoldable pub get_ipnh_from : Option Endpoint → IPv4Address → Option FibIpnh
  unfolding find_l3_endpoint
  get_ipnh_from none dst = some (ipnh 0 0 0 0)
  get_ipnh_from (some p) dst =
      let by_lan = get_l2lan p.interface (w.node p.node) >>= λ lan.
      some (through_lan p (find_l3_endpoint dst lan)) in
      if not (w.intf p.interface).is_switchport
      then some (ipnh p.node p.interface p.node p.interface)
      else by_lan

  unfoldable pub get_ipnh : Node → String → IPv4Address → Option FibIpnh
  unfolding get_ipnh_from
  get_ipnh n egress dst = get_ipnh_from (get_peer egress (w.node n)) dst

  unfoldable pub connected_hop : Node → Route → IPv4Address → List FibIpnh → Option (List FibIpnh)
  connected_hop n r dst hops =
      let forwarded = with_hop (get_ipnh n r.egress_intf dst) hops in
      if has_ip dst (w.node n) then some (set_insert precedes (ipnh n 0 n 0) hops) else forwarded

  -- The loop over the routes, where `again` is the recursive call.
  unfoldable pub collect_hops :
      (IPv4Address → List IPv4Address → Outcome)
      → Node
      → IPv4Address
      → List Route
      → List FibIpnh
      → List IPv4Address
      → Outcome
  unfolding connected_hop
  collect_hops again n dst [] hops looked_up = found hops looked_up
  collect_hops again n dst (r ∷ rs) hops looked_up =
      if is_recursive r
      then elim (again r.next_hop looked_up) [
        | out_of_fuel ↦ out_of_fuel
        | threw ↦ threw
        | found more seen ↦ collect_hops again n dst rs (set_union precedes more hops) seen
      ]
      else elim (connected_hop n r dst hops) [
        | none ↦ threw
        | some more ↦ collect_hops again n dst rs more looked_up
      ]

  -- The fuel bounds the depth of the recursion.
  unfoldable pub get_ipnhs : ℕ → Node → RoutingTable → IPv4Address → List IPv4Address → Outcome
  unfolding collect_hops
  get_ipnhs zero n rib dst looked_up = out_of_fuel
  get_ipnhs (suc fuel) n rib dst looked_up =
      let loop = collect_hops (get_ipnhs fuel n rib) n dst (lookup dst rib) [] (dst ∷ looked_up) in
      if elem dst looked_up then found [] looked_up else loop

  abbrev pub hops_of : Outcome → Option (List FibIpnh)
  hops_of out_of_fuel = none
  hops_of threw = none
  hops_of (found hops looked_up) = some hops

  -- The virtual function: a middlebox has no next hops.
  unfoldable pub node_hops :
      (Node → Bool) → Node → RoutingTable → IPv4Address → Option (List FibIpnh)
  unfolding get_ipnhs
  node_hops is_emulated n rib dst =
      let hops = hops_of (get_ipnhs (length rib + 2) n rib dst []) in
      if is_emulated n then some [] else hops
