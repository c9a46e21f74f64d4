-- ===== src/Topology/Lan.antt =====
-- src/l2-lan.cpp: the layer 2 network around a switchport.
pub mod Terminates
pub mod Addresses
use neo.Base.{
  ℕ, zero, suc, Bool, true, false, not, ◌&&◌, ◌==◌, ltb, List, [], ◌∷◌, Option, none, some,
  if◌then◌else◌, Keyed, find, put, set_insert, any,
}
use neo.Base.Partial.{◌>>=◌}
use neo.Objects.{Node, Interface}
use neo.Topology.{InterfaceInfo, NodeInfo, Endpoint, L2Lan, World}
use neo.Topology.Nodes.{addr, get_peer}

abbrev pub endpoint : Node → Interface → Endpoint
endpoint n i = record { node = n; interface = i }

abbrev pub same_endpoint : Endpoint → Endpoint → Bool
same_endpoint a b = a.node == b.node && a.interface == b.interface

abbrev pub endpoint_lt : Endpoint → Endpoint → Bool
endpoint_lt a b =
    if ltb a.node b.node
    then true
    else if ltb b.node a.node
    then false
    else ltb a.interface b.interface

abbrev pub is_collected : Endpoint → L2Lan → Bool
is_collected e lan = any (same_endpoint e) lan.l2_endpoints

abbrev pub with_endpoint : Endpoint → L2Lan → L2Lan
with_endpoint e lan = record lan { l2_endpoints = set_insert endpoint_lt e lan.l2_endpoints }

abbrev peers_of : Node → L2Lan → List Endpoint
peers_of n lan = elim (find n lan.tbl) [ none ↦ [] | some ps ↦ ps ]

-- `tbl[node].insert(peer)`.
abbrev pub with_peer : Node → Endpoint → L2Lan → L2Lan
with_peer n p lan = record lan { tbl = put n (set_insert endpoint_lt p (peers_of n lan)) lan.tbl }

abbrev pub no_lan : L2Lan
no_lan = record { tbl = []; l2_endpoints = []; l3_endpoints = [] }

module _ (w : World) where
  -- The LAN with the peer of a new endpoint; `again` is the recursive call. The address of an
  -- interface that is not a switchport is always given.
  unfoldable pub with_neighbour :
      (Node → L2Lan → Option L2Lan) → Node → Option Endpoint → L2Lan → Option L2Lan
  unfolding addr
  with_neighbour again n none lan = some lan
  with_neighbour again n (some p) lan =
      let more = with_peer n p lan in
      if not (w.intf p.interface).is_switchport
      then (addr (w.intf p.interface) >>= λ a.
          some (record more { l3_endpoints = put a p lan.l3_endpoints }))
      else if is_collected p more
      then some more
      else again p.node more

  unfoldable pub visit : (Node → L2Lan → Option L2Lan) → Node → Interface → L2Lan → Option L2Lan
  unfolding with_neighbour
  visit again n i lan =
      let peer = get_peer (w.intf i).name (w.node n) in
      if is_collected (endpoint n i) lan
      then some lan
      else with_neighbour again n peer (with_endpoint (endpoint n i) lan)

  unfoldable pub visit_all :
      (Node → L2Lan → Option L2Lan) → Node → List Interface → L2Lan → Option L2Lan
  unfolding visit
  visit_all again n [] lan = some lan
  visit_all again n (i ∷ is) lan = visit again n i lan >>= λ l. visit_all again n is l

  -- The fuel bounds the depth of the recursion; `none` is out of fuel. The interface is unused.
  unfoldable pub collect_intfs : ℕ → Node → L2Lan → Option L2Lan
  unfolding visit_all
  collect_intfs zero n lan = none
  collect_intfs (suc fuel) n lan = visit_all (collect_intfs fuel) n (w.node n).intfs_l2 lan

  -- The constructor.
  unfoldable pub l2_lan : ℕ → Node → Option L2Lan
  unfolding collect_intfs
  l2_lan fuel n = collect_intfs fuel n no_lan
