-- ===== src/Topology/Links.antt =====
-- src/link.cpp and src/network.cpp: the links of the network, and how its nodes get their peers.
pub mod Peers
use neo.Base.{
  ℕ, Bool, true, false, not, ◌&&◌, ◌==◌, ltb, List, [], ◌∷◌, Option, none, some, if◌then◌else◌,
  Keyed, set_insert, any,
}
use neo.Base.Partial.{◌>>=◌}
use neo.Objects.{Node, Interface}
use neo.Topology.{InterfaceInfo, NodeInfo, Endpoint, L2Lan, World}
use neo.Topology.Nodes.{add_peer, set_l2lan}
use neo.Topology.Lan.{endpoint, same_endpoint, l2_lan}

pub record Link : Type 0 where
  pub node1 : Node
  pub node2 : Node
  pub intf1 : Interface
  pub intf2 : Interface

-- `operator<` and `operator>`, by the pointers.
unfoldable pub lt : Link → Link → Bool
lt a b =
    if ltb a.node1 b.node1
    then true
    else if ltb b.node1 a.node1
    then false
    else if ltb a.intf1 b.intf1
    then true
    else if ltb b.intf1 a.intf1
    then false
    else if ltb a.node2 b.node2
    then true
    else if ltb b.node2 a.node2
    then false
    else if ltb a.intf2 b.intf2
    then true
    else if ltb b.intf2 a.intf2
    then false
    else false

unfoldable pub gt : Link → Link → Bool
gt a b =
    if ltb b.node1 a.node1
    then true
    else if ltb a.node1 b.node1
    then false
    else if ltb b.intf1 a.intf1
    then true
    else if ltb a.intf1 b.intf1
    then false
    else if ltb b.node2 a.node2
    then true
    else if ltb a.node2 b.node2
    then false
    else if ltb b.intf2 a.intf2
    then true
    else if ltb a.intf2 b.intf2
    then false
    else false

unfoldable pub le : Link → Link → Bool
unfolding gt
le a b = not (gt a b)

unfoldable pub ge : Link → Link → Bool
unfolding lt
ge a b = not (lt a b)

unfoldable pub same : Link → Link → Bool
same a b = a.node1 == b.node1 && a.intf1 == b.intf1 && a.node2 == b.node2 && a.intf2 == b.intf2

-- The nodes, links and LANs of a network.
pub record Net : Type 0 where
  pub world : World
  pub links : List Link
  pub lans : List L2Lan

abbrev pub set_node : Node → NodeInfo → World → World
set_node n info w = record w { node = λ m. if m == n then info else w.node m }

-- The set has a link that neither precedes nor follows.
abbrev pub has_link : Link → List Link → Bool
has_link l ls = any (λ k. not (lt l k) && not (lt k l)) ls

-- Both ends of a link get a peer; `none` is the logged error of `add_peer`.
unfoldable pub connect : Link → World → Option World
connect l w =
    add_peer (w.intf l.intf1).name (record { node = l.node2; interface = l.intf2 }) (w.node l.node1)
    >>= λ info1.
        let w1 = set_node l.node1 info1 w in
        add_peer (w.intf l.intf2).name (record { node = l.node1; interface = l.intf1 })
          (w1.node l.node2)
        >>= λ info2. some (set_node l.node2 info2 w1)

-- A duplicate link is ignored.
unfoldable pub add_link : Link → Net → Option Net
unfolding connect
add_link l net =
    let added = connect l net.world >>= λ w.
    some (record net { world = w; links = set_insert lt l net.links }) in
    if has_link l net.links then some net else added

abbrev same_endpoints : List Endpoint → List Endpoint → Bool
same_endpoints [] [] = true
same_endpoints (a ∷ xs) (b ∷ ys) = same_endpoint a b && same_endpoints xs ys
same_endpoints _ _ = false

-- LANs are equal by their tables.
abbrev pub same_tbl : List (Keyed (List Endpoint)) → List (Keyed (List Endpoint)) → Bool
same_tbl [] [] = true
same_tbl (a ∷ xs) (b ∷ ys) = a.key == b.key && same_endpoints a.value b.value && same_tbl xs ys
same_tbl _ _ = false

-- The LAN that the set has for an equal one.
abbrev pub known_lan : L2Lan → List L2Lan → Option L2Lan
known_lan lan [] = none
known_lan lan (l ∷ ls) =
    let rest = known_lan lan ls in if same_tbl lan.tbl l.tbl then some l else rest

unfoldable pub set_all : L2Lan → List Endpoint → World → World
set_all lan [] w = w
set_all lan (e ∷ es) w =
    set_all lan es (set_node e.node (set_l2lan e.interface lan (w.node e.node)) w)

abbrev l3_of : List (Keyed Endpoint) → List Endpoint
l3_of [] = []
l3_of (e ∷ es) = e.value ∷ l3_of es

abbrev pub set_lan : L2Lan → Net → Net
set_lan lan net = record net {
  world = set_all lan (l3_of lan.l3_endpoints) (set_all lan lan.l2_endpoints net.world);
}

abbrev pub set_known : L2Lan → Net → Option L2Lan → Net
set_known lan net none = set_lan lan (record net { lans = lan ∷ net.lans })
set_known lan net (some old) = set_lan old net

unfoldable pub grow_and_set_l2_lan : ℕ → Node → Net → Option Net
grow_and_set_l2_lan fuel n net =
    l2_lan net.world fuel n >>= λ lan. some (set_known lan net (known_lan lan net.lans))
