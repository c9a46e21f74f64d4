-- ===== src/Topology/Fib.antt =====
-- src/fib.cpp: the next hops of each node.
use neo.Base.{Bool, true, false, ◌==◌, ltb, List, [], ◌∷◌, if◌then◌else◌, set_insert}
use neo.Objects.{Node}
use neo.Model.{FibIpnh, FibEntry}

-- `operator<` on next hops, by their pointers.
unfoldable pub precedes : FibIpnh → FibIpnh → Bool
precedes a b =
    if ltb a.l3_node b.l3_node
    then true
    else if ltb b.l3_node a.l3_node
    then false
    else if ltb a.l3_intf b.l3_intf
    then true
    else if ltb b.l3_intf a.l3_intf
    then false
    else if ltb a.l2_node b.l2_node
    then true
    else if ltb b.l2_node a.l2_node
    then false
    else ltb a.l2_intf b.l2_intf

-- `FIB::set_ipnhs`, where a FIB has the order of the nodes.
unfoldable pub set_ipnhs : Node → List FibIpnh → List FibEntry → List FibEntry
set_ipnhs n hops [] = record { node = n; next_hops = hops } ∷ []
set_ipnhs n hops (e ∷ es) =
    let rest = set_ipnhs n hops es in
    if n == e.node
    then record { node = n; next_hops = hops } ∷ es
    else if ltb n e.node
    then record { node = n; next_hops = hops } ∷ e ∷ es
    else e ∷ rest

-- The next hops at a node, none for `operator[]` on a node without an entry.
abbrev hops_at : Node → List FibEntry → List FibIpnh
hops_at n [] = []
hops_at n (e ∷ es) = let rest = hops_at n es in if n == e.node then e.next_hops else rest

unfoldable pub add_ipnh : Node → FibIpnh → List FibEntry → List FibEntry
unfolding set_ipnhs precedes
add_ipnh n hop fib = set_ipnhs n (set_insert precedes hop (hops_at n fib)) fib
