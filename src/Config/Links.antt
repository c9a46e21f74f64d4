-- ===== src/Config/Links.antt =====
-- src/configparser.cpp: `parse_link`, `parse_openflow` and `parse_openflow_update`.
use Prim.Native.String.{String}
use neo.Base.{
  Bool, true, false, List, [], ◌∷◌, Option, none, some, ltb, ◌==◌, if◌then◌else◌, Named, find_name,
}
use neo.Base.Partial.{◌>>=◌, guard}
use neo.Objects.{Node, Interface}
use neo.Routing.Route.{Route}
use neo.Topology.{World, NodeInfo}
use neo.Topology.Links.{Link}
use neo.Process.Openflow.{Updates, add_update}
use neo.Config.Text.{Text}

pub record LinkConfig : Type 0 where
  pub node1 : Option String
  pub intf1 : Option String
  pub node2 : Option String
  pub intf2 : Option String

pub record UpdateConfig : Type 0 where
  pub node : Option String
  pub network : Option String
  pub outport : Option String

-- `Node::get_interface`; `none` is the logged error on an unknown name.
abbrev pub get_interface : String → NodeInfo → Option Interface
get_interface name n = find_name name n.intfs

-- The nodes of a link are put in the order of their pointers.
unfoldable pub normalize : Link → Option Link
normalize l =
    if ltb l.node2 l.node1
    then some (record { node1 = l.node2; node2 = l.node1; intf1 = l.intf2; intf2 = l.intf1 })
    else if l.node1 == l.node2
    then none
    else some l

module _ (world : World) (nodes : List (Named Node)) where
  unfoldable pub parse_link : LinkConfig → Option Link
  unfolding normalize
  parse_link c = c.node1 >>= λ name1. c.intf1 >>= λ port1. c.node2 >>= λ name2. c.intf2 >>= λ port2.
      find_name name1 nodes >>= λ n1. find_name name2 nodes >>= λ n2.
      get_interface port1 (world.node n1) >>= λ i1. get_interface port2 (world.node n2) >>= λ i2.
      normalize (record { node1 = n1; node2 = n2; intf1 = i1; intf2 = i2 })

  module _ (text : Text) (is_emulated : Node → Bool) where
    -- The distance is that of a new route.
    unfoldable pub parse_openflow_update : UpdateConfig → Option (Node × Route)
    parse_openflow_update c = c.node >>= λ name. c.network >>= λ cidr. c.outport >>= λ port.
        find_name name nodes >>= λ n. guard (if is_emulated n then false else true) >>= λ _.
        text.network cidr >>= λ net.
        some (n, record { network = net; next_hop = 0; egress_intf = port; adm_dist = 255 })

    unfoldable pub parse_openflow : List UpdateConfig → Updates → Option Updates
    unfolding parse_openflow_update
    parse_openflow [] us = some us
    parse_openflow (c ∷ cs) us =
        parse_openflow_update c >>= λ r. parse_openflow cs (add_update r.0 r.1 us)
