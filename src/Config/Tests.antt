-- ===== src/Config/Tests.antt =====
-- Runs of the theorems on the configuration at concrete tables.
use neo.Base.{true, false, List, [], ◌∷◌, none, some, Named, All, ◌<◌, ◌⊎◌, refl}
use neo.Base.Int.{pos}
use neo.Objects.{Node}
use neo.Proto.{tcp}
use neo.Topology.{World, NodeInfo}
use neo.Topology.Links.{Link}
use neo.Conn.Spec.{ConnSpec}
use neo.Config.Text.{Text}
use neo.Config.Nodes.{NodeConfig, RouteConfig, Heap, no_address, parse_node}
use neo.Config.Links.{LinkConfig, parse_link}
use neo.Config.Conns.{ConnConfig, parse_conn_spec}
use neo.Plankton.Checks.{loop_inv}
use neo.Config.Conns.{parse_connections}
use neo.Config.Invs.{InvConfig, Parsed, single, parse_invariants}
use neo.Config.Invs.Sizes.{Sized, parse_invariants-Sized}
use neo.Config.Accepted.{IsEnd, parse_link-IsEnd}

-- A reader of texts that finds one address and one network everywhere.
abbrev some_text : Text
some_text = record {
  address = λ t. some 9;
  interface = λ t. some (record { value = 9; prefix = 30 });
  network = λ t. some (record { value = 8; prefix = 30 });
  range = λ t. some (record { lb = 9; ub = 9; ec = 0 });
  has_slash = λ t. false;
  tolower = λ t. t;
  regex_match = λ t r. true;
}

abbrev route : RouteConfig
route = record {
  network = some "10.0.0.8/30";
  next_hop = some "10.0.0.9";
  interface = none;
  adm_dist = none;
}

abbrev node_config : NodeConfig
node_config = record {
  name = some "r";
  interfaces = [];
  static_routes = route ∷ [];
  installed_routes = route ∷ [];
}

abbrev empty_heap : Heap
empty_heap = record {
  info = λ p. record { name = ""; is_switchport = true; ipv4 = no_address };
  next = 1;
}

abbrev parsed : Heap × NodeInfo
parsed = elim (parse_node some_text node_config empty_heap) [
  | none ↦ (
    empty_heap,
    record {
      name = "";
      intfs = [];
      intfs_l3 = [];
      intfs_l2 = [];
      rib = [];
      l2_peers = [];
      l2_lans = [];
    },
  )
  | some r ↦ r
]

-- Two nodes with an interface each.
abbrev two_nodes : List (Named Node)
two_nodes = record { name = "a"; value = 2 } ∷ record { name = "b"; value = 1 } ∷ []

abbrev some_world : World
some_world = record {
  node = λ n. record {
    name = "n";
    intfs = record { name = "e"; value = n } ∷ [];
    intfs_l3 = [];
    intfs_l2 = [];
    rib = [];
    l2_peers = [];
    l2_lans = [];
  };
  intf = λ i. record { name = "e"; is_switchport = true; ipv4 = no_address };
}

abbrev link_config : LinkConfig
link_config = record { node1 = some "a"; intf1 = some "e"; node2 = some "b"; intf2 = some "e" }

abbrev one_link : Link
one_link = record { node1 = 1; node2 = 2; intf1 = 1; intf2 = 2 }

parse_link-IsEnd_example :
    (one_link.node1 < one_link.node2)
    × ((IsEnd some_world two_nodes (some "a") (some "e") one_link.node1 one_link.intf1
          × IsEnd some_world two_nodes (some "b") (some "e") one_link.node2 one_link.intf2)
        ⊎ (IsEnd some_world two_nodes (some "a") (some "e") one_link.node2 one_link.intf2
            × IsEnd some_world two_nodes (some "b") (some "e") one_link.node1 one_link.intf1))
unfolding parse_link
parse_link-IsEnd_example = parse_link-IsEnd some_world two_nodes link_config one_link refl

abbrev conn_config : ConnConfig
conn_config = record {
  protocol = some "tcp";
  src_node = some "a";
  dst_ip = some "10.0.0.9";
  src_port = none;
  dst_ports = none;
  dport_int = some (pos 65616);
  owned_dst_only = none;
}

abbrev spec : ConnSpec
spec = record {
  protocol = tcp;
  src_nodes = 1 ∷ 2 ∷ [];
  dst_ip = record { lb = 9; ub = 9; ec = 0 };
  src_port = 49152;
  dst_ports = 80 ∷ [];
  owned_dst_only = false;
}

abbrev loop_config : InvConfig
loop_config = record {
  keys = record {
    type_name = some "loop";
    target_node = none;
    reachable = none;
    pass_through = none;
    connections = some (conn_config ∷ []);
  };
  correlated_invariants = none;
}

abbrev loop_parsed : List Parsed
loop_parsed = single (record { kind = loop_inv; conn_specs = spec ∷ [] }) ∷ []

parse_invariants-Sized_example : All (Sized 2) loop_parsed
unfolding parse_invariants parse_conn_spec parse_connections
parse_invariants-Sized_example =
    parse_invariants-Sized some_text two_nodes 2 (λ c r. false) (loop_config ∷ []) loop_parsed refl
