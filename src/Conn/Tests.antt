-- ===== src/Conn/Tests.antt =====
-- Runs of the theorems on the connections at concrete values.
use neo.Base.{
  any, elem, ◌&&◌, ◌||◌, not, ◌==◌, ℕ, false, List, [], ◌∷◌, none, some, ◌≡◌, refl, arith,
}
use neo.Proto.{udp}
use neo.Model.{ConnState, State, dropped, forwarding}
use neo.Conn.Connection.{Connection}
use neo.Ec.Range.{EcPtr, overlaps}
use neo.Ec.RangeSet.Parts.{of_class}
use neo.Ec.Mgr.{EqClassMgr, has, deref as class_of}
use neo.Ec.Mgr.Inv.{IsValid}
use neo.Conn.Spec.{ConnSpec, ports_of, compute_connections}
use neo.Conn.Spec.Members.{is_of, compute_connections-elem}
use neo.Conn.Matrix.{ConnectionMatrix, deref, get_next_conns}
use neo.Conn.Matrix.Odometer.{Ticks, get_next_conns-Ticks}

-- Two sets of connections, named by numbers; the first is at its last element.
abbrev some_matrix : ConnectionMatrix ℕ
some_matrix = record {
  product = (1 ∷ 2 ∷ []) ∷ (3 ∷ 4 ∷ []) ∷ [];
  itrs = 1 ∷ 0 ∷ [];
  traversed_all = false;
}

get_next_conns-Ticks_example :
    (conns : List ℕ) × (m' : ConnectionMatrix ℕ) × (get_next_conns some_matrix ≡ some (conns, m'))
    × (deref some_matrix.product some_matrix.itrs ≡ some conns)
    × (m'.product ≡ some_matrix.product)
    × Ticks some_matrix.product some_matrix.itrs (m'.itrs, m'.traversed_all)
get_next_conns-Ticks_example =
    get_next_conns-Ticks some_matrix (omega arith, (omega arith, tt)) refl

-- Connections from node 1 to the class 1, told apart by their source ports.
abbrev from_port : ℕ → Connection
from_port port = record {
  protocol = udp;
  src_node = 1;
  dst_ip_ec = 1;
  src_port = port;
  dst_port = 80;
  src_ip = 0;
  seq = 0;
  ack = 0;
}

abbrev nowhere : ConnState
nowhere = record {
  executable = 0;
  proto_state = 0;
  src_ip = 0;
  dst_ip_ec = 0;
  src_port = 0;
  dst_port = 0;
  seq = 0;
  ack = 0;
  payload = none;
  src_node = 0;
  tx_node = 0;
  rx_node = 0;
  fwd_mode = dropped;
  pkt_location = 0;
  ingress_intf = 0;
  candidates = none;
  inj_results = none;
  fib = [];
  path_choices = [];
  visited_hops = none;
}

abbrev blank : State
blank = record {
  conn_state = λ i. nowhere;
  process_id = forwarding;
  choice = 0;
  choice_count = 0;
  conn = 0;
  num_conns = 0;
  violated = false;
  correlated_inv_idx = 0;
  reach_counts = [];
  pkt_hist = [];
  openflow_update_state = [];
  injection_cache = [];
}

abbrev two_conns : List Connection
two_conns = from_port 1 ∷ from_port 2 ∷ []

-- The connections from node 1 to port 80 of the classes that overlap the address 9.
abbrev one_spec : ConnSpec
one_spec = record {
  protocol = udp;
  src_nodes = 1 ∷ [];
  dst_ip = record { lb = 9; ub = 9; ec = 0 };
  src_port = 49152;
  dst_ports = 80 ∷ [];
  owned_dst_only = false;
}

-- A manager with the class 1 of the address 9.
abbrev one_class : EqClassMgr
one_class = record {
  allranges = record { lb = 9; ub = 9; ec = 1 } ∷ [];
  all_ecs = (1, record { lb = 9; ub = 9; ec = 1 } ∷ []) ∷ [];
  owned_ecs = [];
  ports = [];
  next = 2;
}

one_class-classes : (e : EcPtr) → class_of e one_class.all_ecs ≡ of_class e one_class.allranges
unfolding class_of
one_class-classes e = ground arith

abbrev one_class_valid : IsValid one_class
one_class_valid = record {
  ascends = (omega arith, omega arith, tt);
  bounded = (omega arith, omega arith, tt);
  keys = (omega arith, tt);
  classes = one_class-classes;
}

compute_connections-elem_example : any (is_of 1 1 80) (compute_connections one_spec one_class) ≡ (
    (elem 1 one_spec.src_nodes
      && (any (λ r. overlaps r one_spec.dst_ip && r.ec == 1) one_class.allranges
          && (not false || has 1 one_class.owned_ecs)))
    && elem 80 (ports_of one_spec one_class.ports))
compute_connections-elem_example =
    compute_connections-elem one_spec one_class 1 1 80 one_class_valid
      (record { ordered = omega arith; bound = omega arith })
