-- ===== src/Process/Tests.antt =====
-- Runs of the theorems on the processes at concrete states.
use neo.Base.{
  Option, ◌≢◌, suc, get_elem?, ◌↔◌, ℕ, List, ◌≤◌, length, ◌==◌, true, false, [], ◌∷◌, none, some,
  ◌≡◌, refl, ◌⊎◌, ◌<◌, arith,
}
use neo.Proto.{is_next}
use neo.Model.{
  FibIpnh, ConnState, State, FwdMode, accepted, forward_packet, first_collect, collect_nhops,
  choose_inj_res, dropped, InjectionResult, forwarding, current, set_executable,
}
use neo.Process.Interface.{Network}
use neo.Process.Forwarding.{chosen, accepted_step, forward_packet_step}
use neo.Process.Forwarding.Phases.{accepted_step-is_next}
use neo.Process.Forwarding.Edges.{Moves, forward_packet_step-Moves}
use neo.Ec.Class.{EqClass, representative_addr}
use neo.Ip.Network.{contains, broadcast_addr}
use neo.Routing.Table.{update, multiset_insert, lookup}
use neo.Topology.Nodes.{has_ip, get_peer}
use neo.Topology.Hops.{get_ipnh, node_hops}
use neo.Net.Identify.{identify_conn, packet_belongs_to_connection}
use neo.Net.Convert.{process_proto_state}
use neo.Net.Numbers.{check_seq_ack}
use neo.Packet.{Packet, no_packet, empty}
use neo.Topology.{World}
use neo.Process.Injection.{node_hist, packet_of, inject_packet, update_model_from_injection_result}
use neo.Process.Injection.Kept.{Waiting}
use neo.Process.Injection.Outcome.{update_model_from_injection_result-Settled}
use neo.Process.Injection.Cached.{Recorded, inject_packet-Recorded}
use neo.Payload.{Payload}
use neo.Process.Payloads.{Entry, key_of, make_payload, get_payload_from_model}
use neo.Process.Payloads.Cached.{Consistent, get_payload_from_model-Consistent}
use neo.Routing.Route.{Route}
use neo.Process.Openflow.{position, Updates, init, install_update}
use neo.Process.Openflow.Counts.{NextUpdate, install_update-NextUpdate}
use neo.Process.ChooseConn.{is_over, conn_map, update_choice_count, choose_from}
use neo.Process.ChooseConn.Progress.{choose_from-progress}

abbrev here : FibIpnh
here = record { l3_node = 2; l3_intf = 5; l2_node = 2; l2_intf = 5 }

-- A UDP connection from node 1, of the class 1.
abbrev pub some_conn : FwdMode → ConnState
some_conn mode = record {
  executable = 2;
  proto_state = 11;
  src_ip = 1;
  dst_ip_ec = 1;
  src_port = 49152;
  dst_port = 80;
  seq = 0;
  ack = 0;
  payload = none;
  src_node = 1;
  tx_node = 1;
  rx_node = 0;
  fwd_mode = mode;
  pkt_location = 1;
  ingress_intf = 0;
  candidates = some (here ∷ []);
  inj_results = none;
  fib = [];
  path_choices = [];
  visited_hops = none;
}

abbrev pub some_state : FwdMode → State
some_state mode = record {
  conn_state = λ i. some_conn mode;
  process_id = forwarding;
  choice = 0;
  choice_count = 1;
  conn = 0;
  num_conns = 1;
  violated = false;
  correlated_inv_idx = 0;
  reach_counts = [];
  pkt_hist = [];
  openflow_update_state = [];
  injection_cache = [];
}

-- No middlebox, and one class.
abbrev pub some_net : Network
some_net = record {
  is_emulated = λ n. false;
  egress_addr = λ h. 1;
  loopback_addr = λ n. some 1;
  find_ec = λ a. some 1;
  representative_addr = λ e. some 9;
  compute_fib = λ t. [];
  get_payload_from_model = λ s. none;
  get_ipnh = λ n i a. some (record { l3_node = 2; l3_intf = 5; l2_node = 2; l2_intf = 5 });
  in_class = λ e a. a == 9;
  same_payload = λ p q. true;
  send_pkt = λ n h p. [];
  max_conns = 4;
}

abbrev replied : State
replied = elim (accepted_step some_net (some_state accepted)) [
  | none ↦ some_state accepted
  | some t ↦ t
]

accepted_step-is_next_example :
    (replied ≡ set_executable 0 (some_state accepted))
    ⊎ ((is_next (current replied).proto_state (current (some_state accepted)).proto_state ≡ true)
        × ((current replied).fwd_mode ≡ first_collect))
unfolding accepted_step
accepted_step-is_next_example = accepted_step-is_next some_net (some_state accepted) replied refl

abbrev moved : State
moved = elim (forward_packet_step some_net (some_state forward_packet)) [
  | none ↦ some_state forward_packet
  | some t ↦ t
]

forward_packet_step-Moves_example :
    (h : FibIpnh) × (chosen some_net (some_state forward_packet) ≡ some h)
    × Moves h (some_state forward_packet) moved
unfolding forward_packet_step
forward_packet_step-Moves_example =
    forward_packet_step-Moves some_net (some_state forward_packet) moved refl

choose_from-progress_example :
    (t : State) × (choose_from
        (conn_map 2 (some_state forward_packet))
        (conn_map 1 (some_state forward_packet))
        (conn_map 0 (some_state forward_packet))
        (some_state forward_packet)
      ≡ some t)
    × (t.conn < 1)
    × (is_over ((some_state forward_packet).conn_state t.conn) ≡ false)
unfolding update_choice_count
choose_from-progress_example = choose_from-progress (some_state forward_packet) (omega arith)

-- The packet of the connection comes back from the middlebox 1.
abbrev same_again : InjectionResult
same_again = record {
  recv_pkts =
      record no_packet {
        interface = 5;
        src_ip = 1;
        dst_ip = 9;
        src_port = 49152;
        dst_port = 80;
        proto_state = 11;
      }
      ∷ [];
  explicit_drop = false;
}

abbrev forwarded : State
forwarded =
    elim (update_model_from_injection_result some_net 1 same_again (some_state choose_inj_res)) [
      | none ↦ some_state choose_inj_res
      | some t ↦ t
    ]

update_model_from_injection_result-Settled_example :
    (1 ≤ forwarded.num_conns)
    × (forwarded.num_conns ≤ 4)
    × (forwarded.conn ≡ 0)
    × (forwarded.correlated_inv_idx ≡ 0)
    × ((((current forwarded).fwd_mode ≡ dropped) × ((current forwarded).executable ≡ 0))
        ⊎ (Waiting (current forwarded)
            × (cs : List FibIpnh) × ((current forwarded).candidates ≡ some cs)
            × (forwarded.choice_count ≡ length cs)
            × (0 < length cs)))
unfolding update_model_from_injection_result empty identify_conn packet_belongs_to_connection
    process_proto_state check_seq_ack
update_model_from_injection_result-Settled_example =
    update_model_from_injection_result-Settled some_net 1 same_again (some_state choose_inj_res)
      forwarded (omega arith) refl

-- A state where node 1 is a middlebox without a packet yet.
abbrev fresh_state : State
fresh_state = record (some_state collect_nhops) {
  pkt_hist = record { node = 1; history = [] } ∷ [];
}

abbrev injected_state : State
injected_state = elim (inject_packet some_net 1 fresh_state) [ none ↦ fresh_state | some t ↦ t ]

inject_packet-Recorded_example :
    (hist : List Packet) × (pkt : Packet) × (node_hist 1 fresh_state.pkt_hist ≡ some hist)
    × (packet_of some_net fresh_state ≡ some pkt)
    × (node_hist 1 injected_state.pkt_hist ≡ some (pkt ∷ hist))
    × Recorded some_net (λ p. refl) 1 (pkt ∷ hist) injected_state
unfolding inject_packet
inject_packet-Recorded_example =
    inject_packet-Recorded some_net (λ p. refl) 1 fresh_state injected_state refl

-- Two updates of node 1.
abbrev two_updates : Updates
two_updates =
    record {
      key = 1;
      value =
          record {
            network = record { value = 0; prefix = 0 };
            next_hop = 7;
            egress_intf = "e";
            adm_dist = 1;
          }
          ∷ record {
            network = record { value = 0; prefix = 0 };
            next_hop = 8;
            egress_intf = "e";
            adm_dist = 1;
          }
          ∷ [];
    }
    ∷ []

abbrev pub bare_world : World
bare_world = record {
  node = λ n. record {
    name = "n";
    intfs = [];
    intfs_l3 = [];
    intfs_l2 = [];
    rib = [];
    l2_peers = [];
    l2_lans = [];
  };
  intf =
      λ i. record { name = "e"; is_switchport = false; ipv4 = record { value = 6; prefix = 24 } };
}

abbrev pub one_class : ℕ → EqClass
one_class e = record { lb = 9; ub = 9; ec = 1 } ∷ []

-- The choice 1 installs.
abbrev before_update : State
before_update = record (init two_updates (some_state collect_nhops)) { choice = 1 }

abbrev after_update : State
after_update = elim (install_update bare_world (λ n. false) one_class two_updates before_update) [
  | none ↦ before_update
  | some t ↦ t
]

install_update-NextUpdate_example :
    ((p : ℕ × List Route) × (k : ℕ) × (position 1 0 two_updates ≡ some p)
      × (get_elem? before_update.openflow_update_state p.0 ≡ some k)
      × (get_elem? after_update.openflow_update_state p.0 ≡ some (suc k)))
    × ((after_update.choice_count ≡ 2) ↔ NextUpdate two_updates 1 after_update)
unfolding install_update init position representative_addr node_hops update multiset_insert lookup
    contains broadcast_addr has_ip get_ipnh get_peer
install_update-NextUpdate_example =
    install_update-NextUpdate bare_world (λ n. false) one_class two_updates before_update
      after_update refl refl

-- The request of a TCP connection, with numbers printed as single bytes.
abbrev requesting : State
requesting = record (some_state first_collect) {
  conn_state = λ i. record (some_conn first_collect) { proto_state = 4 };
}

abbrev as_byte : ℕ → List ℕ
as_byte k = k ∷ []

abbrev lower_bound : ℕ → Option ℕ
lower_bound e = some 9

abbrev obtained : Payload × List Entry
obtained = elim (get_payload_from_model as_byte lower_bound requesting []) [
  | none ↦ (none, [])
  | some r ↦ r
]

get_payload_from_model-Consistent_example :
    ((((key_of requesting).proto_state ≡ 4) ⊎ ((key_of requesting).proto_state ≡ 6))
      × (make_payload as_byte lower_bound (key_of requesting) ≡ some obtained.0)
      × Consistent as_byte lower_bound obtained.1)
    ⊎ (((key_of requesting).proto_state ≢ 4)
        × ((key_of requesting).proto_state ≢ 6)
        × (obtained.0 ≡ none)
        × (obtained.1 ≡ []))
unfolding get_payload_from_model
get_payload_from_model-Consistent_example =
    get_payload_from_model-Consistent as_byte lower_bound requesting [] obtained.1 obtained.0 tt
      refl
