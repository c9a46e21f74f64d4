-- ===== src/Invariant/Tests.antt =====
-- Runs of the theorems on the invariants at concrete states.
use neo.Base.{ℕ, Bool, true, false, not, List, [], ◌∷◌, Option, none, ◌≡◌, refl, ◌⊎◌, arith}
use neo.Model.{ConnState, State, VisitedHops, FwdMode, accepted, forwarding, current}
use neo.Invariant.Reach.{request_is_accepted, reachability}
use neo.Invariant.Reach.Verdicts.{Missed, reachability-verdict}
use neo.Proto.{udp}
use neo.Conn.Connection.{Connection}
use neo.Invariant.Combos.{Simple, correlated, set_conns}
use neo.Invariant.Combos.Ticks.{Ticked, set_conns-Ticked}

-- A UDP request at node 1, which node 3 accepts.
abbrev some_conn : FwdMode → Option VisitedHops → ConnState
some_conn mode hops = record {
  executable = 2;
  proto_state = 11;
  src_ip = 1;
  dst_ip_ec = 1;
  src_port = 49152;
  dst_port = 80;
  seq = 0;
  ack = 0;
  payload = none;
  src_node = 1;
  tx_node = 1;
  rx_node = 3;
  fwd_mode = mode;
  pkt_location = 1;
  ingress_intf = 0;
  candidates = none;
  inj_results = none;
  fib = [];
  path_choices = [];
  visited_hops = hops;
}

abbrev some_state : FwdMode → Option VisitedHops → Bool → State
some_state mode hops violated = record {
  conn_state = λ i. some_conn mode hops;
  process_id = forwarding;
  choice = 0;
  choice_count = 1;
  conn = 0;
  num_conns = 1;
  violated = violated;
  correlated_inv_idx = 0;
  reach_counts = [];
  pkt_hist = [];
  openflow_update_state = [];
  injection_cache = [];
}

abbrev delivered : State
delivered = some_state accepted none true

reachability-verdict_example :
    ((request_is_accepted (current delivered) ≡ true)
      × (true ≡ true)
      × ((reachability true (λ n. true) delivered).violated ≡ not true))
    ⊎ (Missed (λ n. true) delivered × ((reachability true (λ n. true) delivered).violated ≡ true))
unfolding reachability
reachability-verdict_example = reachability-verdict true (λ n. true) delivered (ground arith) refl

-- Two sub-invariants of one connection each, before the first combination.
abbrev from_port : ℕ → Connection
from_port port = record {
  protocol = udp;
  src_node = 1;
  dst_ip_ec = 1;
  src_port = port;
  dst_port = 80;
  src_ip = 0;
  seq = 0;
  ack = 0;
}

abbrev of_port : ℕ → Simple
of_port port = record {
  conn_specs = [];
  conn_matrix = record {
    product = (from_port port ∷ []) ∷ [];
    itrs = 0 ∷ [];
    traversed_all = false;
  };
  conns = [];
}

-- The first combination, where the second sub-invariant has no connection.
abbrev first_combo : List Simple
first_combo =
    record (of_port 1) {
      conn_matrix = record {
        product = (from_port 1 ∷ []) ∷ [];
        itrs = 0 ∷ [];
        traversed_all = true;
      };
      conns = from_port 1 ∷ [];
    }
    ∷ of_port 2
    ∷ []

set_conns-Ticked_example :
    (qs : List Simple) × (correlated first_combo ≡ correlated qs)
    × Ticked (of_port 1 ∷ of_port 2 ∷ []) true qs
unfolding set_conns
set_conns-Ticked_example =
    set_conns-Ticked (of_port 1 ∷ of_port 2 ∷ []) true (correlated first_combo) refl
