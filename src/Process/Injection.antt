-- ===== src/Process/Injection.antt =====
-- src/process/forwarding.cpp: `inject_packet` and `update_model_from_injection_result`.
pub mod Kept
pub mod Outcome
pub mod Cached
use neo.Base.{
  ℕ, suc, Bool, true, false, not, ◌&&◌, ◌||◌, ltb, ◌==◌, List, [], ◌∷◌, Option, none, some, length,
  if◌then◌else◌, ◌+◌,
}
use neo.Base.Partial.{◌>>=◌, guard}
use neo.Proto.{is_first}
use neo.Ec.Range.{EcPtr}
use neo.Payload.{Payload}
use neo.Packet.{Packet, empty, same_packet}
use neo.Model.{
  Node, FibIpnh, InjectionResult, HistEntry, CacheEntry, first_forward, choose_inj_res,
  forward_packet, State, ConnState, current, set_current, set_executable, set_fwd_mode,
  set_candidates, set_choice_count, set_conn,
}
use neo.Net.Identify.{identify_conn}
use neo.Net.Convert.{process_proto_state}
use neo.Net.Numbers.{check_seq_ack}
use neo.Process.Interface.{Network, drop_conn, update_fib}

-- `get_node_pkt_hist`; `none` is the exception of `at`.
unfoldable pub node_hist : Node → List HistEntry → Option (List Packet)
node_hist n [] = none
node_hist n (e ∷ es) = let rest = node_hist n es in if n == e.node then some e.history else rest

unfoldable pub set_node_hist : Node → List Packet → List HistEntry → List HistEntry
set_node_hist n h [] = record { node = n; history = h } ∷ []
set_node_hist n h (e ∷ es) =
    let rest = set_node_hist n h es in
    if n == e.node then record { node = n; history = h } ∷ es else e ∷ rest

-- `ForwardingProcess::init`: an empty history for each node that is emulated, in the order of the
-- nodes.
abbrev empty_hists : (Node → Bool) → List Node → List HistEntry
empty_hists is_emulated [] = []
empty_hists is_emulated (n ∷ ns) =
    let rest = empty_hists is_emulated ns in
    if is_emulated n then record { node = n; history = [] } ∷ rest else rest

unfoldable pub init_hists : (Node → Bool) → List Node → State → State
init_hists is_emulated nodes s = record s { pkt_hist = empty_hists is_emulated nodes }

-- Histories with equal packets are one object.
unfoldable pub same_hist : (Payload → Payload → Bool) → List Packet → List Packet → Bool
same_hist same [] [] = true
same_hist same (p ∷ ps) (q ∷ qs) = same_packet same p q && same_hist same ps qs
same_hist same _ _ = false

-- `InjectionCache::get`, where `none` is the null pointer, and `insert`.
unfoldable pub cached :
    (Payload → Payload → Bool)
    → Node
    → List Packet
    → List CacheEntry
    → Option (List InjectionResult)
unfolding same_hist
cached same n h [] = none
cached same n h (e ∷ es) =
    let rest = cached same n h es in
    if n == e.node && same_hist same h e.history then some e.results else rest

abbrev pub cache : Node → List Packet → List InjectionResult → List CacheEntry → List CacheEntry
cache n h rs es = record { node = n; history = h; results = rs } ∷ es

-- What the loop carries: the state, and whether the current connection and others are updated.
pub record Progress : Type 0 where
  pub state : State
  pub current_conn_updated : Bool
  pub other_conns_updated : Bool

abbrev pub with_results : List InjectionResult → State → State
with_results rs s =
    set_fwd_mode choose_inj_res
      (set_current (record (current s) { inj_results = some rs }) (set_choice_count (length rs) s))

abbrev pub itself : Node → FibIpnh
itself mb = record { l3_node = mb; l3_intf = 0; l2_node = mb; l2_intf = 0 }

abbrev pub with_candidates : State → List FibIpnh → State
with_candidates s [] = drop_conn s
with_candidates s (h ∷ hs) = set_choice_count (length (h ∷ hs)) s

abbrev pub has_packets : List Packet → Bool
has_packets [] = false
has_packets (p ∷ ps) = true

abbrev pub start : State → Progress
start s = record { state = s; current_conn_updated = false; other_conns_updated = false }

-- The rest of the connection, by what the packet was found to be.
unfoldable pub place : Node → Packet → State → State
place mb p s =
    let c = current s in
    if p.is_new
    then set_current
        (record c {
          src_node = mb;
          tx_node = mb;
          rx_node = 0;
          pkt_location = mb;
          fwd_mode = first_forward;
          ingress_intf = 0;
          path_choices = [];
        })
        (record s { num_conns = s.num_conns + 1 })
    else if p.next_phase
    then (if p.opposite_dir
        then set_current (record c { src_node = mb; fwd_mode = first_forward; ingress_intf = 0 }) s
        else set_current
            (record c { pkt_location = c.src_node; fwd_mode = first_forward; ingress_intf = 0 }) s)
    else set_fwd_mode forward_packet s

abbrev pub mapped : Packet → EcPtr → State → State
mapped p ec s =
    set_current
      (record (current s) {
        executable = 2;
        proto_state = p.proto_state;
        src_ip = p.src_ip;
        dst_ip_ec = ec;
        src_port = p.src_port;
        dst_port = p.dst_port;
        seq = p.seq;
        ack = p.ack;
        payload = p.payload;
      })
      s

-- The packet is assumed to be delivered at the middlebox.
abbrev pub delivered : Node → State → State
delivered mb s =
    set_choice_count 1
      (set_candidates (itself mb ∷ []) (set_fwd_mode forward_packet (set_executable 2 s)))

-- The end of the function; no candidates there are a null pointer.
unfoldable pub conclude : Node → Bool → Progress → Option State
conclude mb explicit_drop g =
    let s = g.state in
    let updated = (current s).candidates >>= λ cs. some (with_candidates s cs) in
    if g.current_conn_updated
    then updated
    else if explicit_drop
    then some (drop_conn s)
    else if g.other_conns_updated
    then some (delivered mb s)
    else some (drop_conn s)

module _ (net : Network) where
  -- The constructor of a packet from the model; a class without a range is an error.
  unfoldable pub packet_of : State → Option Packet
  packet_of s =
      let c = current s in
      net.representative_addr c.dst_ip_ec >>= λ dst. some (record {
        interface = c.ingress_intf;
        src_ip = c.src_ip;
        dst_ip = dst;
        src_port = c.src_port;
        dst_port = c.dst_port;
        seq = c.seq;
        ack = c.ack;
        proto_state = c.proto_state;
        payload = c.payload;
        conn = some s.conn;
        is_new = is_first c.proto_state;
        opposite_dir = false;
        next_phase = false;
      })

  -- The results that are cached, or those of the middlebox, which are cached then.
  abbrev pub injected : Node → List Packet → Packet → State → Option (List InjectionResult) → State
  injected mb hist pkt s (some rs) = with_results rs s
  injected mb hist pkt s none =
      let rs = net.send_pkt mb hist pkt in
      let t = with_results rs s in
      record t { injection_cache = cache mb (pkt ∷ hist) rs t.injection_cache }

  unfoldable pub inject_packet : Node → State → Option State
  unfolding packet_of node_hist set_node_hist cached
  inject_packet mb s = node_hist mb s.pkt_hist >>= λ hist. packet_of s >>= λ pkt.
      let t = record s { pkt_hist = set_node_hist mb (pkt ∷ hist) s.pkt_hist } in
      some (injected mb hist pkt t (cached net.same_payload mb (pkt ∷ hist) s.injection_cache))

  -- The packet is mapped back to the state of its connection, the current one.
  unfoldable pub map_packet : Packet → State → Option State
  map_packet p s = net.find_ec p.dst_ip >>= λ ec.
      some (if (current s).dst_ip_ec == ec then mapped p ec s else update_fib net (mapped p ec s))

  unfoldable pub find_hop : Node → Packet → State → Option State
  find_hop mb p s = net.get_ipnh mb p.interface p.dst_ip >>= λ h.
      let cs = if h.l3_node == 0 then [] else h ∷ [] in
      some (set_candidates cs (set_choice_count (length cs) s))

  -- The packet updates its connection; the original one is current again then.
  unfoldable pub apply_packet : Node → Packet → ℕ → Progress → Option Progress
  unfolding map_packet place find_hop
  apply_packet mb p conn g =
      let orig = g.state.conn in
      map_packet p (set_conn conn g.state) >>= λ t. find_hop mb p (place mb p t) >>= λ u.
      some (record {
        state = set_conn orig u;
        current_conn_updated = g.current_conn_updated || conn == orig;
        other_conns_updated = g.other_conns_updated || not (conn == orig);
      })

  -- A packet that is identified; an invalid one is skipped.
  unfoldable pub accept_packet : Node → Packet → Progress → Option Progress
  unfolding apply_packet
  accept_packet mb q g = q.conn >>= λ conn.
      process_proto_state q (g.state.conn_state conn).proto_state >>= λ p.
      let applied = check_seq_ack net.same_payload p g.state >>= λ _. apply_packet mb p conn g in
      if p.proto_state == 0 then some g else applied

  unfoldable pub receive : Node → Packet → Progress → Option Progress
  unfolding accept_packet
  receive mb pkt g =
      let found =
        identify_conn net.in_class net.max_conns pkt g.state >>= λ q. accept_packet mb q g in
      if empty pkt then some g else found

  unfoldable pub receive_all : Node → List Packet → Progress → Option Progress
  unfolding receive
  receive_all mb [] g = some g
  receive_all mb (pkt ∷ pkts) g = receive mb pkt g >>= λ h. receive_all mb pkts h

  -- A drop that was seen with packets that came back is a logged error.
  unfoldable pub update_model_from_injection_result : Node → InjectionResult → State → Option State
  unfolding receive_all conclude
  update_model_from_injection_result mb r s =
      guard (not (r.explicit_drop && has_packets r.recv_pkts)) >>= λ _.
      receive_all mb r.recv_pkts (start s) >>= λ g. conclude mb r.explicit_drop g
