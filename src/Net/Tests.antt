-- ===== src/Net/Tests.antt =====
-- Runs of the theorems on received packets at concrete packets and states.
use neo.Base.{
  ◌∷◌, ℕ, ◌&&◌, Bool, true, false, ◌==◌, [], none, some, ◌≡◌, ◌↔◌, refl, ◌⊎◌, ◌<◌, arith,
}
use neo.Payload.{Payload, concat}
use neo.Packet.{Packet, no_packet}
use neo.Model.{State, ConnState, first_collect, forwarding, current}
use neo.Process.Interface.{Network}
use neo.Process.Forwarding.{number}
use neo.Net.Flags.{ctrl_flags}
use neo.Net.Convert.{converted}
use neo.Net.Convert.RoundTrip.{Received, converted-next}
use neo.Net.Identify.{identify_conn, packet_belongs_to_connection, found_in}
use neo.Net.Identify.Owner.{identify_conn-Owned, Fresh}
use neo.Net.Segments.{follows, reassemble_segments}
use neo.Net.Flags.{is_tcp_ack_or_psh_ack}
use neo.Net.Segments.Bytes.{total, total-reassemble_segments}
use neo.Net.Numbers.{check_seq_ack}
use neo.Net.Numbers.Agree.{check_seq_ack-number}

-- A TCP connection from 7 to the class 1 after its SYN.
abbrev syn_conn : ConnState
syn_conn = record {
  executable = 2;
  proto_state = 1;
  src_ip = 7;
  dst_ip_ec = 1;
  src_port = 49152;
  dst_port = 80;
  seq = 0;
  ack = 0;
  payload = none;
  src_node = 1;
  tx_node = 1;
  rx_node = 0;
  fwd_mode = first_collect;
  pkt_location = 1;
  ingress_intf = 0;
  candidates = none;
  inj_results = none;
  fib = [];
  path_choices = [];
  visited_hops = none;
}

abbrev syn_state : State
syn_state = record {
  conn_state = λ i. syn_conn;
  process_id = forwarding;
  choice = 0;
  choice_count = 1;
  conn = 0;
  num_conns = 1;
  violated = false;
  correlated_inv_idx = 0;
  reach_counts = [];
  pkt_hist = [];
  openflow_update_state = [];
  injection_cache = [];
}

abbrev some_net : Network
some_net = record {
  is_emulated = λ n. false;
  egress_addr = λ h. 1;
  loopback_addr = λ n. some 1;
  find_ec = λ a. some 1;
  representative_addr = λ e. some 9;
  compute_fib = λ t. [];
  get_payload_from_model = λ s. none;
  get_ipnh = λ n i a. some (record { l3_node = 2; l3_intf = 5; l2_node = 2; l2_intf = 5 });
  in_class = λ e a. a == 9;
  same_payload = λ p q. true;
  send_pkt = λ n h p. [];
  max_conns = 4;
}

-- The reply of 9, with SYN and ACK, as it is received.
abbrev syn_ack : Packet
syn_ack = record no_packet {
  interface = 3;
  src_ip = 9;
  dst_ip = 7;
  src_port = 80;
  dst_port = 49152;
  ack = 1;
  proto_state = 2066;
}

abbrev syn_ack_known : Packet
syn_ack_known = record syn_ack { conn = some 0; opposite_dir = true }

abbrev syn_ack_next : Packet
syn_ack_next = record syn_ack_known { proto_state = 2; next_phase = true }

syn_ack-Received : Received 2 syn_ack_known
unfolding ctrl_flags
syn_ack-Received = record { flags = refl; known = refl; carries = refl }

-- The SYN once more.
abbrev syn_again : Packet
syn_again = record no_packet {
  interface = 3;
  src_ip = 7;
  dst_ip = 9;
  proto_state = 2050;
  conn = some 0;
}

abbrev in_class : ℕ → ℕ → Bool
in_class c a = c == 1 && a == 9

abbrev same_payload : Payload → Payload → Bool
same_payload p q = true

converted-next_example : converted syn_ack_known 1 ≡ some 2
converted-next_example =
    converted-next 1 syn_ack_known (omega arith) (omega arith) syn_ack-Received refl

identify_conn-Owned_example :
    ((i : ℕ) × (b : Bool) × (packet_belongs_to_connection in_class syn_ack (syn_state.conn_state i)
        ≡ some b)
      × (syn_ack_known ≡ found_in in_class syn_ack i b)
      × ((i ≡ syn_state.conn) ⊎ (i < syn_state.num_conns)))
    ⊎ Fresh in_class 4 syn_ack syn_state syn_ack_known
unfolding identify_conn packet_belongs_to_connection
identify_conn-Owned_example = identify_conn-Owned in_class 4 syn_ack syn_ack_known syn_state refl

check_seq_ack-number_example : (check_seq_ack same_payload syn_ack_next syn_state ≡ some tt) ↔ (
    (syn_ack_next.seq ≡ (current (number some_net true syn_state)).seq)
    × (syn_ack_next.ack ≡ (current (number some_net true syn_state)).ack))
check_seq_ack-number_example =
    check_seq_ack-number some_net same_payload syn_ack_next syn_state refl refl (omega arith) refl
      refl refl

-- Two segments of one flow, with an ACK, and the packet that they become.
abbrev first_segment : Packet
first_segment = record no_packet {
  interface = 3;
  seq = 5;
  proto_state = 2064;
  payload = some (1 ∷ 2 ∷ []);
}

abbrev second_segment : Packet
second_segment = record first_segment { seq = 7; payload = some (3 ∷ []) }

abbrev whole : Packet
whole = record first_segment { payload = some (1 ∷ 2 ∷ 3 ∷ []) }

total-reassemble_segments_example : total (whole ∷ []) ≡ total (first_segment ∷ second_segment ∷ [])
unfolding reassemble_segments is_tcp_ack_or_psh_ack follows concat
total-reassemble_segments_example =
    total-reassemble_segments (first_segment ∷ second_segment ∷ []) (whole ∷ []) refl
