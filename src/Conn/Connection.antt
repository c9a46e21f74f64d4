-- ===== src/Conn/Connection.antt =====
-- src/conn.cpp: a connection, its order, and the state that it starts in.
pub mod Order
pub mod Init
use neo.Base.{
  ℕ, zero, suc, Bool, true, false, ltb, ◌==◌, List, [], ◌∷◌, none, some, if◌then◌else◌, ◌+◌, length,
}
use neo.Proto.{Proto, tcp, udp, icmp_echo, first_proto_state}
use neo.Ip.Address.{IPv4Address}
use neo.Ec.Range.{EcPtr}
use neo.Payload.{Payload}
use neo.Model.{Node, FibEntry, first_collect, State, current, set_current, set_conn}

pub record Connection : Type 0 where
  pub protocol : Proto
  pub src_node : Node
  pub dst_ip_ec : EcPtr
  pub src_port : ℕ
  pub dst_port : ℕ
  pub src_ip : IPv4Address
  pub seq : ℕ
  pub ack : ℕ

-- The number of the enumerator.
abbrev pub proto_number : Proto → ℕ
proto_number tcp = 0
proto_number udp = 1
proto_number icmp_echo = 2

-- `operator<`: the source address and the sequence numbers do not count.
unfoldable pub precedes : Connection → Connection → Bool
precedes a b =
    if ltb (proto_number a.protocol) (proto_number b.protocol)
    then true
    else if ltb (proto_number b.protocol) (proto_number a.protocol)
    then false
    else if ltb a.src_node b.src_node
    then true
    else if ltb b.src_node a.src_node
    then false
    else if ltb a.dst_ip_ec b.dst_ip_ec
    then true
    else if ltb b.dst_ip_ec a.dst_ip_ec
    then false
    else if ltb a.src_port b.src_port
    then true
    else if ltb b.src_port a.src_port
    then false
    else if ltb a.dst_port b.dst_port
    then true
    else false

-- What the payloads and the routing tables give for a state.
module _ (get_payload_from_model : State → Payload) (compute_fib : State → List FibEntry) where
  -- The setters of `init` up to the payload, on the current connection.
  abbrev pub start_packet : Connection → State → State
  start_packet c s =
      set_current
        (record (current s) {
          executable = 2;
          proto_state = first_proto_state c.protocol;
          src_ip = c.src_ip;
          dst_ip_ec = c.dst_ip_ec;
          src_port = c.src_port;
          dst_port = c.dst_port;
          seq = c.seq;
          ack = c.ack;
        })
        s

  -- The setters of `init` from the payload on.
  abbrev pub start_state : Connection → State → State
  start_state c s =
      set_current
        (record (current s) {
          payload = get_payload_from_model s;
          src_node = c.src_node;
          tx_node = c.src_node;
          rx_node = 0;
          fwd_mode = first_collect;
          pkt_location = c.src_node;
          ingress_intf = 0;
          candidates = none;
          inj_results = none;
          fib = compute_fib s;
          path_choices = [];
        })
        s

  unfoldable pub init : ℕ → Connection → State → State
  init conn_idx c s = set_conn s.conn (start_state c (start_packet c (set_conn conn_idx s)))

  -- The loop of `Invariant::init`, from the index `i` on.
  unfoldable pub init_all : ℕ → List Connection → State → State
  unfolding init
  init_all i [] s = s
  init_all i (c ∷ cs) s = init_all (suc i) cs (init i c s)

  -- `Invariant::init` without sub-invariants.
  unfoldable pub init_conns : List Connection → State → State
  unfolding init_all
  init_conns conns s = record (init_all 0 conns s) { conn = 0; num_conns = length conns }
