-- ===== src/Packet.antt =====
-- src/packet.cpp: a received or injected packet.
pub mod Order
use neo.Base.{ℕ, Bool, true, false, not, ◌&&◌, ltb, ◌==◌, Option, none, some, if◌then◌else◌, List}
use neo.Proto.{ProtoState, Proto, tcp, udp, icmp_echo, to_proto}
use neo.Ip.Address.{IPv4Address}
use neo.Objects.{Interface}
use neo.Payload.{Payload}

-- `conn` is `none` for the initial -1.
pub record Packet : Type 0 where
  pub interface : Interface
  pub src_ip : IPv4Address
  pub dst_ip : IPv4Address
  pub src_port : ℕ
  pub dst_port : ℕ
  pub seq : ℕ
  pub ack : ℕ
  pub proto_state : ProtoState
  pub payload : Payload
  pub conn : Option ℕ
  pub is_new : Bool
  pub opposite_dir : Bool
  pub next_phase : Bool

-- The constructor without arguments.
abbrev pub no_packet : Packet
no_packet = record {
  interface = 0;
  src_ip = 0;
  dst_ip = 0;
  src_port = 0;
  dst_port = 0;
  seq = 0;
  ack = 0;
  proto_state = 0;
  payload = none;
  conn = none;
  is_new = false;
  opposite_dir = false;
  next_phase = false;
}

-- The connection information stays.
unfoldable pub clear : Packet → Packet
clear p = record p {
  interface = 0;
  src_ip = 0;
  dst_ip = 0;
  src_port = 0;
  dst_port = 0;
  seq = 0;
  ack = 0;
  proto_state = 0;
  payload = none;
}

unfoldable pub empty : Packet → Bool
empty p =
    p.interface == 0
    && p.src_ip == 0
    && p.dst_ip == 0
    && p.src_port == 0
    && p.dst_port == 0
    && p.seq == 0
    && p.ack == 0

abbrev pub same_protocol : Proto → Proto → Bool
same_protocol tcp tcp = true
same_protocol udp udp = true
same_protocol icmp_echo icmp_echo = true
same_protocol _ _ = false

unfoldable pub same_flow_as : Packet → Packet → Bool
same_flow_as p q =
    p.src_ip == q.src_ip
    && p.dst_ip == q.dst_ip
    && p.src_port == q.src_port
    && p.dst_port == q.dst_port
    && same_protocol (to_proto p.proto_state) (to_proto q.proto_state)

unfoldable pub same_header : Packet → Packet → Bool
unfolding same_flow_as
same_header p q = same_flow_as p q && p.seq == q.seq && p.ack == q.ack

-- `operator==`, where the test of the payload pointers is given; the connection information does
-- not count.
unfoldable pub same_packet : (Payload → Payload → Bool) → Packet → Packet → Bool
same_packet same_payload p q =
    p.interface == q.interface
    && p.src_ip == q.src_ip
    && p.dst_ip == q.dst_ip
    && p.src_port == q.src_port
    && p.dst_port == q.dst_port
    && p.seq == q.seq
    && p.ack == q.ack
    && p.proto_state == q.proto_state
    && same_payload p.payload q.payload

-- `operator<`, where the address of a payload is given.
unfoldable pub precedes : (Payload → ℕ) → Packet → Packet → Bool
precedes address p q =
    if ltb p.interface q.interface
    then true
    else if ltb p.src_ip q.src_ip
    then true
    else if ltb p.dst_ip q.dst_ip
    then true
    else if ltb p.src_port q.src_port
    then true
    else if ltb p.dst_port q.dst_port
    then true
    else if ltb p.seq q.seq
    then true
    else if ltb p.ack q.ack
    then true
    else if ltb p.proto_state q.proto_state
    then true
    else if ltb (address p.payload) (address q.payload)
    then true
    else false
