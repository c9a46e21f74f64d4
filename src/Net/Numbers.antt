-- ===== src/Net/Numbers.antt =====
-- src/lib/net.cpp: `check_seq_ack`, the assertions on the numbers of a received TCP packet.
pub mod Agree
use neo.Base.{
  ℕ, Bool, true, false, not, ◌&&◌, ◌||◌, ◌==◌, ltb, Option, none, some, if◌then◌else◌, ◌+◌, ◌%◌,
  ◌^◌,
}
use neo.Base.Partial.{guard, ◌>>=◌}
use neo.Proto.{is_tcp, has_syn, has_fin}
use neo.Payload.{Payload, payload_size}
use neo.Packet.{Packet}
use neo.Model.{State, ConnState, current, set_conn}

-- The sequence number behind the last packet. The state is kept in a uint8_t here.
unfoldable pub expected_seq : State → ℕ
expected_seq s =
    let c = current s in
    let old_payload_size = payload_size c.payload in
    let old_proto_state = c.proto_state % 256 in
    if ltb 0 old_payload_size
    then (c.seq + old_payload_size) % 2 ^ 32
    else if has_syn old_proto_state || has_fin old_proto_state
    then (c.seq + 1) % 2 ^ 32
    else c.seq

-- The assertions, in the state whose current connection is the packet's. `same_payload` tests the
-- pointers.
unfoldable pub numbers_fit : (Payload → Payload → Bool) → Packet → State → Bool
unfolding expected_seq
numbers_fit same_payload pkt s =
    let c = current s in
    if pkt.is_new
    then pkt.seq == 0 && pkt.ack == 0
    else if pkt.next_phase
    then if pkt.opposite_dir
      then pkt.seq == c.ack && pkt.ack == expected_seq s
      else pkt.seq == expected_seq s && pkt.ack == c.ack
    else pkt.seq == c.seq && pkt.ack == c.ack && same_payload pkt.payload c.payload

-- The state of the model is the same before and after; `none` is a failed assertion, or a packet
-- without a connection.
unfoldable pub check_seq_ack : (Payload → Payload → Bool) → Packet → State → Option (Unit {0})
unfolding numbers_fit
check_seq_ack same_payload pkt s =
    if not (is_tcp pkt.proto_state)
    then some tt
    else pkt.conn >>= λ conn. guard (numbers_fit same_payload pkt (set_conn conn s))
