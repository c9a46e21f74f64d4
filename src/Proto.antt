-- ===== src/Proto.antt =====
-- src/protocols.hpp: the protocols, the protocol states and the macros on them.
use neo.Base.{ℕ, Bool, ◌&&◌, ◌||◌, ltb, leb, ◌==◌, if◌then◌else◌, ◌+◌, bit_and}

pub data Proto : Type 0 where
  tcp : Proto
  udp : Proto
  icmp_echo : Proto

-- A protocol state is a uint16_t.
abbrev pub ProtoState : Type 0
ProtoState = ℕ

abbrev pub is_request_dir : ProtoState → Bool
is_request_dir x = x == 1 || x == 3 || x == 4 || x == 7 || x == 11 || x == 13

abbrev pub is_reply_dir : ProtoState → Bool
is_reply_dir x = x == 2 || x == 5 || x == 6 || x == 12 || x == 14

abbrev pub is_request : ProtoState → Bool
is_request x = x == 4 || x == 11 || x == 13

abbrev pub is_reply : ProtoState → Bool
is_reply x = x == 6 || x == 12 || x == 14

abbrev pub req_ack_or_rep : ProtoState → Bool
req_ack_or_rep x = x == 5 || is_reply x

abbrev pub is_first : ProtoState → Bool
is_first x = x == 1 || x == 11 || x == 13

abbrev pub is_last : ProtoState → Bool
is_last x = x == 10 || x == 12 || x == 14

-- Bit 11 marks the undecided TCP states of a received packet.
abbrev pub is_tcp : ProtoState → Bool
is_tcp x = (leb 1 x && leb x 10) || ltb 0 (bit_and x 2048)

abbrev pub is_udp : ProtoState → Bool
is_udp x = leb 11 x && leb x 12

abbrev pub is_icmp_echo : ProtoState → Bool
is_icmp_echo x = leb 13 x && leb x 14

abbrev pub has_syn : ProtoState → Bool
has_syn x = x == 1 || x == 2

abbrev pub has_fin : ProtoState → Bool
has_fin x = x == 8 || x == 9

abbrev pub same_proto : ProtoState → ProtoState → Bool
same_proto x y =
    (is_tcp x && is_tcp y) || (is_udp x && is_udp y) || (is_icmp_echo x && is_icmp_echo y)

abbrev pub is_next : ProtoState → ProtoState → Bool
is_next x y = x == y + 1 && same_proto x y

abbrev pub last_proto_state : ProtoState → ProtoState
last_proto_state x = if is_tcp x then 10 else if is_udp x then 12 else 14

abbrev pub to_proto : ProtoState → Proto
to_proto x = if is_tcp x then tcp else if is_udp x then udp else icmp_echo

-- The first state of a connection, by its protocol (`Connection::init`).
abbrev pub first_proto_state : Proto → ProtoState
first_proto_state tcp = 1
first_proto_state udp = 11
first_proto_state icmp_echo = 13
