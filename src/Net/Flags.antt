-- ===== src/Net/Flags.antt =====
-- src/lib/net.cpp: TCP control flags, as <netinet/tcp.h> documents them, and the unconverted state of
-- a received TCP packet, which holds its flags with bit 11 set.
use neo.Base.{ℕ, Bool, ◌||◌, ltb, ◌==◌, ◌+◌, if◌then◌else◌, bit_and, bit_or}
use neo.Base.Partial.{guard, ◌>>=◌}
use neo.Base.{Option, some}
use neo.Proto.{ProtoState}
use neo.Packet.{Packet}

abbrev pub th_fin : ℕ
th_fin = 1

abbrev pub th_syn : ℕ
th_syn = 2

abbrev pub th_push : ℕ
th_push = 8

abbrev pub th_ack : ℕ
th_ack = 16

-- `build_tcp`: the control flags of a packet in a protocol state; other states leave them 0.
unfoldable pub ctrl_flags : ProtoState → ℕ
ctrl_flags p =
    if p == 1
    then th_syn
    else if p == 2
    then th_syn + th_ack
    else if p == 3 || p == 5 || p == 7 || p == 10
    then th_ack
    else if p == 4 || p == 6
    then th_push + th_ack
    else if p == 8 || p == 9
    then th_fin + th_ack
    else 0

abbrev pub is_unconverted : ProtoState → Bool
is_unconverted p = ltb 0 (bit_and p 2048)

-- `flags | 0x800U`, as `deserialize` stores them, and `proto_state & (~0x800U)`.
abbrev pub unconverted : ℕ → ProtoState
unconverted flags = bit_or flags 2048

abbrev pub flags_of : ProtoState → ℕ
flags_of p = bit_and p 63487

-- The assertion is that the flags are not converted yet.
unfoldable pub is_tcp_ack_or_psh_ack : Packet → Option Bool
is_tcp_ack_or_psh_ack pkt = guard (is_unconverted pkt.proto_state) >>= λ _.
    some
      (pkt.proto_state == unconverted th_ack || pkt.proto_state == unconverted (th_push + th_ack))
