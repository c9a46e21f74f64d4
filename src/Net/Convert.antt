-- ===== src/Net/Convert.antt =====
-- src/lib/net.cpp: `convert_proto_state` and `process_proto_state`.
pub mod RoundTrip
pub mod Phase
use neo.Base.{
  ℕ, Bool, true, false, not, ◌&&◌, ◌||◌, ltb, ◌==◌, Option, none, some, if◌then◌else◌, ◌+◌,
}
use neo.Base.Partial.{guard, ◌>>=◌}
use neo.Proto.{ProtoState, is_first, is_udp, is_icmp_echo}
use neo.Payload.{payload_size}
use neo.Packet.{Packet}
use neo.Net.Flags.{th_fin, th_syn, th_push, th_ack, is_unconverted, flags_of}

-- The outcome of an assertion, with the value that the code has by then.
abbrev pub asserted : Bool → ProtoState → Option ProtoState
asserted b p = if b then some p else none

-- The switch on the old state for an ACK, with or without PUSH; `len` is the payload's length.
unfoldable pub convert_ack : ProtoState → ℕ → Bool → Option ProtoState
convert_ack old len opposite =
    if old == 2 || old == 9
    then asserted opposite (old + 1)
    else if old == 3 || old == 5
    then asserted (not opposite) (if len == 0 then old else old + 1)
    else if old == 4
    then if len == 0 then asserted opposite (old + 1) else some (if opposite then old + 2 else old)
    else if old == 6
    then if len == 0 then asserted opposite (old + 1) else asserted (not opposite) old
    else if old == 7 || old == 10
    then asserted (len == 0 && not opposite) old
    else none

-- The switch for FIN and ACK.
unfoldable pub convert_fin : ProtoState → Bool → Option ProtoState
convert_fin old opposite =
    if old == 3 || old == 5 || old == 7
    then some 8
    else if old == 8
    then some (if opposite then 9 else old)
    else if old == 9
    then asserted (not opposite) old
    else none

-- The state that the flags mean; `none` is an assertion or the logged error "Invalid TCP flags".
unfoldable pub convert_flags : ProtoState → ℕ → ℕ → Bool → Option ProtoState
unfolding convert_ack convert_fin
convert_flags old flags len opposite =
    if flags == th_syn
    then some 1
    else if flags == th_syn + th_ack
    then some 2
    else if flags == th_ack || flags == th_push + th_ack
    then convert_ack old len opposite
    else if flags == th_fin + th_ack
    then convert_fin old opposite
    else none

-- The new state of the packet.
unfoldable pub converted : Packet → ProtoState → Option ProtoState
unfolding convert_flags
converted pkt old =
    let p = pkt.proto_state in
    if is_unconverted p
    then if pkt.is_new && not (flags_of p == th_syn)
      then none
      else convert_flags old (flags_of p) (payload_size pkt.payload) pkt.opposite_dir
    else if is_udp p
    then if pkt.is_new
      then some 11
      else if pkt.opposite_dir
      then asserted (old + 1 == 12) (old + 1)
      else some old
    else if is_icmp_echo p
    then if pkt.is_new then asserted (p == 13) p else some p
    else some p

unfoldable pub convert_proto_state : Packet → ProtoState → Option Packet
unfolding converted
convert_proto_state pkt old = converted pkt old >>= λ p. some (record pkt { proto_state = p })

-- The code after the conversion; an earlier state is invalid.
unfoldable pub mark_phase : Packet → ProtoState → Option Packet
mark_phase pkt old =
    if pkt.is_new
    then (if is_first pkt.proto_state then some (record pkt { next_phase = false }) else none)
    else if pkt.proto_state == old
    then some (record pkt { next_phase = false })
    else if ltb old pkt.proto_state
    then some (record pkt { next_phase = true })
    else some (record pkt { proto_state = 0 })

unfoldable pub process_proto_state : Packet → ProtoState → Option Packet
unfolding convert_proto_state mark_phase
process_proto_state pkt old = convert_proto_state pkt old >>= λ p. mark_phase p old
