-- ===== src/Process/Numbers.antt =====
-- src/process/forwarding.cpp: the sequence numbers of `phase_transition`.
use neo.Base.{ℕ, ◌||◌, ltb, if◌then◌else◌, ◌+◌, ◌%◌, ◌^◌}
use neo.Proto.{has_syn, has_fin}
use neo.Payload.{payload_size}
use neo.Model.{State, current}

-- The next sequence and acknowledgement numbers of a TCP packet, in 32 bits.
unfoldable pub next_seq : State → ℕ
next_seq s =
    let c = current s in
    let size = payload_size c.payload in
    if ltb 0 size
    then (c.seq + size) % 2 ^ 32
    else if has_syn c.proto_state || has_fin c.proto_state
    then (c.seq + 1) % 2 ^ 32
    else c.seq
