-- ===== src/Net/Convert/Phase.antt =====
-- src/lib/net.cpp: what `process_proto_state` leaves in the packet.
use neo.Base.{ℕ, ◌+◌, ◌∙◌, Bool, true, false, some, ◌≡◌, ◌<◌, ◌⊎◌, arith, sym, ap}
use neo.Base.Partial.{>>=-eq-some}
use neo.Proto.{ProtoState}
use neo.Net.Flags.{th_syn, th_ack}
use neo.Packet.{Packet}
use neo.Net.Convert.{converted, convert_proto_state, mark_phase, process_proto_state}

-- The states that may come after one: the next one, the reply without an acknowledgement of the request
-- before it, and the first FIN instead of a request or a reply.
abbrev pub Follows : ProtoState → ProtoState → Type 0
Follows old new = (new ≡ old + 1) ⊎ ((old ≡ 4) × (new ≡ 6)) ⊎ (((old ≡ 3) ⊎ (old ≡ 5)) × (new ≡ 8))

-- The flags of the handshake, for a connection that is past their state.
abbrev pub IsOldHandshake : ℕ → ProtoState → Type 0
IsOldHandshake flags old = ((flags ≡ th_syn) × (1 < old)) ⊎ ((flags ≡ th_syn + th_ack) × (2 < old))

-- What the flags of a packet are understood as.
abbrev Understood : ProtoState → ℕ → ProtoState → Type 0
Understood old flags p = (p ≡ old) ⊎ Follows old p ⊎ ((p < old) × IsOldHandshake flags old)

some-inj : (p q : Packet) → some p ≡ some q → p ≡ q
some-inj p q h = cc

is_new-convert_proto_state :
    (pkt q : Packet) (old : ProtoState)
    → convert_proto_state pkt old ≡ some q
    → q.is_new ≡ pkt.is_new
unfolding convert_proto_state
is_new-convert_proto_state pkt q old h =
    let (p, _, e) =
      >>=-eq-some (converted pkt old) (λ p. some (record pkt { proto_state = p })) h in
    ap (λ x. x.is_new) (sym (some-inj (record pkt { proto_state = p }) q e))

is_new-mark_phase :
    (pkt q : Packet) (old : ProtoState) → mark_phase pkt old ≡ some q → q.is_new ≡ pkt.is_new
unfolding mark_phase
is_new-mark_phase pkt q old h = ground arith

pub is_new-process_proto_state :
    (pkt q : Packet) (old : ProtoState)
    → process_proto_state pkt old ≡ some q
    → q.is_new ≡ pkt.is_new
unfolding process_proto_state
is_new-process_proto_state pkt q old h =
    let (p, e, h1) = >>=-eq-some (convert_proto_state pkt old) _ h in
    is_new-mark_phase p q old h1 ∙ is_new-convert_proto_state pkt p old e

-- What a processed TCP packet is, from whether its connection is new and from its flags.
abbrev pub Processed : Bool → ℕ → ProtoState → Packet → Type 0
Processed is_new flags old q =
    ((is_new ≡ true) × (flags ≡ th_syn) × (q.proto_state ≡ 1) × (q.next_phase ≡ false))
    ⊎ ((is_new ≡ false)
        × (((q.proto_state ≡ old) × (q.next_phase ≡ false))
            ⊎ (Follows old q.proto_state × (q.next_phase ≡ true))
            ⊎ ((q.proto_state ≡ 0) × IsOldHandshake flags old)))
