-- ===== src/Packet/Order.antt =====
-- src/packet.cpp: what `operator<` is.
use neo.Base.{ℕ, true, ◌≡◌, ◌<◌, arith}
use neo.Payload.{Payload}
use neo.Packet.{Packet, precedes}

-- Two packets at one interface of which the first has the smaller source address and the second the
-- smaller destination address precede each other, so `operator<` is not an order.
pub precedes-both :
    (address : Payload → ℕ) (p q : Packet)
    → p.src_ip < q.src_ip
    → q.dst_ip < p.dst_ip
    → (precedes address p q ≡ true) × (precedes address q p ≡ true)
unfolding precedes
precedes-both address p q h k = ground arith
