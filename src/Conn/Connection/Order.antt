-- ===== src/Conn/Connection/Order.antt =====
-- src/conn.cpp: `operator<` is an order on which a std::set can rely.
use neo.Base.{true, false, ◌≡◌, refl, arith}
use neo.Proto.{Proto, tcp, udp, icmp_echo}
use neo.Conn.Connection.{Connection, proto_number, precedes}

proto_number-inj : (p q : Proto) → proto_number p ≡ proto_number q → p ≡ q
proto_number-inj tcp tcp h = refl
proto_number-inj tcp udp h = absurd (ground arith)
proto_number-inj tcp icmp_echo h = absurd (ground arith)
proto_number-inj udp tcp h = absurd (ground arith)
proto_number-inj udp udp h = refl
proto_number-inj udp icmp_echo h = absurd (ground arith)
proto_number-inj icmp_echo tcp h = absurd (ground arith)
proto_number-inj icmp_echo udp h = absurd (ground arith)
proto_number-inj icmp_echo icmp_echo h = refl

precedes-equal :
    (a b : Connection)
    → precedes a b ≡ false
    → precedes b a ≡ false
    → (proto_number a.protocol ≡ proto_number b.protocol)
      × (a.src_node ≡ b.src_node)
      × (a.dst_ip_ec ≡ b.dst_ip_ec)
      × (a.src_port ≡ b.src_port)
      × (a.dst_port ≡ b.dst_port)
unfolding precedes
precedes-equal a b h k = ground arith

-- Where one connection precedes a second and that a third, the first precedes the third, and the third
-- does not precede the first.
pub precedes-order :
    (a b c : Connection)
    → precedes a b ≡ true
    → precedes b c ≡ true
    → (precedes a c ≡ true) × (precedes c a ≡ false)
unfolding precedes
precedes-order a b c h k = ground arith

-- Two connections of which neither precedes the other have the same protocol, source node,
-- destination class and ports.
pub precedes-same :
    (a b : Connection)
    → precedes a b ≡ false
    → precedes b a ≡ false
    → (a.protocol ≡ b.protocol)
      × (a.src_node ≡ b.src_node)
      × (a.dst_ip_ec ≡ b.dst_ip_ec)
      × (a.src_port ≡ b.src_port)
      × (a.dst_port ≡ b.dst_port)
precedes-same a b h k =
    let (p, n, e, s, d) = precedes-equal a b h k in
    (proto_number-inj a.protocol b.protocol p, n, e, s, d)
