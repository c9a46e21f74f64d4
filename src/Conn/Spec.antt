-- ===== src/Conn/Spec.antt =====
-- src/connspec.cpp: the specification of a set of connections.
pub mod Members
use neo.Base.{ℕ, Bool, true, false, List, [], ◌∷◌, Option, none, some, set_insert}
use neo.Proto.{Proto, tcp, udp, icmp_echo}
use neo.Ec.Range.{EcRange, EcPtr}
use neo.Ec.Mgr.{EqClassMgr}
use neo.Ec.Mgr.Add.{add_ec, get_overlapped_ecs}
use neo.Model.{Node}
use neo.Conn.Connection.{Connection, precedes}

-- The constructor of a range leaves its class null.
pub record ConnSpec : Type 0 where
  pub protocol : Proto
  pub src_nodes : List Node
  pub dst_ip : EcRange
  pub src_port : ℕ
  pub dst_ports : List ℕ
  pub owned_dst_only : Bool

unfoldable pub update_inv_ecs : ConnSpec → EqClassMgr → Option EqClassMgr
update_inv_ecs c m = add_ec c.dst_ip false m

-- The ports without a list: those of the manager, or 0.
abbrev pub default_ports : Proto → List ℕ → List ℕ
default_ports icmp_echo ports = 0 ∷ []
default_ports _ ports = ports

unfoldable pub ports_of : ConnSpec → List ℕ → List ℕ
ports_of c ports = elim c.dst_ports [ [] ↦ default_ports c.protocol ports | p ∷ ps ↦ p ∷ ps ]

abbrev pub connection : ConnSpec → Node → EcPtr → ℕ → Connection
connection c n ec port = record {
  protocol = c.protocol;
  src_node = n;
  dst_ip_ec = ec;
  src_port = c.src_port;
  dst_port = port;
  src_ip = 0;
  seq = 0;
  ack = 0;
}

-- The loops, from the innermost one.
unfoldable pub with_ports : ConnSpec → Node → EcPtr → List ℕ → List Connection → List Connection
with_ports c n ec [] conns = conns
with_ports c n ec (p ∷ ps) conns =
    with_ports c n ec ps (set_insert precedes (connection c n ec p) conns)

unfoldable pub with_ecs : ConnSpec → Node → List EcPtr → List ℕ → List Connection → List Connection
unfolding with_ports
with_ecs c n [] ports conns = conns
with_ecs c n (ec ∷ ecs) ports conns = with_ecs c n ecs ports (with_ports c n ec ports conns)

unfoldable pub with_nodes :
    ConnSpec → List Node → List EcPtr → List ℕ → List Connection → List Connection
unfolding with_ecs
with_nodes c [] ecs ports conns = conns
with_nodes c (n ∷ ns) ecs ports conns = with_nodes c ns ecs ports (with_ecs c n ecs ports conns)

unfoldable pub compute_connections : ConnSpec → EqClassMgr → List Connection
unfolding with_nodes ports_of get_overlapped_ecs
compute_connections c m =
    with_nodes c c.src_nodes (get_overlapped_ecs c.dst_ip c.owned_dst_only m) (ports_of c m.ports)
      []
