-- ===== src/Process/Interface.antt =====
-- What the processes ask of the network, of the classes, of the payloads and of the middleboxes.
use neo.Base.{ℕ, Bool, List, Option}
use neo.Ip.Address.{IPv4Address}
use neo.Ec.Range.{EcPtr}
use neo.Payload.{Payload}
use neo.Packet.{Packet}
use neo.Model.{
  Node, Interface, FibIpnh, FibEntry, InjectionResult, dropped, State, current, set_current,
  set_executable, set_fwd_mode,
}

-- `loopback_addr` is `none` where a node has no interface with an address, `get_ipnh` takes the
-- interface whose name the code passes, and `send_pkt` is the middlebox that runs: it answers a packet
-- by what it has received, the last packet first. `same_payload` tests pointers.
pub record Network : Type 0 where
  pub is_emulated : Node → Bool
  pub egress_addr : FibIpnh → IPv4Address
  pub loopback_addr : Node → Option IPv4Address
  pub get_ipnh : Node → Interface → IPv4Address → Option FibIpnh
  pub find_ec : IPv4Address → Option EcPtr
  pub in_class : EcPtr → IPv4Address → Bool
  pub representative_addr : EcPtr → Option IPv4Address
  pub compute_fib : State → List FibEntry
  pub get_payload_from_model : State → Payload
  pub same_payload : Payload → Payload → Bool
  pub send_pkt : Node → List Packet → Packet → List InjectionResult
  pub max_conns : ℕ

abbrev pub drop_conn : State → State
drop_conn s = set_executable 0 (set_fwd_mode dropped s)

-- `Model::update_fib`, on a network where nothing is thrown.
abbrev pub update_fib : Network → State → State
update_fib net s = set_current (record (current s) { fib = net.compute_fib s }) s
