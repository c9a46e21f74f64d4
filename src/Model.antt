-- ===== src/Model.antt =====
-- src/model-access.cpp and src/network.pml: the state of the network model.
-- A getter is a field of the current connection's record, a setter an update of it. The unique
-- storage keeps one copy of each value, so a stored pointer is modelled by the value it is to.
use neo.Base.{ℕ, Bool, ◌==◌, List, Option, some, if◌then◌else◌, ◌≡◌, refl, ==-refl}
use neo.Proto.{ProtoState}
use neo.Ip.Address.{IPv4Address}
use neo.Ec.Range.{EcPtr}
use neo.Payload.{Payload}
use neo.Packet.{Packet}
pub use neo.Objects.{Node, Interface}

pub record FibIpnh : Type 0 where
  pub l3_node : Node
  pub l3_intf : Interface
  pub l2_node : Node
  pub l2_intf : Interface

pub data FwdMode : Type 0 where
  first_collect : FwdMode
  first_forward : FwdMode
  collect_nhops : FwdMode
  choose_inj_res : FwdMode
  forward_packet : FwdMode
  accepted : FwdMode
  dropped : FwdMode

pub data ProcessId : Type 0 where
  choose_conn : ProcessId
  forwarding : ProcessId
  openflow : ProcessId

-- The choices of one connection, by class and node.
pub record ChoiceEntry : Type 0 where
  pub ec : EcPtr
  pub node : Node
  pub choice : FibIpnh

-- A hop of the loop invariant, and its visited hops.
pub record Hop : Type 0 where
  pub dst_ip_ec : EcPtr
  pub dst_port : ℕ
  pub node : Node

pub record VisitedHops : Type 0 where
  pub hops : List Hop
  pub last_hop : Hop

pub record CountEntry : Type 0 where
  pub node : Node
  pub count : ℕ

pub record FibEntry : Type 0 where
  pub node : Node
  pub next_hops : List FibIpnh

-- The packets that an injection brought back, and whether a drop was seen.
pub record InjectionResult : Type 0 where
  pub recv_pkts : List Packet
  pub explicit_drop : Bool

-- The packets that a node has received, the last one first; the null history is empty.
pub record HistEntry : Type 0 where
  pub node : Node
  pub history : List Packet

-- The results of an injection, by the middlebox and its history with the injected packet.
pub record CacheEntry : Type 0 where
  pub node : Node
  pub history : List Packet
  pub results : List InjectionResult

pub record ConnState : Type 0 where
  pub executable : ℕ
  pub proto_state : ProtoState
  pub src_ip : IPv4Address
  pub dst_ip_ec : EcPtr
  pub src_port : ℕ
  pub dst_port : ℕ
  pub seq : ℕ
  pub ack : ℕ
  pub payload : Payload
  pub src_node : Node
  pub tx_node : Node
  pub rx_node : Node
  pub fwd_mode : FwdMode
  pub pkt_location : Node
  pub ingress_intf : Interface
  pub candidates : Option (List FibIpnh)
  pub inj_results : Option (List InjectionResult)
  pub fib : List FibEntry
  pub path_choices : List ChoiceEntry
  pub visited_hops : Option VisitedHops

-- The array of connection states is a function of the index. The injection cache is a global of
-- the program.
pub record State : Type 0 where
  pub conn_state : ℕ → ConnState
  pub process_id : ProcessId
  pub choice : ℕ
  pub choice_count : ℕ
  pub conn : ℕ
  pub num_conns : ℕ
  pub violated : Bool
  pub correlated_inv_idx : ℕ
  pub reach_counts : List CountEntry
  pub pkt_hist : List HistEntry
  pub openflow_update_state : List ℕ
  pub injection_cache : List CacheEntry

-- The current connection.
abbrev pub current : State → ConnState
current s = s.conn_state s.conn

abbrev pub set_current : ConnState → State → State
set_current c s = record s { conn_state = λ i. if i == s.conn then c else s.conn_state i }

abbrev pub set_executable : ℕ → State → State
set_executable e s = set_current (record (current s) { executable = e }) s

abbrev pub set_fwd_mode : FwdMode → State → State
set_fwd_mode m s = set_current (record (current s) { fwd_mode = m }) s

abbrev pub set_candidates : List FibIpnh → State → State
set_candidates cs s = set_current (record (current s) { candidates = some cs }) s

abbrev pub set_choice_count : ℕ → State → State
set_choice_count n s = record s { choice_count = n }

abbrev pub set_conn : ℕ → State → State
set_conn c s = record s { conn = c }

abbrev pub set_violated : Bool → State → State
set_violated v s = record s { violated = v }

abbrev pub set_visited_hops : VisitedHops → State → State
set_visited_hops h s = set_current (record (current s) { visited_hops = some h }) s

abbrev pub set_reach_counts : List CountEntry → State → State
set_reach_counts r s = record s { reach_counts = r }

-- What is written to the current connection is read back from it.
pub current-set_current : (c : ConnState) (s : State) → current (set_current c s) ≡ c
current-set_current c s = rw (==-refl s.conn) refl
