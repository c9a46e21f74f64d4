-- ===== src/Net/Identify.antt =====
-- src/lib/net.cpp: which connection a received packet belongs to.
pub mod Owner
use neo.Base.{
  ℕ, zero, suc, Bool, true, false, not, ◌&&◌, ◌||◌, ltb, ◌==◌, Option, none, some, if◌then◌else◌,
  ◌+◌,
}
use neo.Proto.{tcp, to_proto}
use neo.Ip.Address.{IPv4Address}
use neo.Ec.Range.{EcPtr}
use neo.Packet.{Packet, same_protocol}
use neo.Model.{ConnState, State}
use neo.Net.Flags.{is_unconverted}

-- `contains` of the class behind a pointer.
module _ (in_class : EcPtr → IPv4Address → Bool) where
  unfoldable pub same_protocol_as : Packet → ConnState → Bool
  same_protocol_as pkt c =
      same_protocol (if is_unconverted pkt.proto_state then tcp else to_proto pkt.proto_state)
        (to_proto c.proto_state)

  -- The two tests of `packet_belongs_to_connection`: the connection's direction and the opposite one.
  unfoldable pub along : Packet → ConnState → Bool
  unfolding same_protocol_as
  along pkt c =
      pkt.src_ip == c.src_ip
      && in_class c.dst_ip_ec pkt.dst_ip
      && pkt.src_port == c.src_port
      && pkt.dst_port == c.dst_port
      && same_protocol_as pkt c

  unfoldable pub against : Packet → ConnState → Bool
  unfolding same_protocol_as
  against pkt c =
      pkt.dst_ip == c.src_ip
      && in_class c.dst_ip_ec pkt.src_ip
      && pkt.dst_port == c.src_port
      && pkt.src_port == c.dst_port
      && same_protocol_as pkt c

  -- `none` for another connection, else whether the direction is the same.
  unfoldable pub packet_belongs_to_connection : Packet → ConnState → Option Bool
  unfolding along against
  packet_belongs_to_connection pkt c =
      if along pkt c then some true else if against pkt c then some false else none

  abbrev pub found_in : Packet → ℕ → Bool → Packet
  found_in pkt conn same_direction = record pkt {
    is_new = false;
    opposite_dir = not same_direction;
    conn = some conn;
  }

  -- The loop over the connections from `conn` on, `left` of them.
  unfoldable pub search_conns : Packet → State → ℕ → ℕ → Option Packet
  search_conns pkt s conn zero = none
  search_conns pkt s conn (suc left) =
      let rest = search_conns pkt s (suc conn) left in
      if conn == s.conn then rest else elim (packet_belongs_to_connection pkt (s.conn_state conn)) [
        | some same_direction ↦ some (found_in pkt conn same_direction)
        | none ↦ rest
      ]

  -- A packet that no connection has found is of a new one; `none` is the logged error that there
  -- are too many connections.
  abbrev pub or_new : ℕ → Packet → State → Option Packet → Option Packet
  or_new max_conns pkt s (some p) = some p
  or_new max_conns pkt s none =
      if ltb s.num_conns max_conns
      then some (record pkt { is_new = true; opposite_dir = false; conn = some s.num_conns })
      else none

  -- The original connection is tried first.
  unfoldable pub or_others : ℕ → Packet → State → Option Bool → Option Packet
  unfolding search_conns
  or_others max_conns pkt s (some same_direction) = some (found_in pkt s.conn same_direction)
  or_others max_conns pkt s none = or_new max_conns pkt s (search_conns pkt s 0 s.num_conns)

  unfoldable pub identify_conn : ℕ → Packet → State → Option Packet
  unfolding or_others
  identify_conn max_conns pkt s =
      or_others max_conns pkt s (packet_belongs_to_connection pkt (s.conn_state s.conn))
