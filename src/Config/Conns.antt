-- ===== src/Config/Conns.antt =====
-- src/configparser.cpp: `parse_conn_spec` and `parse_connections`.
use Prim.Native.String.{String, ◌++◌}
use text.Mathlib.Text.{◌==◌ as str_eq}
use neo.Base.{
  ℕ, Bool, true, false, List, [], ◌∷◌, Option, none, some, ltb, if◌then◌else◌, Named, set_insert,
}
use neo.Base.Partial.{◌>>=◌}
use neo.Base.Int.{ℤ}
use neo.Proto.{Proto, tcp, udp, icmp_echo}
use neo.Objects.{Node}
use neo.Conn.Spec.{ConnSpec}
use neo.Config.Text.{Text, to_u16}

pub record ConnConfig : Type 0 where
  pub protocol : Option String
  pub src_node : Option String
  pub dst_ip : Option String
  pub src_port : Option ℤ
  pub dst_ports : Option (List ℤ)
  pub dport_int : Option ℤ
  pub owned_dst_only : Option Bool

abbrev pub dynamic_port : ℕ
dynamic_port = 49152

abbrev pub protocol_of : String → Option Proto
protocol_of s =
    if str_eq s "tcp"
    then some tcp
    else if str_eq s "udp"
    then some udp
    else if str_eq s "icmp-echo"
    then some icmp_echo
    else none

-- Only TCP and UDP have ports.
abbrev pub has_ports : Proto → Bool
has_ports icmp_echo = false
has_ports _ = true

abbrev pub source_port : Option ℤ → ℕ
source_port none = dynamic_port
source_port (some z) = to_u16 z

abbrev pub insert_all : List ℤ → List ℕ → List ℕ
insert_all [] ports = ports
insert_all (z ∷ zs) ports = insert_all zs (set_insert ltb (to_u16 z) ports)

-- An array of ports, a single one, or none.
abbrev pub destination_ports : Option (List ℤ) → Option ℤ → List ℕ
destination_ports (some zs) one = insert_all zs []
destination_ports none (some z) = to_u16 z ∷ []
destination_ports none none = []

module _ (text : Text) (nodes : List (Named Node)) where
  -- The nodes whose names match.
  unfoldable pub matching : String → List (Named Node) → List Node
  matching regex [] = []
  matching regex (n ∷ ns) =
      let rest = matching regex ns in
      if text.regex_match n.name regex then set_insert ltb n.value rest else rest

  unfoldable pub parse_conn_spec : ConnConfig → Option ConnSpec
  unfolding matching
  parse_conn_spec c = c.protocol >>= λ name. c.src_node >>= λ regex. c.dst_ip >>= λ ip.
      protocol_of (text.tolower name) >>= λ proto.
      text.range (if text.has_slash ip then ip else ip ++ "/32") >>= λ range. some (record {
        protocol = proto;
        src_nodes = matching regex nodes;
        dst_ip = range;
        src_port = if has_ports proto then source_port c.src_port else 0;
        dst_ports = if has_ports proto then destination_ports c.dst_ports c.dport_int else [];
        owned_dst_only = elim c.owned_dst_only [ none ↦ false | some b ↦ b ];
      })

  unfoldable pub parse_connections : List ConnConfig → Option (List ConnSpec)
  unfolding parse_conn_spec
  parse_connections [] = some []
  parse_connections (c ∷ cs) =
      parse_conn_spec c >>= λ spec. parse_connections cs >>= λ specs. some (spec ∷ specs)
