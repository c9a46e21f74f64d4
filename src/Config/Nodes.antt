-- ===== src/Config/Nodes.antt =====
-- src/configparser.cpp: `parse_interface`, `parse_route` and `parse_node`.
pub mod Valid
use Prim.Native.String.{String}
use neo.Base.{
  ℕ, suc, Bool, true, false, List, [], ◌∷◌, Option, none, some, ltb, ◌==◌, if◌then◌else◌, ◌+◌,
}
use neo.Base.Partial.{◌>>=◌, guard}
use neo.Base.Int.{ℤ, pos, negsuc}
use neo.Ip.Address.{IPv4Address}
use neo.Ip.Network.{IpInterface}
use neo.Objects.{Interface}
use neo.Routing.Route.{Route}
use neo.Routing.Table.{RoutingTable, insert}
use neo.Topology.{InterfaceInfo, NodeInfo}
use neo.Topology.Nodes.{add_interface}
use neo.Config.Text.{Text, in_range}

pub record InterfaceConfig : Type 0 where
  pub name : Option String
  pub ipv4 : Option String

pub record RouteConfig : Type 0 where
  pub network : Option String
  pub next_hop : Option String
  pub interface : Option String
  pub adm_dist : Option ℤ

pub record NodeConfig : Type 0 where
  pub name : Option String
  pub interfaces : List InterfaceConfig
  pub static_routes : List RouteConfig
  pub installed_routes : List RouteConfig

-- A member that is left alone where the key is missing.
abbrev optional {ℓ κ} : {A : Type ℓ} {B : Type κ} → Option A → B → (A → Option B) → Option B
optional none b f = some b
optional (some a) b f = f a

abbrev present {ℓ} : {A : Type ℓ} → Option A → Bool
present none = false
present (some a) = true

-- The interfaces that have been allocated, and the next pointer.
pub record Heap : Type 0 where
  pub info : Interface → InterfaceInfo
  pub next : Interface

abbrev pub allocate : InterfaceInfo → Heap → Heap
allocate i h = record { info = λ p. if p == h.next then i else h.info p; next = suc h.next }

-- The value of an address that is not set does not matter.
abbrev pub no_address : IpInterface
no_address = record { value = 0; prefix = 0 }

module _ (text : Text) where
  unfoldable pub parse_interface : InterfaceConfig → Option InterfaceInfo
  parse_interface c = c.name >>= λ name. elim c.ipv4 [
    | none ↦ some (record { name = name; is_switchport = true; ipv4 = no_address })
    | some t ↦
        text.interface t >>= λ ip. some (record { name = name; is_switchport = false; ipv4 = ip })
  ]

  abbrev distance : Option ℤ → Option ℕ
  distance d = optional d 255 (in_range 1 254)

  -- Without a next hop and an interface it is an error, and 255 is the distance of a new route.
  unfoldable pub parse_route : RouteConfig → Option Route
  parse_route c = c.network >>= λ network.
      guard (if present c.next_hop then true else present c.interface) >>= λ _.
      text.network network >>= λ net. optional c.next_hop 0 text.address >>= λ hop.
      optional c.interface "" some >>= λ intf. distance c.adm_dist >>= λ dist.
      some (record { network = net; next_hop = hop; egress_intf = intf; adm_dist = dist })

  -- A static route that names no distance has 1.
  abbrev pub as_static : Route → Route
  as_static r = if r.adm_dist == 255 then record r { adm_dist = 1 } else r

  unfoldable pub add_static : List RouteConfig → RoutingTable → Option RoutingTable
  unfolding parse_route
  add_static [] rib = some rib
  add_static (c ∷ cs) rib = parse_route c >>= λ r. add_static cs (insert (as_static r) rib)

  unfoldable pub add_installed : List RouteConfig → RoutingTable → Option RoutingTable
  unfolding parse_route
  add_installed [] rib = some rib
  add_installed (c ∷ cs) rib = parse_route c >>= λ r. add_installed cs (insert r rib)

  unfoldable pub add_interfaces : List InterfaceConfig → Heap → NodeInfo → Option (Heap × NodeInfo)
  unfolding parse_interface
  add_interfaces [] h n = some (h, n)
  add_interfaces (c ∷ cs) h n = parse_interface c >>= λ i.
      let h1 = allocate i h in add_interface h1.info h.next n >>= λ n1. add_interfaces cs h1 n1

  abbrev pub new_node : String → NodeInfo
  new_node name = record {
    name = name;
    intfs = [];
    intfs_l3 = [];
    intfs_l2 = [];
    rib = [];
    l2_peers = [];
    l2_lans = [];
  }

  unfoldable pub parse_node : NodeConfig → Heap → Option (Heap × NodeInfo)
  unfolding add_interfaces add_static add_installed
  parse_node c h = c.name >>= λ name. add_interfaces c.interfaces h (new_node name) >>= λ r.
      add_static c.static_routes r.1.rib >>= λ rib1.
      add_installed c.installed_routes rib1 >>= λ rib2. some (r.0, record r.1 { rib = rib2 })
