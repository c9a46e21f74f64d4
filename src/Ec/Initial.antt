-- ===== src/Ec/Initial.antt =====
-- src/eqclassmgr.cpp: `compute_initial_ecs`, which adds the addresses and networks of the network.
pub mod Atoms
pub mod Ports
pub mod Partition
use neo.Base.{
  ℕ, Bool, true, false, List, [], ◌∷◌, Option, none, some, map, elem, set_insert, set_union, ltb,
  Keyed, if◌then◌else◌,
}
use neo.Base.Partial.{◌>>=◌}
use neo.Ip.Address.{IPv4Address}
use neo.Ip.Network.{IpInterface}
use neo.Routing.Route.{Route}
use neo.Topology.{NodeInfo}
use neo.Ec.Range.{EcRange, nullptr, of_network}
use neo.Ec.Mgr.{EqClassMgr}
use neo.Ec.Mgr.Add.{add_ec}

-- What the configuration of a middlebox names, each in its order.
pub record MiddleboxEcs : Type 0 where
  pub ec_ip_prefixes : List IpInterface
  pub ec_ip_addrs : List IPv4Address
  pub ec_ports : List ℕ

abbrev pub of_address : IPv4Address → EcRange
of_address a = record { lb = a; ub = a; ec = nullptr }

unfoldable pub add_addrs : Bool → List IPv4Address → EqClassMgr → Option EqClassMgr
add_addrs owned [] m = some m
add_addrs owned (a ∷ rest) m = add_ec (of_address a) owned m >>= λ m1. add_addrs owned rest m1

unfoldable pub add_networks : List IpInterface → EqClassMgr → Option EqClassMgr
add_networks [] m = some m
add_networks (n ∷ rest) m = add_ec (of_network n) false m >>= λ m1. add_networks rest m1

abbrev pub networks : List Route → List IpInterface
networks [] = []
networks (r ∷ rs) = r.network ∷ networks rs

abbrev pub addresses {ℓ} : {A : Type ℓ} → List (Keyed A) → List IPv4Address
addresses [] = []
addresses (e ∷ es) = e.key ∷ addresses es

unfoldable pub add_nodes : List NodeInfo → EqClassMgr → Option EqClassMgr
unfolding add_addrs add_networks
add_nodes [] m = some m
add_nodes (n ∷ rest) m = add_addrs true (addresses n.intfs_l3) m >>= λ m1.
    add_networks (networks n.rib) m1 >>= λ m2. add_nodes rest m2

unfoldable pub add_updates : List (Keyed (List Route)) → EqClassMgr → Option EqClassMgr
unfolding add_networks
add_updates [] m = some m
add_updates (u ∷ us) m = add_networks (networks u.value) m >>= λ m1. add_updates us m1

abbrev pub insert_ports : List ℕ → EqClassMgr → EqClassMgr
insert_ports ps m = record m { ports = set_union ltb ps m.ports }

unfoldable pub add_middleboxes : List MiddleboxEcs → EqClassMgr → Option EqClassMgr
unfolding add_addrs add_networks
add_middleboxes [] m = some m
add_middleboxes (b ∷ bs) m = add_networks b.ec_ip_prefixes m >>= λ m1.
    add_addrs false b.ec_ip_addrs m1 >>= λ m2. add_middleboxes bs (insert_ports b.ec_ports m2)

-- The first drawn number that is no port yet; `none` where all that are drawn are ports.
unfoldable pub other_port : List ℕ → List ℕ → Option ℕ
other_port ports [] = none
other_port ports (d ∷ ds) = let rest = other_port ports ds in if elem d ports then rest else some d

-- `draws` is what the random generator gives.
unfoldable pub compute_initial_ecs :
    List NodeInfo
    → List (Keyed (List Route))
    → List MiddleboxEcs
    → List ℕ
    → EqClassMgr
    → Option EqClassMgr
unfolding add_nodes add_updates add_middleboxes other_port
compute_initial_ecs nodes updates middleboxes draws m = add_nodes nodes m >>= λ m1.
    add_updates updates m1 >>= λ m2. add_middleboxes middleboxes m2 >>= λ m3.
    other_port m3.ports draws >>= λ port. some (record m3 { ports = set_insert ltb port m3.ports })
