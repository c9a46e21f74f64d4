-- ===== src/Ec/Initial/Partition.antt =====
-- src/eqclassmgr.cpp: the classes that `compute_initial_ecs` leaves.
use neo.Base.{
  ℕ, Bool, true, false, List, [], ◌∷◌, ◌++◌, none, some, All, set_insert, ltb, count_if, Keyed, ◌≡◌,
  ◌↔◌, inr, ◌≤◌, ◌<◌, refl, ap, ◌∙◌, arith,
}
use neo.Base.Partial.{◌>>=◌, >>=-eq-some}
use neo.Ip.Address.{IPv4Address, u32_mod}
use neo.Ip.Network.{IpInterface}
use neo.Ip.Network.Contains.{IsNetwork}
use neo.Ip.Range.{range_of_network}
use neo.Ip.Range.Convert.{range_of_network-IsValid}
use neo.Routing.Route.{Route}
use neo.Topology.{NodeInfo}
use neo.Ec.Range.{EcRange, EcPtr, contains, of_network}
use neo.Ec.RangeSet.{owner}
use neo.Ec.RangeSet.Parts.{of_class}
use neo.Ec.Mgr.{EqClassMgr, init, deref}
use neo.Ec.Mgr.Add.{add_ec}
use neo.Ec.Mgr.Inv.{IsValid}
use neo.Ec.Mgr.Cut.{IsProper}
use neo.Ec.Initial.{
  MiddleboxEcs, of_address, add_addrs, add_networks, networks, addresses, add_nodes, add_updates,
  insert_ports, add_middleboxes, other_port, compute_initial_ecs,
}
use neo.Ec.Initial.Ports.{ports_after, nodes-ports, updates-ports, middleboxes-ports}
use neo.Ec.Initial.Atoms.{has_last, Adds, Does, Does-add_ec, Does-none, Does-seq}

of_network-IsProper : (n : IpInterface) → IsNetwork n → IsProper (of_network n)
unfolding of_network range_of_network
of_network-IsProper n v =
    let r = range_of_network-IsValid n v in record { ordered = r.ordered; bound = r.bound }

abbrev address_ranges : List IPv4Address → List EcRange
address_ranges [] = []
address_ranges (a ∷ rest) = of_address a ∷ address_ranges rest

abbrev network_ranges : List IpInterface → List EcRange
network_ranges [] = []
network_ranges (n ∷ rest) = of_network n ∷ network_ranges rest

abbrev node_ranges : List NodeInfo → List EcRange
node_ranges [] = []
node_ranges (n ∷ rest) =
    address_ranges (addresses n.intfs_l3) ++ (network_ranges (networks n.rib) ++ node_ranges rest)

abbrev update_ranges : List (Keyed (List Route)) → List EcRange
update_ranges [] = []
update_ranges (u ∷ us) = network_ranges (networks u.value) ++ update_ranges us

abbrev middlebox_ranges : List MiddleboxEcs → List EcRange
middlebox_ranges [] = []
middlebox_ranges (b ∷ bs) =
    network_ranges b.ec_ip_prefixes ++ (address_ranges b.ec_ip_addrs ++ middlebox_ranges bs)

-- The address fits 32 bits.
abbrev pub IsAddress : IPv4Address → Type 0
IsAddress a = a < u32_mod

Does-addrs :
    (owned : Bool) (xs : List IPv4Address)
    → All IsAddress xs
    → Does (address_ranges xs) (add_addrs owned xs)
unfolding add_addrs
Does-addrs owned [] v = Does-none
Does-addrs owned (a ∷ xs) v =
    Does-seq (of_address a ∷ []) (address_ranges xs) (add_ec (of_address a) owned)
      (add_addrs owned xs)
      (Does-add_ec (of_address a) owned (record { ordered = omega arith; bound = v.0 }))
      (Does-addrs owned xs v.1)

Does-networks :
    (xs : List IpInterface) → All IsNetwork xs → Does (network_ranges xs) (add_networks xs)
unfolding add_networks
Does-networks [] v = Does-none
Does-networks (n ∷ xs) v =
    Does-seq (of_network n ∷ []) (network_ranges xs) (add_ec (of_network n) false) (add_networks xs)
      (Does-add_ec (of_network n) false (of_network-IsProper n v.0)) (Does-networks xs v.1)

abbrev pub NodeOk : NodeInfo → Type 0
NodeOk n = All IsAddress (addresses n.intfs_l3) × All IsNetwork (networks n.rib)

abbrev pub UpdateOk : Keyed (List Route) → Type 0
UpdateOk u = All IsNetwork (networks u.value)

abbrev pub MiddleboxOk : MiddleboxEcs → Type 0
MiddleboxOk b = All IsNetwork b.ec_ip_prefixes × All IsAddress b.ec_ip_addrs

Does-nodes : (ns : List NodeInfo) → All NodeOk ns → Does (node_ranges ns) (add_nodes ns)
unfolding add_nodes
Does-nodes [] v = Does-none
Does-nodes (n ∷ ns) v =
    Does-seq (address_ranges (addresses n.intfs_l3))
      (network_ranges (networks n.rib) ++ node_ranges ns) (add_addrs true (addresses n.intfs_l3))
      (λ m. add_networks (networks n.rib) m >>= add_nodes ns)
      (Does-addrs true (addresses n.intfs_l3) v.0.0)
      (Does-seq (network_ranges (networks n.rib)) (node_ranges ns) (add_networks (networks n.rib))
        (add_nodes ns) (Does-networks (networks n.rib) v.0.1) (Does-nodes ns v.1))

Does-updates :
    (us : List (Keyed (List Route))) → All UpdateOk us → Does (update_ranges us) (add_updates us)
unfolding add_updates
Does-updates [] v = Does-none
Does-updates (u ∷ us) v =
    Does-seq (network_ranges (networks u.value)) (update_ranges us)
      (add_networks (networks u.value)) (add_updates us) (Does-networks (networks u.value) v.0)
      (Does-updates us v.1)

-- The ports are none of the classes.
with_ports-Adds :
    (rs : List EcRange) (ps : List ℕ) (m m' : EqClassMgr)
    → Adds rs m m'
    → Adds rs m (record m' { ports = ps })
with_ports-Adds rs ps m m' h = record {
  valid = record {
    ascends = h.valid.ascends;
    bounded = h.valid.bounded;
    keys = h.valid.keys;
    classes = h.valid.classes;
  };
  covers = h.covers;
  refines = h.refines;
}

Does-middleboxes :
    (bs : List MiddleboxEcs) → All MiddleboxOk bs → Does (middlebox_ranges bs) (add_middleboxes bs)
unfolding add_middleboxes
Does-middleboxes [] v = Does-none
Does-middleboxes (b ∷ bs) v =
    Does-seq (network_ranges b.ec_ip_prefixes) (address_ranges b.ec_ip_addrs ++ middlebox_ranges bs)
      (add_networks b.ec_ip_prefixes)
      (λ m.
        add_addrs false b.ec_ip_addrs m >>= λ m2. add_middleboxes bs (insert_ports b.ec_ports m2))
      (Does-networks b.ec_ip_prefixes v.0.0)
      (Does-seq (address_ranges b.ec_ip_addrs) (middlebox_ranges bs) (add_addrs false b.ec_ip_addrs)
        (λ m. add_middleboxes bs (insert_ports b.ec_ports m)) (Does-addrs false b.ec_ip_addrs v.0.1)
        (after_ports bs b.ec_ports (Does-middleboxes bs v.1)))
  where
    after_ports :
        (bs : List MiddleboxEcs) (ps : List ℕ)
        → Does (middlebox_ranges bs) (add_middleboxes bs)
        → Does (middlebox_ranges bs) (λ m. add_middleboxes bs (insert_ports ps m))
    after_ports bs ps d m v free =
        let (m', e, h) =
          d (insert_ports ps m)
            (record {
              ascends = v.ascends;
              bounded = v.bounded;
              keys = v.keys;
              classes = v.classes;
            })
            free in
        (m', e, record { valid = h.valid; covers = h.covers; refines = h.refines })

-- All the ranges that are added, in their order.
abbrev pub initial_ranges :
    List NodeInfo → List (Keyed (List Route)) → List MiddleboxEcs → List EcRange
initial_ranges nodes updates middleboxes =
    node_ranges nodes ++ (update_ranges updates ++ middlebox_ranges middleboxes)

-- The classes cover the ranges, and the addresses of a class are in the same ranges.
pub record Partitions (rs : List EcRange) (m : EqClassMgr) : Type 0 where
  pub valid : IsValid m
  pub covers : (a : IPv4Address) → (owner a m.allranges ≡ none) ↔ All (λ r. contains r a ≡ false) rs
  pub agrees :
      (a b : IPv4Address) (e : EcPtr)
      → owner a m.allranges ≡ some e
      → owner b m.allranges ≡ some e
      → All (λ r. contains r a ≡ contains r b) rs

init_classes : (e : EcPtr) → deref e init.all_ecs ≡ of_class e init.allranges
unfolding init deref
init_classes e = refl

init-IsValid : IsValid init
unfolding init
init-IsValid = record { ascends = tt; bounded = tt; keys = tt; classes = init_classes }

uncovered : (a : IPv4Address) → owner a init.allranges ≡ none
unfolding init owner
uncovered a = refl

no_ports : init.ports ≡ []
unfolding init
no_ports = refl

-- From a new manager, where addresses and networks are well formed, at most one of the ranges has
-- the last address, and the random generator gives a number that is no port, the computation
-- succeeds. An address is in no class exactly if it is in none of the ranges, two addresses of one
-- class are in the same ranges, and the ports are those of the middleboxes and the number.
pub compute_initial_ecs-Partitions :
    (nodes : List NodeInfo) (updates : List (Keyed (List Route))) (middleboxes : List MiddleboxEcs)
    (draws : List ℕ) (port : ℕ)
    → All NodeOk nodes
    → All UpdateOk updates
    → All MiddleboxOk middleboxes
    → count_if has_last (initial_ranges nodes updates middleboxes) ≤ 1
    → other_port (ports_after middleboxes []) draws ≡ some port
    → (m : EqClassMgr) × (compute_initial_ecs nodes updates middleboxes draws init ≡ some m)
      × Partitions (initial_ranges nodes updates middleboxes) m
      × (m.ports ≡ set_insert ltb port (ports_after middleboxes []))
unfolding compute_initial_ecs
compute_initial_ecs-Partitions nodes updates mbs draws port vn vu vm le drawn =
    let whole =
      Does-seq (node_ranges nodes) (update_ranges updates ++ middlebox_ranges mbs) (add_nodes nodes)
        (λ m. add_updates updates m >>= add_middleboxes mbs) (Does-nodes nodes vn)
        (Does-seq (update_ranges updates) (middlebox_ranges mbs) (add_updates updates)
          (add_middleboxes mbs) (Does-updates updates vu) (Does-middleboxes mbs vm)) in
    let (m3, e, h) = whole init init-IsValid (inr (uncovered 4294967295, le)) in
    let (m1, e1, f1) = >>=-eq-some (add_nodes nodes init) _ e in
    let (m2, e2, e3) = >>=-eq-some (add_updates updates m1) _ f1 in
    let ports : m3.ports ≡ ports_after mbs [] =
      middleboxes-ports mbs m2 m3 e3
      ∙ ap (ports_after mbs)
          (updates-ports updates m1 m2 e2 ∙ nodes-ports nodes init m1 e1 ∙ no_ports) in
    (
      record m3 { ports = set_insert ltb port m3.ports },
      rw (e1, e2, e3, ap (λ ps. other_port ps draws) ports, drawn) refl,
      record {
        valid = (with_ports-Adds _ (set_insert ltb port m3.ports) init m3 h).valid;
        covers = λ a. (λ k. ((h.covers a).0 k).1, λ k. (h.covers a).1 (uncovered a, k));
        agrees = λ a b x ha hb. (h.refines a b x ha hb).1;
      },
      ap (set_insert ltb port) ports,
    )
