-- ===== src/Topology/Hops/Sound.antt =====
-- src/node.cpp: where the next hops of `get_ipnhs` come from.
use neo.Base.{
  ℕ, zero, suc, true, false, ◌==◌, List, [], ◌∷◌, Option, none, some, elem, All, All-Memᴰ, Memᴰ,
  All-set_insert, All-set_union, set_union, ◌≡◌, refl, ◌⊎◌, inl, inr, Bool-cases, subst,
}
use neo.Ip.Address.{IPv4Address}
use neo.Objects.{Node}
use neo.Model.{FibIpnh}
use neo.Routing.Route.{Route, is_recursive}
use neo.Routing.Table.{RoutingTable, lookup}
use neo.Topology.{World}
use neo.Topology.Fib.{precedes}
use neo.Topology.Nodes.{has_ip}
use neo.Topology.Hops.{
  ipnh, Outcome, out_of_fuel, threw, found, get_ipnh, with_hop, connected_hop, collect_hops,
  get_ipnhs,
}

-- The addresses that are looked up for the first one: itself, and the next hops of the recursive
-- routes that a lookup gives.
pub data IsLooked (rib : RoutingTable) (dst : IPv4Address) : IPv4Address → Type 0 where
  asked : IsLooked rib dst dst
  recursed :
      {a : IPv4Address} (r : Route)
      → IsLooked rib dst a
      → Memᴰ r (lookup a rib)
      → is_recursive r ≡ true
      → IsLooked rib dst r.next_hop

module _ (w : World) (n : Node) (rib : RoutingTable) (root : IPv4Address) where
  -- A hop comes from an address that is looked up and a connected route that its lookup gives: the
  -- node itself if it has that address, and otherwise the node that `get_ipnh` gives.
  abbrev pub IsHop : FibIpnh → Type 0
  IsHop h =
      (a : IPv4Address) × (r : Route) × IsLooked rib root a
      × Memᴰ r (lookup a rib)
      × (is_recursive r ≡ false)
      × (((has_ip a (w.node n) ≡ true) × (h ≡ ipnh n 0 n 0))
          ⊎ ((has_ip a (w.node n) ≡ false)
              × (get_ipnh w n r.egress_intf a ≡ some h)
              × ((h.l3_node == 0) ≡ false)))

  abbrev OutcomeAll : Outcome → Type 0
  OutcomeAll out_of_fuel = Unit
  OutcomeAll threw = Unit
  OutcomeAll (found hops seen) = All IsHop hops

  abbrev OptionAll : Option (List FibIpnh) → Type 0
  OptionAll none = Unit
  OptionAll (some hops) = All IsHop hops

  with_hop-IsHop :
      (r : Route) (dst : IPv4Address) (hops : List FibIpnh) (o : Option FibIpnh)
      → get_ipnh w n r.egress_intf dst ≡ o
      → IsLooked rib root dst
      → Memᴰ r (lookup dst rib)
      → is_recursive r ≡ false
      → has_ip dst (w.node n) ≡ false
      → All IsHop hops
      → OptionAll (with_hop o hops)
  with_hop-IsHop r dst hops none e l m c i h = tt
  with_hop-IsHop r dst hops (some x) e l m c i h = elim (Bool-cases (x.l3_node == 0)) [
    | inl z ↦ rw z h
    | inr z ↦ rw z (All-set_insert IsHop precedes x hops (dst, r, l, m, c, inr (i, e, z)) h)
  ]

  connected_hop-IsHop :
      (r : Route) (dst : IPv4Address) (hops : List FibIpnh)
      → IsLooked rib root dst
      → Memᴰ r (lookup dst rib)
      → is_recursive r ≡ false
      → All IsHop hops
      → OptionAll (connected_hop w n r dst hops)
  unfolding connected_hop
  connected_hop-IsHop r dst hops l m c h = elim (Bool-cases (has_ip dst (w.node n))) [
    | inl e ↦
        rw e (All-set_insert IsHop precedes (ipnh n 0 n 0) hops (dst, r, l, m, c, inl (e, refl)) h)
    | inr e ↦ rw e (with_hop-IsHop r dst hops (get_ipnh w n r.egress_intf dst) refl l m c e h)
  ]

  module _ (again : IPv4Address → List IPv4Address → Outcome) (dst : IPv4Address) where
    after_again :
        (rs : List Route) (hops : List FibIpnh) (o : Outcome)
        → All IsHop hops
        → OutcomeAll o
        → ((more : List FibIpnh) (s : List IPv4Address)
            → All IsHop more
            → OutcomeAll (collect_hops w again n dst rs more s))
        → OutcomeAll (elim o [
          | out_of_fuel ↦ out_of_fuel
          | threw ↦ threw
          | found more s ↦ collect_hops w again n dst rs (set_union precedes more hops) s
        ])
    after_again rs hops out_of_fuel h k rest = tt
    after_again rs hops threw h k rest = tt
    after_again rs hops (found more s) h k rest =
        rest (set_union precedes more hops) s (All-set_union IsHop precedes more hops k h)

    after_hop :
        (rs : List Route) (seen : List IPv4Address) (o : Option (List FibIpnh))
        → OptionAll o
        → ((more : List FibIpnh) (s : List IPv4Address)
            → All IsHop more
            → OutcomeAll (collect_hops w again n dst rs more s))
        → OutcomeAll (elim o [ none ↦ threw | some more ↦ collect_hops w again n dst rs more seen ])
    after_hop rs seen none k rest = tt
    after_hop rs seen (some more) k rest = rest more seen k

    collect_hops-IsHop :
        ((a : IPv4Address) (s : List IPv4Address) → IsLooked rib root a → OutcomeAll (again a s))
        → IsLooked rib root dst
        → (rs : List Route) (hops : List FibIpnh) (seen : List IPv4Address)
        → All (λ r. Memᴰ r (lookup dst rib)) rs
        → All IsHop hops
        → OutcomeAll (collect_hops w again n dst rs hops seen)
    unfolding collect_hops
    collect_hops-IsHop ih l [] hops seen m h = h
    collect_hops-IsHop ih l (r ∷ rs) hops seen m h =
        let rest : (more : List FibIpnh) (s : List IPv4Address)
            → All IsHop more
            → OutcomeAll (collect_hops w again n dst rs more s) =
          λ more s k. collect_hops-IsHop ih l rs more s m.1 k in
        elim (Bool-cases (is_recursive r)) [
          | inl e ↦ rw e (
              after_again rs hops (again r.next_hop seen) h
                (ih r.next_hop seen (IsLooked.recursed r l m.0 e)) rest)
          | inr e ↦ rw e (
              after_hop rs seen (connected_hop w n r dst hops)
                (connected_hop-IsHop r dst hops l m.0 e h) rest)
        ]

  get_ipnhs-OutcomeAll :
      (fuel : ℕ) (dst : IPv4Address) (seen : List IPv4Address)
      → IsLooked rib root dst
      → OutcomeAll (get_ipnhs w fuel n rib dst seen)
  unfolding get_ipnhs
  get_ipnhs-OutcomeAll zero dst seen l = tt
  get_ipnhs-OutcomeAll (suc fuel) dst seen l = elim (Bool-cases (elem dst seen)) [
    | inl e ↦ rw e tt
    | inr e ↦ rw e (
        collect_hops-IsHop (get_ipnhs w fuel n rib) dst (get_ipnhs-OutcomeAll fuel) l
          (lookup dst rib) [] (dst ∷ seen) (All-Memᴰ (lookup dst rib)) tt)
  ]

  -- Every next hop that is found for an address comes from a connected route that is given by the
  -- lookup of the address, or of the next hop of a recursive route that a lookup before gave. It is the
  -- node itself if the node has the address that is looked up, and otherwise the hop that `get_ipnh`
  -- gives on the interface of the route, which has a node.
  pub get_ipnhs-IsHop :
      (fuel : ℕ) (seen after : List IPv4Address) (hops : List FibIpnh)
      → get_ipnhs w fuel n rib root seen ≡ found hops after
      → All IsHop hops
  get_ipnhs-IsHop fuel seen after hops e =
      subst OutcomeAll e (get_ipnhs-OutcomeAll fuel root seen IsLooked.asked)
