-- ===== src/Routing/Table.antt =====
-- src/routingtable.cpp: the routing table, a std::multiset in the order of the routes.
pub mod Order
pub mod Lookup
pub mod Served
use neo.Base.{
  ℕ, suc, Bool, true, false, not, ◌&&◌, ltb, leb, ◌==◌, List, [], ◌∷◌, Option, none, some, keep,
  any, length, if◌then◌else◌,
}
use neo.Ip.Address.{IPv4Address}
use neo.Ip.Network.{IpInterface, contains}
use neo.Routing.Route.{Route, lt, has_same_path}

abbrev pub RoutingTable : Type 0
RoutingTable = List Route

-- Neither route precedes the other.
abbrev pub equivalent : Route → Route → Bool
equivalent a b = not (lt a b) && not (lt b a)

-- `std::multiset::insert`: behind the equivalent elements.
unfoldable pub multiset_insert : Route → RoutingTable → RoutingTable
multiset_insert r [] = r ∷ []
multiset_insert r (s ∷ rs) =
    let rest = multiset_insert r rs in if lt r s then r ∷ s ∷ rs else s ∷ rest

-- `equal_range`: the elements from its first iterator to its second.
abbrev pub equal_range : Route → RoutingTable → RoutingTable
equal_range r tbl = keep (λ s. equivalent s r) tbl

-- `erase` of a key, or of an equal range.
abbrev pub erase : Route → RoutingTable → RoutingTable
erase r tbl = keep (λ s. not (equivalent s r)) tbl

-- `insert` with the equal range at hand: a better administrative distance replaces, a worse one
-- is ignored, and the same path is not stored twice.
unfoldable pub insert_at : RoutingTable → Route → RoutingTable → RoutingTable
unfolding has_same_path
insert_at [] route tbl = multiset_insert route tbl
insert_at (first ∷ others) route tbl =
    if ltb first.adm_dist route.adm_dist
    then tbl
    else if ltb route.adm_dist first.adm_dist
    then multiset_insert route (erase route tbl)
    else if any (λ s. has_same_path s route) (first ∷ others)
    then tbl
    else multiset_insert route tbl

unfoldable pub insert : Route → RoutingTable → RoutingTable
insert route tbl = insert_at (equal_range route tbl) route tbl

unfoldable pub update : Route → RoutingTable → RoutingTable
update route tbl = multiset_insert route (erase route tbl)

-- The route that `lookup` and `count` build for a network.
abbrev pub route_of : IpInterface → Route
route_of net = record { network = net; next_hop = 0; egress_intf = ""; adm_dist = 255 }

abbrev pub lookup_network : IpInterface → RoutingTable → RoutingTable
lookup_network net tbl = equal_range (route_of net) tbl

-- The loop of `lookup` stops at the first route whose network contains the address.
unfoldable pub first_match : IPv4Address → RoutingTable → Option Route
first_match dst [] = none
first_match dst (r ∷ rs) =
    let rest = first_match dst rs in if contains r.network dst then some r else rest

-- `lookup(const IPv4Address &)`: the routes of the returned range.
unfoldable pub lookup : IPv4Address → RoutingTable → RoutingTable
unfolding first_match
lookup dst tbl = elim (first_match dst tbl) [ none ↦ [] | some r ↦ equal_range r tbl ]

abbrev pub count_network : IpInterface → RoutingTable → ℕ
count_network net tbl = length (lookup_network net tbl)
