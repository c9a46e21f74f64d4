-- ===== src/Routing/Route.antt =====
-- src/route.cpp: a route to a network.
use Prim.Native.String.{String}
use text.Mathlib.Text.{◌==◌ as str_eq}
use neo.Base.{
  ℕ, Bool, true, false, not, ◌&&◌, ltb, leb, ◌==◌, [], ◌∷◌, Option, none, some, if◌then◌else◌,
}
use neo.Ip.Address.{IPv4Address}
use neo.Ip.Network.{IpInterface, contains_range, same_network}
use neo.Ec.Class.{EqClass}

-- `adm_dist` is an int that is never negative in a configuration.
pub record Route : Type 0 where
  pub network : IpInterface
  pub next_hop : IPv4Address
  pub egress_intf : String
  pub adm_dist : ℕ

-- No egress interface is the empty name.
abbrev pub is_recursive : Route → Bool
is_recursive r = str_eq r.egress_intf ""

unfoldable pub has_same_path : Route → Route → Bool
has_same_path r other =
    if is_recursive r
    then same_network r.network other.network && r.next_hop == other.next_hop
    else same_network r.network other.network && str_eq r.egress_intf other.egress_intf

-- The rounds of the loop after the first; `none` is the logged error "Route splits an EC".
unfoldable pub relevant_rest : IpInterface → Bool → EqClass → Option Bool
relevant_rest net full [] = some full
relevant_rest net full (r ∷ rs) =
    let rest = relevant_rest net full rs in
    let here = contains_range net r.lb r.ub in
    if (if here then full else not full) then rest else none

unfoldable pub relevant_to_ec : Route → EqClass → Option Bool
unfolding relevant_rest
relevant_to_ec r [] = some false
relevant_to_ec r (s ∷ ss) = relevant_rest r.network (contains_range r.network s.lb s.ub) ss

-- The operators `<`, `<=`, `>` and `>=`.
abbrev pub lt : Route → Route → Bool
lt a b =
    if ltb b.network.prefix a.network.prefix
    then true
    else if ltb a.network.prefix b.network.prefix
    then false
    else ltb a.network.value b.network.value

abbrev pub le : Route → Route → Bool
le a b =
    if ltb b.network.prefix a.network.prefix
    then true
    else if ltb a.network.prefix b.network.prefix
    then false
    else leb a.network.value b.network.value

abbrev pub gt : Route → Route → Bool
gt a b =
    if ltb b.network.prefix a.network.prefix
    then false
    else if ltb a.network.prefix b.network.prefix
    then true
    else ltb b.network.value a.network.value

abbrev pub ge : Route → Route → Bool
ge a b =
    if ltb b.network.prefix a.network.prefix
    then false
    else if ltb a.network.prefix b.network.prefix
    then true
    else leb b.network.value a.network.value

-- `operator==`: the same destination.
abbrev pub same_dst : Route → Route → Bool
same_dst a b = a.network.value == b.network.value && a.network.prefix == b.network.prefix
