-- ===== src/Ec/Range.antt =====
-- src/ecrange.hpp and src/ecrange.cpp: a range of addresses with the class that it belongs to.
use neo.Base.{ℕ, Bool, not, ◌&&◌, ◌||◌, ltb, leb, ◌==◌, Option, none, some, if◌then◌else◌}
use neo.Ip.Address.{IPv4Address}
use neo.Ip.Network.{IpInterface, network_addr, broadcast_addr}

-- A pointer to a class is its number; `nullptr` is 0.
abbrev pub EcPtr : Type 0
EcPtr = ℕ

abbrev pub nullptr : EcPtr
nullptr = 0

pub record EcRange : Type 0 where
  pub lb : IPv4Address
  pub ub : IPv4Address
  pub ec : EcPtr

-- The constructors; that from two addresses logs an error if they are out of order.
unfoldable pub make_range : IPv4Address → IPv4Address → Option EcRange
make_range lb ub = if ltb ub lb then none else some (record { lb = lb; ub = ub; ec = nullptr })

unfoldable pub of_network : IpInterface → EcRange
of_network net = record { lb = network_addr net; ub = broadcast_addr net; ec = nullptr }

abbrev pub set_ec : EcPtr → EcRange → EcRange
set_ec ec r = record r { ec = ec }

abbrev pub set_lb : IPv4Address → EcRange → EcRange
set_lb lb r = record r { lb = lb }

abbrev pub set_ub : IPv4Address → EcRange → EcRange
set_ub ub r = record r { ub = ub }

abbrev pub identical_to : EcRange → EcRange → Bool
identical_to r s = r.lb == s.lb && r.ub == s.ub

abbrev pub contains : EcRange → IPv4Address → Bool
contains r addr = leb r.lb addr && leb addr r.ub

abbrev pub contains_range : EcRange → EcRange → Bool
contains_range r s = leb r.lb s.lb && leb s.ub r.ub

-- The operators `<`, `>`, `<=`, `>=` and `==`; the last says that the ranges overlap.
abbrev pub lt : EcRange → EcRange → Bool
lt a b = ltb a.ub b.lb

abbrev pub gt : EcRange → EcRange → Bool
gt a b = ltb b.ub a.lb

abbrev pub le : EcRange → EcRange → Bool
le a b = not (gt a b)

abbrev pub ge : EcRange → EcRange → Bool
ge a b = not (lt a b)

abbrev pub overlaps : EcRange → EcRange → Bool
overlaps a b = le a b && ge a b

-- `operator!=`.
abbrev pub disjoint : EcRange → EcRange → Bool
disjoint a b = lt a b || gt a b
