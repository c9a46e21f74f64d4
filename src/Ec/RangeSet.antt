-- ===== src/Ec/RangeSet.antt =====
-- What src/eqclass.cpp and src/eqclassmgr.cpp use of std::set<ECRange>. The set is its elements in
-- order; its comparison is `operator<` on ranges, under which ranges that overlap are equivalent.
pub mod Laws
pub mod Owner
pub mod Parts
pub mod Search
use neo.Base.{
  ℕ, suc, ◌+◌, Bool, true, false, not, List, [], ◌∷◌, Option, none, some, if◌then◌else◌, keep,
}
use neo.Ip.Address.{IPv4Address}
use neo.Ec.Range.{EcRange, EcPtr, lt, overlaps, contains}

abbrev pub RangeSet : Type 0
RangeSet = List EcRange

-- `insert`: nothing happens if an equivalent element is there.
unfoldable pub insert : EcRange → RangeSet → RangeSet
insert r [] = r ∷ []
insert r (s ∷ rs) =
    let rest = insert r rs in if lt r s then r ∷ s ∷ rs else if lt s r then s ∷ rest else s ∷ rs

-- `erase`: every equivalent element goes.
unfoldable pub erase : EcRange → RangeSet → RangeSet
erase r [] = []
erase r (s ∷ rs) = let rest = erase r rs in if overlaps s r then rest else s ∷ rest

-- The set from its first element that is not before `r` on: where `find`, or a loop that skips the
-- ranges which do not overlap `r`, stops if there is an equivalent element, and `[]` otherwise.
unfoldable pub from_overlap : EcRange → RangeSet → RangeSet
from_overlap r [] = []
from_overlap r (s ∷ rs) = let rest = from_overlap r rs in if overlaps s r then s ∷ rs else rest

-- The elements before that place, the last one first.
unfoldable pub before_overlap : RangeSet → EcRange → RangeSet → RangeSet
before_overlap seen r [] = []
before_overlap seen r (s ∷ rs) =
    let rest = before_overlap (s ∷ seen) r rs in if overlaps s r then seen else rest

-- A loop that goes on while the ranges overlap `r`.
unfoldable pub while_overlap : EcRange → RangeSet → RangeSet
while_overlap r [] = []
while_overlap r (s ∷ rs) = let rest = while_overlap r rs in if overlaps s r then s ∷ rest else []

-- `find`.
unfoldable pub find : EcRange → RangeSet → Option EcRange
find r [] = none
find r (s ∷ rs) = let rest = find r rs in if overlaps s r then some s else rest

-- The class whose range holds an address.
unfoldable pub owner : IPv4Address → RangeSet → Option EcPtr
owner a [] = none
owner a (s ∷ rs) = let rest = owner a rs in if contains s a then some s.ec else rest
