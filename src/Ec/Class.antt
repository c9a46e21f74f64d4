-- ===== src/Ec/Class.antt =====
-- src/eqclass.cpp: an equivalence class is an ordered set of disjoint ranges.
pub mod Bounds
use neo.Base.{
  ℕ, zero, suc, Bool, true, false, ◌&&◌, ◌==◌, List, [], ◌∷◌, Option, none, some, length, any,
  if◌then◌else◌,
}
use neo.Ip.Address.{IPv4Address}
use neo.Ec.Range.{EcRange, contains, contains_range, identical_to}
use neo.Ec.RangeSet.{RangeSet, insert, erase}
use neo.Ec.Range

abbrev pub EqClass : Type 0
EqClass = RangeSet

unfoldable pub empty : EqClass → Bool
empty [] = true
empty (r ∷ rs) = false

abbrev pub add_range : EcRange → EqClass → EqClass
add_range r ranges = insert r ranges

-- The loop of `rm_range`: erase until nothing is erased. Each round but the last shortens the set.
unfoldable pub rm_loop : ℕ → EcRange → EqClass → EqClass
rm_loop zero r ranges = ranges
rm_loop (suc fuel) r ranges =
    let rest = erase r ranges in
    let more = rm_loop fuel r rest in if length rest == length ranges then rest else more

unfoldable pub rm_range : EcRange → EqClass → EqClass
unfolding rm_loop
rm_range r ranges = rm_loop (suc (length ranges)) r ranges

unfoldable pub has_addr : EqClass → IPv4Address → Bool
has_addr ranges addr = any (λ r. contains r addr) ranges

-- `representative_addr()`: the lower bound of the first range; undefined on an empty class.
unfoldable pub representative_addr : EqClass → Option IPv4Address
representative_addr [] = none
representative_addr (r ∷ rs) = some r.lb

-- The upper bound of the last range, `rbegin()->ub`.
unfoldable pub last_ub : EqClass → Option IPv4Address
last_ub [] = none
last_ub (r ∷ []) = some r.ub
last_ub (r ∷ s ∷ rs) = last_ub (s ∷ rs)

-- `ECRange::contains(const EqClass &)`; undefined on an empty class.
unfoldable pub within : EcRange → EqClass → Option Bool
unfolding last_ub representative_addr
within range ec = elim (representative_addr ec) [
  | none ↦ none
  | some first ↦ elim (last_ub ec) [
    | none ↦ none
    | some last ↦ some (contains_range range (record { lb = first; ub = last; ec = Range.nullptr }))
  ]
]

-- `operator==`: the same ranges.
unfoldable pub same_ranges : EqClass → EqClass → Bool
same_ranges [] [] = true
same_ranges (r ∷ rs) (s ∷ ss) = identical_to r s && same_ranges rs ss
same_ranges _ _ = false
