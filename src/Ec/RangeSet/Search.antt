-- ===== src/Ec/RangeSet/Search.antt =====
-- The searches and loops over the ordered ranges: the overlapping ranges are contiguous.
use neo.Base.{ℕ, ◌+◌, ◌≤◌, ◌<◌, ◌≡◌, refl, [], ◌∷◌, none, keep, arith}
use mathlib.Core.Option
use neo.Ip.Address.{IPv4Address}
use neo.Ec.Range.{EcRange, overlaps}
use neo.Ec.RangeSet.{RangeSet, from_overlap, before_overlap, while_overlap, find, owner}
use neo.Ec.RangeSet.Laws.{Ascends}

-- The ranges that overlap a range.
abbrev pub overlapping : EcRange → RangeSet → RangeSet
overlapping r rs = keep (λ s. overlaps s r) rs

-- Past the end of the range nothing overlaps.
overlapping_past :
    (lo : ℕ) (r : EcRange) (rs : RangeSet) → r.ub < lo → Ascends lo rs → overlapping r rs ≡ []
overlapping_past lo r [] h v = refl
overlapping_past lo r (s ∷ rs) h v =
    ground (arith, overlapping_past (s.ub + 1) r rs (omega arith) v.2)

-- After an overlapping element, a loop that goes on while ranges overlap meets all that do.
while_overlap_lem :
    (lo : ℕ) (r : EcRange) (rs : RangeSet)
    → r.lb < lo
    → Ascends lo rs
    → while_overlap r rs ≡ overlapping r rs
unfolding while_overlap
while_overlap_lem lo r [] h v = refl
while_overlap_lem lo r (s ∷ rs) h v =
    ground
      (arith, while_overlap_lem (s.ub + 1) r rs (omega arith) v.2, overlapping_past (s.ub + 1) r rs)

-- The loop from the first overlapping element on.
pub while_overlap-from_overlap :
    (lo : ℕ) (r : EcRange) (rs : RangeSet)
    → r.lb ≤ r.ub
    → Ascends lo rs
    → while_overlap r (from_overlap r rs) ≡ overlapping r rs
unfolding while_overlap from_overlap
while_overlap-from_overlap lo r [] h v = refl
while_overlap-from_overlap lo r (s ∷ rs) h v = ground (
  arith,
  while_overlap-from_overlap (s.ub + 1) r rs h v.2,
  while_overlap_lem (s.ub + 1) r rs,
  overlapping_past (s.ub + 1) r rs,
)

-- The loop down from the first overlapping element stops at once.
pub while_overlap-before_overlap :
    (seen : RangeSet) (r : EcRange) (rs : RangeSet)
    → while_overlap r seen ≡ []
    → while_overlap r (before_overlap seen r rs) ≡ []
unfolding before_overlap while_overlap
while_overlap-before_overlap seen r [] h = refl
while_overlap-before_overlap seen r (s ∷ rs) h =
    ground (arith, while_overlap-before_overlap (s ∷ seen) r rs)

pub find-none : (r : EcRange) (rs : RangeSet) → find r rs ≡ none → overlapping r rs ≡ []
unfolding find
find-none r [] h = refl
find-none r (s ∷ rs) h = ground (arith, find-none r rs)

-- Looking up a single address finds the range that holds it.
pub find_point :
    (lo : ℕ) (p : EcRange) (a : IPv4Address) (rs : RangeSet)
    → p.lb ≡ a
    → p.ub ≡ a
    → Option.map (λ s. s.ec) (find p rs) ≡ owner a rs
unfolding find owner
find_point lo p a [] h k = refl
find_point lo p a (s ∷ rs) h k = ground (arith, find_point lo p a rs h k)
