-- ===== src/Ec/RangeSet/Owner.antt =====
-- The class that holds an address, after insertions and removals.
use neo.Base.{
  ℕ, ◌+◌, ◌<◌, ◌≡◌, refl, inl, inr, true, [], ◌∷◌, none, some, arith, Bool-cases, if◌then◌else◌,
}
use neo.Ip.Address.{IPv4Address}
use neo.Ec.Range.{EcRange, EcPtr, contains}
use neo.Ec.RangeSet.{RangeSet, insert, erase, owner}
use neo.Ec.RangeSet.Laws.{Ascends, Apart, In, In-bounds, Apart-of_below, erase_noop}

pub owner_below :
    (lo : ℕ) (a : IPv4Address) (rs : RangeSet) → a < lo → Ascends lo rs → owner a rs ≡ none
unfolding owner
owner_below lo a [] h v = refl
owner_below lo a (s ∷ rs) h v = ground (arith, owner_below (s.ub + 1) a rs (omega arith) v.2)

-- A range that overlaps nothing takes its addresses.
pub owner-insert :
    (a : IPv4Address) (r : EcRange) (rs : RangeSet)
    → Apart r rs
    → owner a (insert r rs) ≡ (if contains r a then some r.ec else owner a rs)
unfolding owner insert
owner-insert a r [] h = refl
owner-insert a r (s ∷ rs) h = ground (arith, owner-insert a r rs h.1)

-- An element that goes gives up its addresses, and no other.
pub owner-erase :
    (lo : ℕ) (a : IPv4Address) (r : EcRange) (rs : RangeSet)
    → Ascends lo rs
    → In r rs
    → owner a (erase r rs) ≡ (if contains r a then none else owner a rs)
unfolding owner erase
owner-erase lo a r [] v h = absurd h
owner-erase lo a r (s ∷ rs) v (inl e) = ground (
  arith,
  erase_noop r rs (Apart-of_below (s.ub + 1) r rs (ground arith) v.2),
  owner_below (s.ub + 1) a rs,
)
owner-erase lo a r (s ∷ rs) v (inr h) =
    ground (arith, owner-erase (s.ub + 1) a r rs v.2 h, In-bounds (s.ub + 1) r rs v.2 h)

-- The addresses of an element belong to its class.
pub owner_of_In :
    (lo : ℕ) (a : IPv4Address) (r : EcRange) (rs : RangeSet)
    → Ascends lo rs
    → In r rs
    → contains r a ≡ true
    → owner a rs ≡ some r.ec
unfolding owner
owner_of_In lo a r [] v h e = absurd h
owner_of_In lo a r (s ∷ rs) v (inl p) e = ground arith
owner_of_In lo a r (s ∷ rs) v (inr h) e =
    ground (arith, owner_of_In (s.ub + 1) a r rs v.2 h e, In-bounds (s.ub + 1) r rs v.2 h)

-- An owned address lies in an element of its class.
pub In-of_owner :
    (a : IPv4Address) (rs : RangeSet) (e : EcPtr)
    → owner a rs ≡ some e
    → (r : EcRange) × In r rs × (contains r a ≡ true) × (r.ec ≡ e)
unfolding owner
In-of_owner a [] e h = cc
In-of_owner a (s ∷ rs) e h = elim (Bool-cases (contains s a)) [
  | inl here ↦ (s, inl refl, here, ground arith)
  | inr on ↦ let (r, i, c, q) = In-of_owner a rs e (ground arith) in (r, inr i, c, q)
]
