-- ===== src/Ec/RangeSet/Laws.antt =====
-- The ordered sets of ranges that std::set keeps: insertion and removal keep the order.
use neo.Base.{ℕ, ◌+◌, ◌≤◌, ◌<◌, ◌≡◌, refl, ◌⊎◌, inl, inr, Bool, true, false, [], ◌∷◌, keep, arith}
use neo.Ec.Range.{EcRange, overlaps}
use neo.Ec.RangeSet.{RangeSet, insert, erase}

-- The ranges are not empty, ascend from `lo` and do not overlap.
abbrev pub Ascends : ℕ → RangeSet → Type 0
Ascends lo [] = Unit
Ascends lo (r ∷ rs) = (lo ≤ r.lb) × (r.lb ≤ r.ub) × Ascends (r.ub + 1) rs

-- The range overlaps none of the set.
abbrev pub Apart : EcRange → RangeSet → Type 0
Apart r [] = Unit
Apart r (s ∷ rs) = (overlaps s r ≡ false) × Apart r rs

abbrev pub In : EcRange → RangeSet → Type 0
In r [] = ⊥
In r (s ∷ rs) = (r ≡ s) ⊎ In r rs

pub Ascends-weaken : (lo hi : ℕ) (rs : RangeSet) → hi ≤ lo → Ascends lo rs → Ascends hi rs
Ascends-weaken lo hi [] h v = tt
Ascends-weaken lo hi (r ∷ rs) h v = (omega arith, v.1, v.2)

pub insert-Ascends :
    (lo : ℕ) (r : EcRange) (rs : RangeSet)
    → lo ≤ r.lb
    → r.lb ≤ r.ub
    → Ascends lo rs
    → Ascends lo (insert r rs)
unfolding insert
insert-Ascends lo r [] h e v = (h, e, tt)
insert-Ascends lo r (s ∷ rs) h e v = ground (arith, insert-Ascends (s.ub + 1) r rs)

pub erase-Ascends : (lo : ℕ) (r : EcRange) (rs : RangeSet) → Ascends lo rs → Ascends lo (erase r rs)
unfolding erase
erase-Ascends lo r [] v = tt
erase-Ascends lo r (s ∷ rs) v =
    ground (arith, erase-Ascends (s.ub + 1) r rs v.2, Ascends-weaken (s.ub + 1) lo (erase r rs))

pub keep-Ascends :
    (lo : ℕ) (p : EcRange → Bool) (rs : RangeSet) → Ascends lo rs → Ascends lo (keep p rs)
keep-Ascends lo p [] v = tt
keep-Ascends lo p (s ∷ rs) v =
    ground (arith, keep-Ascends (s.ub + 1) p rs v.2, Ascends-weaken (s.ub + 1) lo (keep p rs))

-- A range below the whole set overlaps nothing in it, and goes to the front.
pub Apart-of_below : (lo : ℕ) (r : EcRange) (rs : RangeSet) → r.ub < lo → Ascends lo rs → Apart r rs
Apart-of_below lo r [] h v = tt
Apart-of_below lo r (s ∷ rs) h v = (ground arith, Apart-of_below (s.ub + 1) r rs (omega arith) v.2)

pub insert_front :
    (lo : ℕ) (r : EcRange) (rs : RangeSet) → r.ub < lo → Ascends lo rs → insert r rs ≡ r ∷ rs
unfolding insert
insert_front lo r [] h v = refl
insert_front lo r (s ∷ rs) h v = ground arith

pub erase_noop : (r : EcRange) (rs : RangeSet) → Apart r rs → erase r rs ≡ rs
unfolding erase
erase_noop r [] h = refl
erase_noop r (s ∷ rs) h = ground (arith, erase_noop r rs h.1)

pub In-bounds :
    (lo : ℕ) (r : EcRange) (rs : RangeSet) → Ascends lo rs → In r rs → (lo ≤ r.lb) × (r.lb ≤ r.ub)
In-bounds lo r [] v h = absurd h
In-bounds lo r (s ∷ rs) v (inl e) = ground arith
In-bounds lo r (s ∷ rs) v (inr h) = omega (arith, In-bounds (s.ub + 1) r rs v.2 h)

-- Selecting ranges commutes with the operations of the set.
pub keep-insert :
    (lo : ℕ) (p : EcRange → Bool) (r : EcRange) (rs : RangeSet)
    → Ascends lo rs
    → p r ≡ true
    → Apart r rs
    → keep p (insert r rs) ≡ insert r (keep p rs)
unfolding insert
keep-insert lo p r [] v e h = ground arith
keep-insert lo p r (s ∷ rs) v e h = ground (
  arith,
  keep-insert (s.ub + 1) p r rs v.2 e h.1,
  insert_front (s.ub + 1) r (keep p rs),
  keep-Ascends (s.ub + 1) p rs v.2,
)

pub keep-insert_dropped :
    (p : EcRange → Bool) (r : EcRange) (rs : RangeSet)
    → p r ≡ false
    → keep p (insert r rs) ≡ keep p rs
unfolding insert
keep-insert_dropped p r [] e = ground arith
keep-insert_dropped p r (s ∷ rs) e = ground (arith, keep-insert_dropped p r rs e)

pub keep-erase :
    (p : EcRange → Bool) (r : EcRange) (rs : RangeSet) → keep p (erase r rs) ≡ erase r (keep p rs)
unfolding erase
keep-erase p r [] = refl
keep-erase p r (s ∷ rs) = ground (arith, keep-erase p r rs)
