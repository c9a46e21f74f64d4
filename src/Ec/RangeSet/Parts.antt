-- ===== src/Ec/RangeSet/Parts.antt =====
-- Ranges beside one another: what stays apart, and what stays in, when others come and go.
use neo.Base.{ℕ, ◌+◌, ◌≤◌, ◌<◌, ◌≡◌, ◌≢◌, inl, inr, Bool, true, false, [], ◌∷◌, keep, ◌==◌, arith}
use neo.Ip.Address.{u32_mod}
use neo.Ec.Range.{EcRange, EcPtr, overlaps}
use neo.Ec.RangeSet.{RangeSet, insert, erase}
use neo.Ec.RangeSet.Laws.{Ascends, Apart, In, In-bounds, Apart-of_below, keep-Ascends}

-- The ranges that belong to a class.
abbrev pub of_class : EcPtr → RangeSet → RangeSet
of_class e rs = keep (λ r. r.ec == e) rs

pub erase-Apart : (r : EcRange) (rs : RangeSet) → Apart r (erase r rs)
unfolding erase
erase-Apart r [] = tt
erase-Apart r (s ∷ rs) = ground (arith, erase-Apart r rs)

pub Apart-part :
    (r p : EcRange) (rs : RangeSet) → r.lb ≤ p.lb → p.ub ≤ r.ub → Apart r rs → Apart p rs
Apart-part r p [] h k v = tt
Apart-part r p (s ∷ rs) h k v = (ground arith, Apart-part r p rs h k v.1)

pub Apart-insert :
    (p q : EcRange) (rs : RangeSet) → overlaps q p ≡ false → Apart p rs → Apart p (insert q rs)
unfolding insert
Apart-insert p q [] e v = (e, tt)
Apart-insert p q (s ∷ rs) e v = ground (arith, Apart-insert p q rs e v.1)

pub In-insert : (q p : EcRange) (rs : RangeSet) → In q rs → In q (insert p rs)
unfolding insert
In-insert q p [] h = absurd h
In-insert q p (s ∷ rs) (inl e) = ground arith
In-insert q p (s ∷ rs) (inr h) = ground (arith, In-insert q p rs h)

pub In-erase : (q r : EcRange) (rs : RangeSet) → overlaps q r ≡ false → In q rs → In q (erase r rs)
unfolding erase
In-erase q r [] e h = absurd h
In-erase q r (s ∷ rs) e (inl p) = ground arith
In-erase q r (s ∷ rs) e (inr h) = ground (arith, In-erase q r rs e h)

pub In-keep :
    (q : EcRange) (p : EcRange → Bool) (rs : RangeSet) → In q (keep p rs) → In q rs × (p q ≡ true)
In-keep q p [] h = absurd h
In-keep q p (s ∷ rs) h = ground (arith, In-keep q p rs)

-- An element is apart from the ranges of the other classes.
pub Apart-of_class :
    (lo : ℕ) (r : EcRange) (x : EcPtr) (rs : RangeSet)
    → Ascends lo rs
    → In r rs
    → r.ec ≢ x
    → Apart r (of_class x rs)
Apart-of_class lo r x [] v h ne = absurd h
Apart-of_class lo r x (s ∷ rs) v (inl e) ne =
    let tail : Apart r (of_class x rs) =
      Apart-of_below (s.ub + 1) r (of_class x rs) (ground arith)
        (keep-Ascends (s.ub + 1) (λ q. q.ec == x) rs v.2) in
    ground (arith, tail)
Apart-of_class lo r x (s ∷ rs) v (inr h) ne =
    ground (arith, Apart-of_class (s.ub + 1) r x rs v.2 h ne, In-bounds (s.ub + 1) r rs v.2 h)

-- The bounds fit 32 bits, and the classes are older than the pointer `k`.
abbrev pub Bounded : EcPtr → RangeSet → Type 0
Bounded k [] = Unit
Bounded k (r ∷ rs) = (r.ub < u32_mod) × (r.ec < k) × Bounded k rs

pub insert-Bounded :
    (k : EcPtr) (p : EcRange) (rs : RangeSet)
    → p.ub < u32_mod
    → p.ec < k
    → Bounded k rs
    → Bounded k (insert p rs)
unfolding insert
insert-Bounded k p [] b h v = (b, h, tt)
insert-Bounded k p (s ∷ rs) b h v = ground (arith, insert-Bounded k p rs b h v.2)

pub erase-Bounded :
    (k : EcPtr) (r : EcRange) (rs : RangeSet) → Bounded k rs → Bounded k (erase r rs)
unfolding erase
erase-Bounded k r [] v = tt
erase-Bounded k r (s ∷ rs) v = ground (arith, erase-Bounded k r rs v.2)

pub Bounded-weaken : (k l : EcPtr) (rs : RangeSet) → k ≤ l → Bounded k rs → Bounded l rs
Bounded-weaken k l [] h v = tt
Bounded-weaken k l (r ∷ rs) h v = (v.0, omega arith, Bounded-weaken k l rs h v.2)

pub Bounded-In :
    (k : EcPtr) (r : EcRange) (rs : RangeSet)
    → Bounded k rs
    → In r rs
    → (r.ub < u32_mod) × (r.ec < k)
Bounded-In k r [] v i = absurd i
Bounded-In k r (s ∷ rs) v (inl e) = ground arith
Bounded-In k r (s ∷ rs) v (inr i) = Bounded-In k r rs v.2 i
