-- ===== src/Ec/Mgr/Inv.antt =====
-- src/eqclassmgr.cpp: what holds of the manager between two calls.
use neo.Base.{
  ℕ, suc, ◌+◌, ◌≤◌, ◌≡◌, refl, inl, inr, Bool, false, ◌&&◌, ◌==◌, [], ◌∷◌, none, some, any, arith,
  if◌then◌else◌,
}
use neo.Ip.Address.{IPv4Address}
use neo.Ec.Range.{EcRange, EcPtr, contains}
use neo.Ec.RangeSet.{RangeSet, owner}
use neo.Ec.RangeSet.Laws.{Ascends, In}
use neo.Ec.RangeSet.Owner.{owner_below}
use neo.Ec.RangeSet.Parts.{of_class, Bounded}
use neo.Ec.Mgr.{EqClassMgr, deref}
use neo.Ec.Mgr.Heap.{KeysBelow}

-- The ranges are disjoint and in order, and each class has exactly the ranges that name it.
pub record IsValid (m : EqClassMgr) : Type 0 where
  pub ascends : Ascends 0 m.allranges
  pub bounded : Bounded m.next m.allranges
  pub keys : KeysBelow m.next m.all_ecs
  pub classes : (e : EcPtr) → deref e m.all_ecs ≡ of_class e m.allranges

-- The class `e` holds the address.
abbrev pub owns : EcPtr → IPv4Address → RangeSet → Bool
owns e a rs = elim (owner a rs) [ none ↦ false | some x ↦ x == e ]

pub any-of_class :
    (lo : ℕ) (e : EcPtr) (a : IPv4Address) (rs : RangeSet)
    → Ascends lo rs
    → any (λ r. contains r a) (of_class e rs) ≡ owns e a rs
unfolding owner
any-of_class lo e a [] v = refl
any-of_class lo e a (s ∷ rs) v =
    ground (arith, any-of_class (s.ub + 1) e a rs v.2, owner_below (s.ub + 1) a rs)

pub In-of_class :
    (lo : ℕ) (e : EcPtr) (r : EcRange) (rs : RangeSet) → In r rs → r.ec ≡ e → In r (of_class e rs)
In-of_class lo e r [] h p = absurd h
In-of_class lo e r (s ∷ rs) (inl q) p = ground arith
In-of_class lo e r (s ∷ rs) (inr h) p = ground (arith, In-of_class lo e r rs h p)

-- A class that is new has no ranges yet.
pub of_class_new : (n x : EcPtr) (rs : RangeSet) → Bounded n rs → n ≤ x → of_class x rs ≡ []
of_class_new n x [] v h = refl
of_class_new n x (s ∷ rs) v h = ground (arith, of_class_new n x rs v.2 h)

-- After a split the addresses of the class in the new range have a new class, and no other
-- address has another class than before.
pub record IsSplit (e : EcPtr) (range : EcRange) (m m' : EqClassMgr) : Type 0 where
  pub valid : IsValid m'
  pub next_eq : m'.next ≡ suc m.next
  pub owners :
      (a : IPv4Address)
      → owner a m'.allranges
        ≡ (if owns e a m.allranges && contains range a then some m.next else owner a m.allranges)
