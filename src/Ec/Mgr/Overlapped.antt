-- ===== src/Ec/Mgr/Overlapped.antt =====
-- src/eqclassmgr.cpp: what `add_ec` does to the classes that overlap the new range.
use neo.Base.{
  ◌≤◌, ◌<◌, ◌≡◌, ◌≢◌, ◌↔◌, refl, sym, ap, subst, ◌∙◌, ◌⊎◌, inl, inr, Bool, true, false, ◌==◌, none,
  some, arith, if◌then◌else◌, Bool-cases,
}
use neo.Ip.Address.{IPv4Address}
use neo.Ec.Range.{EcRange, EcPtr, overlaps, contains}
use neo.Ec.RangeSet.{owner}
use neo.Ec.RangeSet.Laws.{Ascends, In, keep-Ascends}
use neo.Ec.RangeSet.Owner.{In-of_owner}
use neo.Ec.RangeSet.Parts.{of_class, Bounded-In}
use neo.Ec.Class.Bounds.{within_lem}
use neo.Ec.Mgr.{EqClassMgr, add_ptr, deref, split_intersected_ec}
use neo.Ec.Mgr.Add.{add_overlapped}
use neo.Ec.Mgr.Inv.{IsValid, IsSplit, In-of_class}
use neo.Ec.Mgr.Cut.{IsProper}
use neo.Ec.Mgr.SplitEc.{split_intersected_ec-IsSplit}

module _ (range : EcRange) where
  -- The class lies in the new range or outside it: its addresses agree.
  abbrev pub Uniform : EcPtr → EqClassMgr → Type 0
  Uniform e m =
      (a b : IPv4Address)
      → owner a m.allranges ≡ some e
      → owner b m.allranges ≡ some e
      → contains range a ≡ contains range b

  -- The class has an address in the new range.
  abbrev pub Touched : EcPtr → EqClassMgr → Type 0
  Touched e m = (a : IPv4Address) × (owner a m.allranges ≡ some e) × (contains range a ≡ true)

-- The classes are those of before, or parts of them; the same addresses are covered.
pub record Refined (m m' : EqClassMgr) : Type 0 where
  pub valid : IsValid m'
  pub covers : (a : IPv4Address) → (owner a m'.allranges ≡ none) ↔ (owner a m.allranges ≡ none)
  pub refines :
      (a b : IPv4Address) (e : EcPtr)
      → owner a m'.allranges ≡ some e
      → owner b m'.allranges ≡ some e
      → owner a m.allranges ≡ owner b m.allranges

pub owner_bounded :
    (m : EqClassMgr) (a : IPv4Address) (e : EcPtr)
    → IsValid m
    → owner a m.allranges ≡ some e
    → e < m.next
owner_bounded m a e v h =
    let (r, i, _, same) = In-of_owner a m.allranges e h in
    omega (arith, Bounded-In m.next r m.allranges v.bounded i, same)

-- One overlapped class is handled: it is uniform now, and nothing else has changed.
pub record Handled (range : EcRange) (e : EcPtr) (m m' : EqClassMgr) : Type 0 where
  pub refined : Refined m m'
  pub uniform : (x : EcPtr) → (x ≡ e) ⊎ Uniform range x m → Uniform range x m'
  pub touched : (x : EcPtr) → x ≢ e → Touched range x m → Touched range x m'

split-Uniform :
    (range : EcRange) (e : EcPtr) (m m' : EqClassMgr)
    → IsValid m
    → IsSplit e range m m'
    → (x : EcPtr) → (x ≡ e) ⊎ Uniform range x m
    → Uniform range x m'
split-Uniform range e m m' v s x (inl p) a b ha hb =
    ground (arith, s.owners a, s.owners b, owner_bounded m a x v, owner_bounded m b x v)
split-Uniform range e m m' v s x (inr u) a b ha hb =
    ground (arith, s.owners a, s.owners b, owner_bounded m a x v, owner_bounded m b x v, u a b)

IsSplit-Handled :
    (range : EcRange) (e : EcPtr) (m m' : EqClassMgr)
    → IsValid m
    → IsSplit e range m m'
    → Handled range e m m'
IsSplit-Handled range e m m' v s = record {
  refined = record {
    valid = s.valid;
    covers = λ a. ground (arith, s.owners a);
    refines = λ a b x ha hb.
        ground (arith, s.owners a, s.owners b, owner_bounded m a x v, owner_bounded m b x v);
  };
  uniform = split-Uniform range e m m' v s;
  touched = λ x ne (a, o, c). (a, ground (arith, s.owners a), c);
}

Handled-inside :
    (range : EcRange) (e : EcPtr) (m m' : EqClassMgr)
    → IsValid m'
    → m'.allranges ≡ m.allranges
    → ((r : EcRange) → In r (of_class e m.allranges) → (range.lb ≤ r.lb) × (r.ub ≤ range.ub))
    → Handled range e m m'
Handled-inside range e m m' v same inside = record {
  refined = record {
    valid = v;
    covers = λ a. rw same (λ h. h, λ h. h);
    refines = λ a b x ha hb. ground (arith, ap (owner a) same, ap (owner b) same);
  };
  uniform = uniform;
  touched = λ x _ (a, o, c). (a, ap (owner a) same ∙ o, c);
}
  where
    covered : (a : IPv4Address) → owner a m.allranges ≡ some e → contains range a ≡ true
    covered a h =
        let (r, i, c, q) = In-of_owner a m.allranges e h in
        ground (arith, inside r (In-of_class 0 e r m.allranges i q), c)

    uniform : (x : EcPtr) → (x ≡ e) ⊎ Uniform range x m → Uniform range x m'
    uniform x (inl p) a b ha hb =
        ground (arith, ap (owner a) same, ap (owner b) same, covered a, covered b)
    uniform x (inr u) a b ha hb = ground (arith, ap (owner a) same, ap (owner b) same, u a b)

split_touched :
    (range : EcRange) (owned : Bool) (r : EcRange) (e : EcPtr) (m : EqClassMgr)
    → IsValid m
    → IsProper range
    → In r m.allranges
    → overlaps r range ≡ true
    → r.ec ≡ e
    → (m' : EqClassMgr) × (split_intersected_ec e range owned m ≡ some m') × Handled range e m m'
split_touched range owned r e m v wide i ov same =
    let (m', eq, s) =
      subst
        (λ x.
          (m' : EqClassMgr) × (split_intersected_ec x range owned m ≡ some m')
          × IsSplit x range m m')
        same (split_intersected_ec-IsSplit m v range wide r i ov owned) in
    (m', eq, IsSplit-Handled range e m m' v s)

-- An owned class is only marked.
own_ec : EcPtr → EqClassMgr → Bool → EqClassMgr
own_ec e m owned = if owned then record m { owned_ecs = add_ptr e m.owned_ecs } else m

own_ec-IsValid :
    (e : EcPtr) (m : EqClassMgr) (owned : Bool) → IsValid m → IsValid (own_ec e m owned)
unfolding own_ec
own_ec-IsValid e m true v = record {
  ascends = v.ascends;
  bounded = v.bounded;
  keys = v.keys;
  classes = v.classes;
}
own_ec-IsValid e m false v = v

own_ec_ranges :
    (e : EcPtr) (m : EqClassMgr) (owned : Bool) → (own_ec e m owned).allranges ≡ m.allranges
unfolding own_ec
own_ec_ranges e m true = refl
own_ec_ranges e m false = refl

-- The body of the loop handles a class that the new range touches.
pub add_overlapped-Handled :
    (range : EcRange) (owned : Bool) (e : EcPtr) (m : EqClassMgr)
    → IsValid m
    → IsProper range
    → Touched range e m
    → (m' : EqClassMgr) × (add_overlapped range owned e m ≡ some m') × Handled range e m m'
unfolding add_overlapped own_ec
add_overlapped-Handled range owned e m v wide (a, o, c) =
    let (r, i, ra, same) = In-of_owner a m.allranges e o in
    let own : In r (deref e m.all_ecs) =
      subst (In r) (sym (v.classes e)) (In-of_class 0 e r m.allranges i same) in
    let ordered : Ascends 0 (deref e m.all_ecs) =
      subst (Ascends 0) (sym (v.classes e))
        (keep-Ascends 0 (λ q. q.ec == e) m.allranges v.ascends) in
    let (inside, test, all) = within_lem range (deref e m.all_ecs) r ordered own in
    elim (Bool-cases inside) [
      | inl p ↦ (
        own_ec e m owned,
        rw (test, p) refl,
        Handled-inside range e m (own_ec e m owned) (own_ec-IsValid e m owned v)
            (own_ec_ranges e m owned) (λ q j. all p q (subst (In q) (sym (v.classes e)) j)),
      )
      | inr p ↦
          let (m', eq, h) = split_touched range owned r e m v wide i (ground arith) same in
          (m', rw (test, p) eq, h)
    ]
