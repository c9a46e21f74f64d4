-- ===== src/Ec/Mgr/AddEc.antt =====
-- src/eqclassmgr.cpp: what `add_ec` guarantees of the equivalence classes.
use neo.Base.{
  ◌-◌, ◌≡◌, ◌↔◌, refl, sym, subst, ◌∙◌, ◌⊎◌, inl, inr, Bool, true, false, ◌==◌, ltb, List, [], ◌∷◌,
  none, some, arith, if◌then◌else◌, Bool-cases, Option-cases,
}
use neo.Ip.Address.{IPv4Address, u32_mod}
use neo.Ec.Range.{EcRange, EcPtr, contains, make_range}
use neo.Ec.RangeSet.{owner}
use neo.Ec.RangeSet.Laws.{In-bounds}
use neo.Ec.RangeSet.Owner.{owner_of_In}
use neo.Ec.RangeSet.Parts.{Bounded-In}
use neo.Ec.RangeSet.Search.{find_point}
use neo.Ec.Mgr.{EqClassMgr, has}
use neo.Ec.Mgr.Add.{add_overlapped_all, add_ec, find_ec}
use neo.Ec.Mgr.Inv.{IsValid}
use neo.Ec.Mgr.Cut.{IsProper}
use neo.Ec.Mgr.Overlapped.{Uniform, Touched, Refined, add_overlapped-Handled, owner_bounded}
use neo.Ec.Mgr.Collect.{Distinct, found-Distinct, found-Touched, found_or_Uniform}
use neo.Ec.Mgr.Fresh.{Contained, IsFilled, add_non_overlapped_ec-IsFilled}

Refined-trans : {m m1 m2 : EqClassMgr} → Refined m m1 → Refined m1 m2 → Refined m m2
Refined-trans {m} {m1} {m2} p q = record {
  valid = q.valid;
  covers = λ a. (λ h. (p.covers a).0 ((q.covers a).0 h), λ h. (q.covers a).1 ((p.covers a).1 h));
  refines = λ a b e ha hb. elim (Option-cases (owner a m1.allranges)) [
    | inl h ↦ ground (arith, (q.covers a).1 h)
    | inr (x, h) ↦ p.refines a b x h (sym (q.refines a b e ha hb) ∙ h)
  ];
}

-- The loop over the overlapped classes ends with every class inside the new range or outside it.
add_overlapped_all-Uniform :
    (range : EcRange) (owned : Bool) (es : List EcPtr) (m : EqClassMgr)
    → IsValid m
    → IsProper range
    → Distinct es
    → ((x : EcPtr) → has x es ≡ true → Touched range x m)
    → ((x : EcPtr) → (has x es ≡ true) ⊎ Uniform range x m)
    → (m' : EqClassMgr) × (add_overlapped_all range owned es m ≡ some m')
      × Refined m m'
      × ((x : EcPtr) → Uniform range x m')
unfolding add_overlapped_all
add_overlapped_all-Uniform range owned [] m v wide d t u = (
  m,
  refl,
  record { valid = v; covers = λ a. (λ h. h, λ h. h); refines = λ a b e ha hb. ha ∙ sym hb },
  λ x. elim (u x) [ inl h ↦ cc | inr h ↦ h ],
)
add_overlapped_all-Uniform range owned (e ∷ es) m v wide d t u =
    let (m1, e1, h) = add_overlapped-Handled range owned e m v wide (t e (ground arith)) in
    let (m', e', r, all) =
      add_overlapped_all-Uniform range owned es m1 h.refined.valid wide d.1
        (λ x i. h.touched x (λ q. absurd (distinct x q i)) (t x (ground arith)))
        (λ x. elim (u x) [
          | inl i ↦ elim (Bool-cases (e == x)) [
            | inl p ↦ inr (h.uniform x (inl (ground arith)))
            | inr p ↦ inl (ground arith)
          ]
          | inr w ↦ inr (h.uniform x (inr w))
        ]) in
    (m', rw e1 e', Refined-trans h.refined r, all)
  where
    distinct : (x : EcPtr) → x ≡ e → has x es ≡ true → ⊥
    distinct x q i = let j : has e es ≡ true = subst (λ y. has y es ≡ true) q i in cc

-- The manager after a range is added to one before.
pub record Separates (range : EcRange) (m m' : EqClassMgr) : Type 0 where
  pub valid : IsValid m'
  pub covers :
      (a : IPv4Address)
      → (owner a m'.allranges ≡ none) ↔ ((owner a m.allranges ≡ none) × (contains range a ≡ false))
  pub refines :
      (a b : IPv4Address) (e : EcPtr)
      → owner a m'.allranges ≡ some e
      → owner b m'.allranges ≡ some e
      → (owner a m.allranges ≡ owner b m.allranges) × (contains range a ≡ contains range b)

-- Where every class lies in the range or outside it, so does every range.
Uniform-Contained :
    (m : EqClassMgr) (v : IsValid m) (range : EcRange) (wide : IsProper range)
    → ((x : EcPtr) → Uniform range x m)
    → (contains range (u32_mod - 1) ≡ true → owner (u32_mod - 1) m.allranges ≡ none)
    → Contained m v range wide m.allranges
Uniform-Contained m v range wide u top r i o =
    let b = In-bounds 0 r m.allranges v.ascends i in
    let c = Bounded-In m.next r m.allranges v.bounded i in
    let own : (a : IPv4Address) → contains r a ≡ true → owner a m.allranges ≡ some r.ec =
      λ a. owner_of_In 0 a r m.allranges v.ascends i in
    let a : IPv4Address = if ltb r.lb range.lb then range.lb else r.lb in
    let lo : contains range a ≡ contains range r.lb =
      u r.ec a r.lb (own a (ground arith)) (own r.lb (ground arith)) in
    let hi : contains range a ≡ contains range r.ub =
      u r.ec a r.ub (own a (ground arith)) (own r.ub (ground arith)) in
    ground (arith, lo, hi, own (u32_mod - 1))

IsFilled-Separates :
    (m m1 m' : EqClassMgr) (range : EcRange) (v1 : IsValid m1) (wide : IsProper range)
    → Refined m m1
    → ((x : EcPtr) → Uniform range x m1)
    → IsFilled m1 v1 range wide m'
    → Separates range m m'
IsFilled-Separates m m1 m' range v1 wide r u f = record {
  valid = f.valid;
  covers = λ a. ground (arith, f.owners a, r.covers a);
  refines = λ a b e ha hb. ground (
    arith,
    f.owners a,
    f.owners b,
    owner_bounded m1 a e v1,
    owner_bounded m1 b e v1,
    r.refines a b e,
    r.covers a,
    r.covers b,
    u e a b,
  );
}

-- Adding a proper range to a valid manager succeeds, and the result separates the range as above:
-- it is valid, covers the addresses of the range besides those covered before, and has only the old
-- classes or parts of them, each in the range or outside it. A range with the last address is added
-- only while that address is uncovered.
pub add_ec-Separates :
    (m : EqClassMgr) (range : EcRange) (owned : Bool)
    → IsValid m
    → IsProper range
    → (contains range (u32_mod - 1) ≡ true → owner (u32_mod - 1) m.allranges ≡ none)
    → (m' : EqClassMgr) × (add_ec range owned m ≡ some m') × Separates range m m'
unfolding add_ec
add_ec-Separates m range owned v wide top =
    let (m1, e1, r, u) =
      add_overlapped_all-Uniform range owned _ m v wide (found-Distinct range m v wide)
        (found-Touched range m v wide) (found_or_Uniform range m v wide) in
    let top1 : contains range (u32_mod - 1) ≡ true → owner (u32_mod - 1) m1.allranges ≡ none =
      λ h. (r.covers (u32_mod - 1)).1 (top h) in
    let (m', e', f) =
      add_non_overlapped_ec-IsFilled m1 r.valid range wide owned
        (Uniform-Contained m1 r.valid range wide u top1) in
    (m', rw e1 e', IsFilled-Separates m m1 m' range r.valid wide r u f)

-- `find_ec` returns the class that holds the address, and fails exactly on the uncovered ones.
pub find_ec-owner : (m : EqClassMgr) (a : IPv4Address) → find_ec a m ≡ owner a m.allranges
unfolding find_ec make_range
find_ec-owner m a =
    ground (arith, find_point 0 (record { lb = a; ub = a; ec = 0 }) a m.allranges refl refl)
