-- ===== src/Ec/Mgr/Fresh.antt =====
-- src/eqclassmgr.cpp: `add_non_overlapped_ec` as a whole.
use native.Mathlib.Decide.{ℕ_discrete}
use neo.Base.{
  ℕ, suc, ◌+◌, ◌-◌, ◌≤◌, ◌<◌, ◌≡◌, refl, sym, ap, subst, ◌∙◌, inl, inr, Bool, true, ◌&&◌, leb, [],
  ◌∷◌, Option, none, some, arith, if◌then◌else◌, Bool-cases, leb→le,
}
use neo.Ip.Address.{IPv4Address, u32_mod}
use neo.Ec.Range.{EcRange, overlaps, contains}
use neo.Ec.RangeSet.{RangeSet, owner}
use neo.Ec.RangeSet.Laws.{Ascends, In, keep-Ascends}
use neo.Ec.RangeSet.Search.{overlapping, while_overlap-from_overlap}
use neo.Ec.RangeSet.Parts.{of_class, Bounded-weaken}
use neo.Ec.Class.{EqClass, empty}
use neo.Ec.Mgr.{EqClassMgr}
use neo.Ec.Mgr.Add.{Filling, fill_gap, keep_new, add_non_overlapped_ec}
use neo.Ec.Mgr.Heap.{KeysBelow-weaken, KeysBelow-append, has_key_young, deref_missing, deref-append}
use neo.Ec.Mgr.Inv.{IsValid, of_class_new}
use neo.Ec.Mgr.Cut.{IsProper}
use neo.Ec.Mgr.Fill.{is_none, Filled, EndsIn, fill_gap-Filled, fill_loop-Looped}

module _ (m : EqClassMgr) (v : IsValid m) (range : EcRange) (wide : IsProper range) where
  start-Filled :
      Filled m.next m.allranges range wide range.lb (record { all = m.allranges; fresh = [] })
  start-Filled = record {
    ascends = v.ascends;
    bounded = Bounded-weaken m.next (suc m.next) m.allranges (omega arith) v.bounded;
    fresh_eq = sym (of_class_new m.next m.next m.allranges v.bounded (omega arith));
    others = λ x _. refl;
    owners = λ a. ground arith;
  }

  keep_new-IsValid :
      (owned : Bool) (lb : IPv4Address) (f : Filling)
      → Filled m.next m.allranges range wide lb f
      → IsValid (keep_new m.next owned m f)
  unfolding keep_new empty
  keep_new-IsValid owned lb (f) w = elim (Bool-cases (empty f.fresh)) [
    | inl none' ↦ rw none' (record {
      ascends = w.ascends;
      bounded = w.bounded;
      keys = KeysBelow-weaken m.next (suc m.next) m.all_ecs (omega arith) v.keys;
      classes = λ x. elim (ℕ_discrete x m.next) [
        | yes p ↦
            deref_missing x m.all_ecs (has_key_young m.next x m.all_ecs v.keys (omega arith))
            ∙ (sym (nothing f.fresh none') ∙ (w.fresh_eq ∙ ap (λ y. of_class y f.all) (sym p)))
        | no p ↦ v.classes x ∙ sym (w.others x p)
      ];
    })
    | inr some' ↦ rw some' (record {
      ascends = w.ascends;
      bounded = w.bounded;
      keys =
          KeysBelow-append (suc m.next) m.next f.fresh m.all_ecs (omega arith)
            (KeysBelow-weaken m.next (suc m.next) m.all_ecs (omega arith) v.keys);
      classes = λ x. elim (ℕ_discrete x m.next) [
        | yes p ↦ ground (
          arith,
          deref-append x m.next f.fresh m.all_ecs,
          has_key_young m.next x m.all_ecs v.keys,
          w.fresh_eq,
          ap (λ y. of_class y f.all) p,
        )
        | no p ↦ ground (
          arith,
          deref-append x m.next f.fresh m.all_ecs,
          deref_missing x m.all_ecs,
          v.classes x,
          w.others x p,
        )
      ];
    })
  ]
    where
      nothing : (c : EqClass) → empty c ≡ true → c ≡ []
      nothing [] h = refl
      nothing (r ∷ c) h = cc

  keep_new_ranges : (owned : Bool) (f : Filling) → (keep_new m.next owned m f).allranges ≡ f.all
  unfolding keep_new
  keep_new_ranges owned f = ground arith

  -- Every range that overlaps the new range lies in it and ends before the last address.
  abbrev pub Contained : RangeSet → Type 0
  Contained rs =
      (r : EcRange)
      → In r rs
      → overlaps r range ≡ true
      → (range.lb ≤ r.lb) × (r.ub ≤ range.ub) × (r.ub < u32_mod - 1)

  overlapping-Ascends :
      (lo : ℕ) (rs : RangeSet)
      → Ascends lo rs
      → Contained rs
      → Ascends range.lb (overlapping range rs)
  overlapping-Ascends lo [] asc c = tt
  overlapping-Ascends lo (s ∷ rs) asc c = ground (
    arith,
    overlapping-Ascends (s.ub + 1) rs asc.2 (λ r i. c r (inr i)),
    keep-Ascends (s.ub + 1) (λ q. overlaps q range) rs asc.2,
    c s (inl refl),
  )

  overlapping-EndsIn :
      (rs : RangeSet) → Contained rs → EndsIn m.next m.allranges range wide (overlapping range rs)
  overlapping-EndsIn [] c = tt
  overlapping-EndsIn (s ∷ rs) c =
      ground (arith, overlapping-EndsIn rs (λ r i. c r (inr i)), c s (inl refl))

  owner-overlapping :
      (a : IPv4Address) (rs : RangeSet)
      → range.lb ≤ a
      → a ≤ range.ub
      → owner a rs ≡ owner a (overlapping range rs)
  unfolding owner
  owner-overlapping a [] h k = refl
  owner-overlapping a (s ∷ rs) h k = ground (arith, owner-overlapping a rs h k)

  -- The uncovered addresses of the new range have the new class; no other address changes class.
  pub record IsFilled (m' : EqClassMgr) : Type 0 where
    pub valid : IsValid m'
    pub owners :
        (a : IPv4Address)
        → owner a m'.allranges ≡ (
            if contains range a && is_none (owner a m.allranges)
            then some m.next
            else owner a m.allranges)

  -- The gap after the last overlapping range.
  abbrev last_gap : IPv4Address → Filling → Option Filling
  last_gap lb f = if leb lb range.ub then fill_gap m.next lb range.ub f else some f

  last_gap-Filled :
      (lb : IPv4Address) (f : Filling)
      → Filled m.next m.allranges range wide lb f
      → range.lb ≤ lb
      → lb ≤ range.ub + 1
      → ((a : IPv4Address) → lb ≤ a → a ≤ range.ub → owner a m.allranges ≡ none)
      → (f' : Filling) × (last_gap lb f ≡ some f')
        × Filled m.next m.allranges range wide (range.ub + 1) f'
  last_gap-Filled lb f w h k u = elim (Bool-cases (leb lb range.ub)) [
    | inl p ↦
        let (f', e, w') =
          fill_gap-Filled m.next m.allranges range wide lb range.ub f w h (leb→le lb range.ub p)
            (omega arith) u in
        (f', rw p e, w')
    | inr p ↦ (f, rw p refl, subst (λ l. Filled m.next m.allranges range wide l f) (ground arith) w)
  ]

  pub add_non_overlapped_ec-IsFilled :
      (owned : Bool)
      → Contained m.allranges
      → (m' : EqClassMgr) × (add_non_overlapped_ec range owned m ≡ some m') × IsFilled m'
  unfolding add_non_overlapped_ec
  add_non_overlapped_ec-IsFilled owned c =
      let t =
        fill_loop-Looped m.next m.allranges range wide range.lb (overlapping range m.allranges)
          (record { all = m.allranges; fresh = [] }) start-Filled (omega arith)
          (omega (arith, wide.ordered)) (overlapping-Ascends 0 m.allranges v.ascends c)
          (overlapping-EndsIn m.allranges c) (λ a. owner-overlapping a m.allranges) in
      let (f', e, w) = last_gap-Filled t.end t.result t.filled t.from t.upto t.rest in
      (
        keep_new m.next owned m f',
        rw (while_overlap-from_overlap 0 range m.allranges wide.ordered v.ascends, t.result_eq, e)
            refl,
        record {
          valid = keep_new-IsValid owned (range.ub + 1) f' w;
          owners = λ a. ground (arith, ap (owner a) (keep_new_ranges owned f'), w.owners a);
        },
      )
