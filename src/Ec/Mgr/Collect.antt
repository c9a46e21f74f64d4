-- ===== src/Ec/Mgr/Collect.antt =====
-- src/eqclassmgr.cpp: `get_overlapped_ecs` finds the classes that the new range touches, each once.
use neo.Base.{
  ◌≡◌, refl, sym, ap, subst, ◌∙◌, ◌⊎◌, inl, inr, Bool, true, false, not, ◌&&◌, ◌||◌, ◌==◌, ltb,
  List, [], ◌∷◌, ◌++◌, some, any, arith, if◌then◌else◌, Bool-cases, Option-cases,
}
use neo.Ip.Address.{IPv4Address}
use neo.Ec.Range.{EcRange, EcPtr, overlaps, contains}
use neo.Ec.RangeSet.{RangeSet, owner, find, while_overlap}
use neo.Ec.RangeSet.Laws.{In, In-bounds}
use neo.Ec.RangeSet.Owner.{owner_of_In, In-of_owner}
use neo.Ec.RangeSet.Parts.{In-keep}
use neo.Ec.RangeSet.Search.{
  overlapping, while_overlap-from_overlap, while_overlap-before_overlap, find-none,
}
use neo.Ec.Mgr.{EqClassMgr, has, add_ptr}
use neo.Ec.Mgr.Add.{collect, get_overlapped_ecs}
use neo.Ec.Mgr.Inv.{IsValid}
use neo.Ec.Mgr.Cut.{IsProper}
use neo.Ec.Mgr.Overlapped.{Uniform, Touched}

-- No pointer is listed twice.
abbrev pub Distinct : List EcPtr → Type 0
Distinct [] = Unit
Distinct (e ∷ es) = (has e es ≡ false) × Distinct es

has-append : (x e : EcPtr) (es : List EcPtr) → has x (es ++ e ∷ []) ≡ has x es || e == x
has-append x e [] = ground arith
has-append x e (y ∷ es) = ground (arith, has-append x e es)

Distinct-append :
    (e : EcPtr) (es : List EcPtr) → has e es ≡ false → Distinct es → Distinct (es ++ e ∷ [])
Distinct-append e [] h d = ground arith
Distinct-append e (y ∷ es) h d =
    ground (arith, Distinct-append e es (ground arith) d.1, has-append y e es)

Distinct-add_ptr : (e : EcPtr) (es : List EcPtr) → Distinct es → Distinct (add_ptr e es)
Distinct-add_ptr e es d = elim (Bool-cases (has e es)) [
  | inl h ↦ rw h d
  | inr h ↦ rw h (Distinct-append e es h d)
]

has-add_ptr : (x e : EcPtr) (es : List EcPtr) → has x (add_ptr e es) ≡ has x es || e == x
has-add_ptr x e es = ground (arith, has-append x e es, same)
  where
    same : (e == x) ≡ true → has e es ≡ has x es
    same h = ap (λ y. has y es) (ground arith)

collect-Distinct :
    (m : EqClassMgr) (es : List EcPtr) (rs : RangeSet)
    → Distinct es
    → Distinct (collect m false es rs)
unfolding collect
collect-Distinct m es [] d = d
collect-Distinct m es (r ∷ rs) d =
    collect-Distinct m (add_ptr r.ec es) rs (Distinct-add_ptr r.ec es d)

has-collect :
    (m : EqClassMgr) (x : EcPtr) (es : List EcPtr) (rs : RangeSet)
    → has x (collect m false es rs) ≡ has x es || any (λ r. r.ec == x) rs
unfolding collect
has-collect m x es [] = ground arith
has-collect m x es (r ∷ rs) =
    ground (arith, has-collect m x (add_ptr r.ec es) rs, has-add_ptr x r.ec es)

-- The owned classes only, where those are asked for.
has-collect_owned :
    (m : EqClassMgr) (o : Bool) (x : EcPtr) (es : List EcPtr) (rs : RangeSet)
    → has x (collect m o es rs)
      ≡ (has x es || (any (λ r. r.ec == x) rs && (not o || has x m.owned_ecs)))
unfolding collect
has-collect_owned m o x es [] = ground arith
has-collect_owned m true x es (r ∷ rs) = elim (Bool-cases (has r.ec m.owned_ecs)) [
  | inl h ↦
      rw (h, has-collect_owned m true x (add_ptr r.ec es) rs, has-add_ptr x r.ec es)
        (ground (arith, h, same))
  | inr h ↦ rw (h, has-collect_owned m true x es rs) (ground (arith, h, same))
]
  where
    same : (r.ec == x) ≡ true → has r.ec m.owned_ecs ≡ has x m.owned_ecs
    same e = ap (λ y. has y m.owned_ecs) (ground arith)
has-collect_owned m false x es (r ∷ rs) =
    ground (arith, has-collect_owned m false x (add_ptr r.ec es) rs, has-add_ptr x r.ec es)

any-overlapping :
    (range : EcRange) (x : EcPtr) (rs : RangeSet)
    → any (λ r. r.ec == x) (overlapping range rs) ≡ any (λ r. overlaps r range && r.ec == x) rs
any-overlapping range x [] = refl
any-overlapping range x (r ∷ rs) = ground (arith, any-overlapping range x rs)

In-of_any :
    (x : EcPtr) (rs : RangeSet)
    → any (λ r. r.ec == x) rs ≡ true
    → (r : EcRange) × In r rs × (r.ec ≡ x)
In-of_any x [] h = cc
In-of_any x (s ∷ rs) h = elim (Bool-cases (s.ec == x)) [
  | inl e ↦ (s, inl refl, ground arith)
  | inr e ↦ let (r, i, q) = In-of_any x rs (ground arith) in (r, inr i, q)
]

any_of_In :
    (x : EcPtr) (r : EcRange) (rs : RangeSet) → In r rs → r.ec ≡ x → any (λ r. r.ec == x) rs ≡ true
any_of_In x r [] i q = absurd i
any_of_In x r (s ∷ rs) (inl p) q = ground arith
any_of_In x r (s ∷ rs) (inr i) q = ground (arith, any_of_In x r rs i q)

In-overlapping :
    (range r : EcRange) (rs : RangeSet)
    → In r rs
    → overlaps r range ≡ true
    → In r (overlapping range rs)
In-overlapping range r [] i o = absurd i
In-overlapping range r (s ∷ rs) (inl p) o = ground arith
In-overlapping range r (s ∷ rs) (inr i) o = ground (arith, In-overlapping range r rs i o)

module _ (range : EcRange) (m : EqClassMgr) (v : IsValid m) (wide : IsProper range) where
  abbrev found : List EcPtr
  found = get_overlapped_ecs range false m

  abbrev met : RangeSet
  met = overlapping range m.allranges

  gathered : (o : Bool) → get_overlapped_ecs range o m ≡ collect m o [] met
  unfolding get_overlapped_ecs collect while_overlap
  gathered o = elim (Option-cases (find range m.allranges)) [
    | inl h ↦ rw (h, get_overlapped_ecs, find-none range m.allranges h) refl
    | inr (r, h) ↦ rw (
      h,
      get_overlapped_ecs,
      while_overlap-before_overlap [] range m.allranges refl,
      while_overlap-from_overlap 0 range m.allranges wide.ordered v.ascends,
    )
  ]

  -- The classes that are given are those of the ranges that overlap, or the owned ones of them.
  pub has-get_overlapped_ecs :
      (o : Bool) (x : EcPtr)
      → has x (get_overlapped_ecs range o m)
        ≡ (any (λ r. overlaps r range && r.ec == x) m.allranges && (not o || has x m.owned_ecs))
  has-get_overlapped_ecs o x =
      ap (has x) (gathered o)
      ∙ has-collect_owned m o x [] met
      ∙ ap (λ b. b && (not o || has x m.owned_ecs)) (any-overlapping range x m.allranges)

  pub found-Distinct : Distinct found
  found-Distinct = subst Distinct (sym (gathered false)) (collect-Distinct m [] met tt)

  found-any : (x : EcPtr) → has x found ≡ any (λ r. r.ec == x) met
  found-any x = ap (has x) (gathered false) ∙ has-collect m x [] met

  pub found-Touched : (x : EcPtr) → has x found ≡ true → Touched range x m
  found-Touched x h =
      let (r, i, q) = In-of_any x met (sym (found-any x) ∙ h) in
      let (j, o) = In-keep r (λ s. overlaps s range) m.allranges i in
      let a : IPv4Address = if ltb r.lb range.lb then range.lb else r.lb in
      let b = In-bounds 0 r m.allranges v.ascends j in
      (a, owner_of_In 0 a r m.allranges v.ascends j (ground arith) ∙ ap some q, ground arith)

  -- A class that is not found has no address in the new range.
  pub found_or_Uniform : (x : EcPtr) → (has x found ≡ true) ⊎ Uniform range x m
  found_or_Uniform x = elim (Bool-cases (has x found)) [
    | inl h ↦ inl h
    | inr h ↦ inr (λ a b ha hb. outside a h ha ∙ sym (outside b h hb))
  ]
    where
      outside :
          (a : IPv4Address)
          → has x found ≡ false
          → owner a m.allranges ≡ some x
          → contains range a ≡ false
      outside a h ha =
          let (r, i, c, q) = In-of_owner a m.allranges x ha in
          ground (arith, found-any x, any_of_In x r met, In-overlapping range r m.allranges i)
