-- ===== src/Ec/Mgr/SplitEc.antt =====
-- src/eqclassmgr.cpp: `split_intersected_ec` moves the shared addresses to a new class.
use neo.Base.{
  suc, ◌<◌, ◌≡◌, refl, sym, ap, subst, ◌∙◌, inl, inr, Bool, true, false, ◌&&◌, ◌||◌, ◌==◌, ltb,
  List, [], ◌∷◌, ◌++◌, some, any, arith, if◌then◌else◌, Bool-cases,
}
use native.Mathlib.Decide.{ℕ_discrete}
use neo.Ip.Address.{IPv4Address, u32_mod}
use neo.Ec.Range.{EcRange, EcPtr, overlaps, contains}
use neo.Ec.RangeSet.{owner}
use neo.Ec.RangeSet.Laws.{In, In-bounds, keep-Ascends}
use neo.Ec.RangeSet.Owner.{owner_of_In, In-of_owner}
use neo.Ec.RangeSet.Parts.{of_class, In-keep, Bounded-In, Bounded-weaken}
use neo.Ec.Class.{EqClass, empty}
use neo.Ec.Mgr.{
  has, add_ptr, EqClassMgr, Splitting, deref, assign, split_loop, split_intersected_ec,
}
use neo.Ec.Mgr.Heap.{
  has_key, KeysBelow-weaken, KeysBelow-append, KeysBelow-assign, has_key_young, deref_missing,
  has_key-assign, deref-assign, deref-append,
}
use neo.Ec.Mgr.Split.{Fits}
use neo.Ec.Mgr.Cut.{IsProper}
use neo.Ec.Mgr.Round.{split_loop-Rounded}
use neo.Ec.Mgr.Inv.{IsValid, IsSplit, owns, any-of_class, In-of_class, of_class_new}

module _ (m : EqClassMgr) (v : IsValid m) (range : EcRange) (wide : IsProper range) (r : EcRange)
    (i : In r m.allranges) (o : overlaps r range ≡ true) where
  abbrev orig : EqClass
  orig = deref r.ec m.all_ecs

  abbrev start : Splitting
  start = record { all = m.allranges; old = orig; moved = [] }

  abbrev final : Splitting
  final = split_loop m.next range orig start

  r_bounds : (r.ub < u32_mod) × (r.ec < m.next)
  r_bounds = Bounded-In m.next r m.allranges v.bounded i

  start-Fits : Fits r.ec m.next m.allranges start
  start-Fits = record {
    ascends = v.ascends;
    old_eq = v.classes r.ec;
    moved_eq = sym (of_class_new m.next m.next m.allranges v.bounded (omega arith));
    bounded = Bounded-weaken m.next (suc m.next) m.allranges (omega arith) v.bounded;
    others = λ x _ _. refl;
  }

  looped :
      Fits r.ec m.next m.allranges final
      × ((a : IPv4Address)
          → owner a final.all ≡ (
              if any (λ q. contains q a) orig && contains range a
              then some m.next
              else owner a m.allranges))
  looped =
      split_loop-Rounded r.ec m.next m.allranges r_bounds.1 range wide 0 orig start start-Fits
        (rw (v.classes r.ec) (keep-Ascends 0 (λ q. q.ec == r.ec) m.allranges v.ascends))
        λ q j.
          let (j', same) =
            In-keep q (λ q'. q'.ec == r.ec) m.allranges (subst (In q) (v.classes r.ec) j) in
          let b = Bounded-In m.next q m.allranges v.bounded j' in
          (
            record { ordered = (In-bounds 0 q m.allranges v.ascends j').1; bound = b.0 },
            ground arith,
            j',
          )

  final_owners :
      (a : IPv4Address)
      → owner a final.all
        ≡ (if owns r.ec a m.allranges && contains range a then some m.next else owner a m.allranges)
  final_owners a = ground (
    arith,
    looped.1 a,
    ap (any (λ q. contains q a)) (v.classes r.ec),
    any-of_class 0 r.ec a m.allranges v.ascends,
  )

  -- An address that the range shares with the new range.
  shared : IPv4Address
  shared = if ltb r.lb range.lb then range.lb else r.lb

  shared_in : (contains r shared ≡ true) × (contains range shared ≡ true)
  unfolding shared
  shared_in = ground (arith, In-bounds 0 r m.allranges v.ascends i, wide)

  moved_any : empty final.moved ≡ false
  unfolding empty
  moved_any =
      let mine : owner shared m.allranges ≡ some r.ec =
        owner_of_In 0 shared r m.allranges v.ascends i shared_in.0 in
      let taken : owner shared final.all ≡ some m.next =
        ground (arith, final_owners shared, mine, shared_in) in
      let (q, j, _, same) = In-of_owner shared final.all m.next taken in
      nonempty q final.moved
        (subst (In q) (sym looped.0.moved_eq) (In-of_class 0 m.next q final.all j same))
    where
      nonempty : (q : EcRange) (c : EqClass) → In q c → empty c ≡ false
      nonempty q [] j = absurd j
      nonempty q (s ∷ c) j = refl

  known : has_key r.ec m.all_ecs ≡ true
  known = elim (Bool-cases (has_key r.ec m.all_ecs)) [
    | inl h ↦ h
    | inr h ↦ absurd (
        subst (In r) (sym (v.classes r.ec) ∙ deref_missing r.ec m.all_ecs h)
          (In-of_class 0 r.ec r m.allranges i refl))
  ]

  abbrev ecs' : List (EcPtr × EqClass)
  ecs' = assign r.ec final.old m.all_ecs ++ (m.next, final.moved) ∷ []

  classes' : (x : EcPtr) → deref x ecs' ≡ of_class x final.all
  classes' x = elim (ℕ_discrete x m.next) [
    | yes p ↦ ground (
      arith,
      facts,
      has_key_young m.next x m.all_ecs v.keys,
      looped.0.moved_eq,
      ap (λ y. of_class y final.all) p,
    )
    | no p ↦ elim (ℕ_discrete x r.ec) [
      | yes q ↦ ground (
        arith,
        facts,
        known,
        ap (λ y. has_key y m.all_ecs) q,
        ap (λ y. of_class y final.all) q,
        looped.0.old_eq,
      )
      | no q ↦ ground (arith, facts, looped.0.others x q p, v.classes x, deref_missing x m.all_ecs)
    ]
  ]
    where
      facts :
          (deref x ecs' ≡ (
            if has_key x (assign r.ec final.old m.all_ecs)
            then deref x (assign r.ec final.old m.all_ecs)
            else if m.next == x
            then final.moved
            else []))
          × (has_key x (assign r.ec final.old m.all_ecs) ≡ has_key x m.all_ecs)
          × (deref x (assign r.ec final.old m.all_ecs)
              ≡ (if x == r.ec && has_key r.ec m.all_ecs then final.old else deref x m.all_ecs))
      facts = (
        deref-append x m.next final.moved (assign r.ec final.old m.all_ecs),
        has_key-assign x r.ec final.old m.all_ecs,
        deref-assign x r.ec final.old m.all_ecs,
      )

  after : Bool → EqClassMgr
  after owned = record {
    allranges = final.all;
    all_ecs = ecs';
    owned_ecs = if owned || has r.ec m.owned_ecs then add_ptr m.next m.owned_ecs else m.owned_ecs;
    ports = m.ports;
    next = suc m.next;
  }

  -- A class with a range that overlaps the new range is split, and the assertion holds.
  pub split_intersected_ec-IsSplit :
      (owned : Bool)
      → (m' : EqClassMgr) × (split_intersected_ec r.ec range owned m ≡ some m')
        × IsSplit r.ec range m m'
  unfolding split_intersected_ec after
  split_intersected_ec-IsSplit owned = (
    after owned,
    rw moved_any refl,
    record {
      valid = record {
        ascends = looped.0.ascends;
        bounded = looped.0.bounded;
        keys =
            KeysBelow-append (suc m.next) m.next final.moved (assign r.ec final.old m.all_ecs)
              (omega arith)
              (KeysBelow-assign (suc m.next) r.ec final.old m.all_ecs
                (KeysBelow-weaken m.next (suc m.next) m.all_ecs (omega arith) v.keys));
        classes = classes';
      };
      next_eq = refl;
      owners = final_owners;
    },
  )
