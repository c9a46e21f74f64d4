-- ===== src/Ec/Mgr/Wrap.antt =====
-- src/eqclassmgr.cpp: `it->get_ub() + 1` wraps to 0 after the last address.
use neo.Base.{ℕ, ◌+◌, ◌-◌, ◌%◌, ◌<◌, ◌≡◌, refl, ◌∙◌, inl, inr, Bool, [], ◌∷◌, some, arith}
use neo.Ip.Address.{u32_mod, add}
use neo.Ec.Range.{EcRange, EcPtr, make_range}
use neo.Ec.RangeSet.{RangeSet, insert, while_overlap, from_overlap}
use neo.Ec.RangeSet.Laws.{Ascends, In, In-bounds}
use neo.Ec.RangeSet.Search.{overlapping, while_overlap-from_overlap}
use neo.Ec.RangeSet.Parts.{of_class, Bounded}
use neo.Ec.Class.{empty}
use neo.Ec.Mgr.{EqClassMgr, deref}
use neo.Ec.Mgr.Add.{fill_gap, fill_loop, keep_new, add_non_overlapped_ec}
use neo.Ec.Mgr.Heap.{has_key_young, deref-append}
use neo.Ec.Mgr.Inv.{IsValid, of_class_new}

-- An element overlaps itself only.
overlapping_self :
    (lo : ℕ) (r : EcRange) (rs : RangeSet) → Ascends lo rs → In r rs → overlapping r rs ≡ r ∷ []
overlapping_self lo r [] v i = absurd i
overlapping_self lo r (s ∷ rs) v (inl p) = ground (arith, past (s.ub + 1) r rs, v)
  where
    past :
        (lo : ℕ) (r : EcRange) (rs : RangeSet) → r.ub < lo → Ascends lo rs → overlapping r rs ≡ []
    past lo r [] h v = refl
    past lo r (s ∷ rs) h v = ground (arith, past (s.ub + 1) r rs (omega arith) v.2)
overlapping_self lo r (s ∷ rs) v (inr i) =
    ground (arith, overlapping_self (s.ub + 1) r rs v.2 i, In-bounds (s.ub + 1) r rs v.2 i)

abbrev whole : EcPtr → EcRange
whole n = record { lb = 0; ub = u32_mod - 1; ec = n }

-- The whole address space overlaps the first range, so it is not inserted.
insert-whole :
    (n k : EcPtr) (r : EcRange) (rs : RangeSet)
    → In r rs
    → Ascends 0 rs
    → Bounded k rs
    → insert (whole n) rs ≡ rs
unfolding insert
insert-whole n k r [] i v b = absurd i
insert-whole n k r (s ∷ rs) i v b = ground arith

-- Where a range that reaches the last address is added once more, a class of the whole address
-- space is made beside the classes that cover it, and the manager is not valid any more.
pub add_non_overlapped_ec_again :
    (m : EqClassMgr) (r : EcRange) (owned : Bool)
    → IsValid m
    → In r m.allranges
    → r.ub ≡ u32_mod - 1
    → (m' : EqClassMgr) × (add_non_overlapped_ec r owned m ≡ some m')
      × (deref m.next m'.all_ecs ≡ whole m.next ∷ [])
      × (m'.allranges ≡ m.allranges)
      × (¬ IsValid m')
unfolding add_non_overlapped_ec fill_loop fill_gap make_range keep_new add empty insert
add_non_overlapped_ec_again m r owned v i top =
    let le = (In-bounds 0 r m.allranges v.ascends i).1 in
    let once : while_overlap r (from_overlap r m.allranges) ≡ r ∷ [] =
      while_overlap-from_overlap 0 r m.allranges le v.ascends
      ∙ overlapping_self 0 r m.allranges v.ascends i in
    let same = insert-whole m.next m.next r m.allranges i v.ascends v.bounded in
    let wraps : (r.ub + 1) % u32_mod ≡ 0 = omega arith in
    let m' : EqClassMgr =
      keep_new m.next owned m (record { all = m.allranges; fresh = whole m.next ∷ [] }) in
    let phantom : deref m.next m'.all_ecs ≡ whole m.next ∷ [] = ground (
      arith,
      deref-append m.next m.next (whole m.next ∷ []) m.all_ecs,
      has_key_young m.next m.next m.all_ecs v.keys (omega arith),
    ) in
    let none' : of_class m.next m.allranges ≡ [] =
      of_class_new m.next m.next m.allranges v.bounded (omega arith) in
    (
      m',
      ground (arith, once, same, wraps),
      phantom,
      refl,
      λ w. ground (arith, w.classes m.next, phantom, none'),
    )
