-- ===== src/Ec/Mgr/Split.antt =====
-- src/eqclassmgr.cpp: what `split_intersected_ec` does to the ranges of the classes.
use neo.Base.{ℕ, zero, suc, ◌≤◌, ◌<◌, ◌≡◌, ◌≢◌, sym, ◌∙◌, ◌==◌, arith, length, ne→==, ==-refl}
use neo.Ip.Address.{u32_mod}
use neo.Ec.Range.{EcRange, EcPtr}
use neo.Ec.RangeSet.{RangeSet, insert, erase}
use neo.Ec.RangeSet.Laws.{
  Ascends, Apart, In, insert-Ascends, erase-Ascends, keep-insert, keep-insert_dropped, keep-erase,
  erase_noop,
}
use neo.Ec.RangeSet.Parts.{
  of_class, erase-Apart, Apart-of_class, Bounded, insert-Bounded, erase-Bounded,
}
use neo.Ec.Class.{EqClass, rm_range, rm_loop}
use neo.Ec.Mgr.{Splitting}

-- The second erasure finds nothing, so the loop of `rm_range` erases once.
rm_range-erase : (r : EcRange) (rs : EqClass) → rm_range r rs ≡ erase r rs
unfolding rm_range
rm_range-erase r rs = rm_loop-erase (length rs) r rs
  where
    rm_loop-erase : (f : ℕ) (r : EcRange) (rs : EqClass) → rm_loop (suc f) r rs ≡ erase r rs
    rm_loop-erase zero r rs = ground arith
    rm_loop-erase (suc f) r rs =
        ground (arith, rm_loop-erase f r (erase r rs), erase_noop r (erase r rs) (erase-Apart r rs))

-- The two classes hold their ranges of `all`, and the others are as at the start.
pub record Fits (e n : EcPtr) (start : RangeSet) (s : Splitting) : Type 0 where
  pub ascends : Ascends 0 s.all
  pub old_eq : s.old ≡ of_class e s.all
  pub moved_eq : s.moved ≡ of_class n s.all
  pub bounded : Bounded (suc n) s.all
  pub others : (x : EcPtr) → x ≢ e → x ≢ n → of_class x s.all ≡ of_class x start

pub of_class-insert :
    (x : EcPtr) (p : EcRange) (rs : RangeSet)
    → Ascends 0 rs
    → Apart p rs
    → p.ec ≡ x
    → of_class x (insert p rs) ≡ insert p (of_class x rs)
of_class-insert x p rs v h same = keep-insert 0 (λ r. r.ec == x) p rs v (rw same (==-refl x)) h

pub of_class-insert_ne :
    (x : EcPtr) (p : EcRange) (rs : RangeSet) → p.ec ≢ x → of_class x (insert p rs) ≡ of_class x rs
of_class-insert_ne x p rs h = keep-insert_dropped (λ r. r.ec == x) p rs (ne→== p.ec x h)

of_class-erase_ne :
    (x : EcPtr) (r : EcRange) (rs : RangeSet)
    → Ascends 0 rs
    → In r rs
    → r.ec ≢ x
    → of_class x (erase r rs) ≡ of_class x rs
of_class-erase_ne x r rs v h ne =
    keep-erase (λ q. q.ec == x) r rs ∙ erase_noop r (of_class x rs) (Apart-of_class 0 r x rs v h ne)

module _ (e n : EcPtr) (start : RangeSet) (older : e < n) where
  differ : e ≢ n
  differ q = omega arith

  -- A range of the old class goes into both sets.
  pub insert_old-Fits :
      (p : EcRange) (s : Splitting)
      → Fits e n start s
      → p.ec ≡ e
      → Apart p s.all
      → p.lb ≤ p.ub
      → p.ub < u32_mod
      → Fits e n start (record s { all = insert p s.all; old = insert p s.old })
  insert_old-Fits p s v same h le b = record {
    bounded = insert-Bounded (suc n) p s.all b (omega arith) v.bounded;
    ascends = insert-Ascends 0 p s.all (omega arith) le v.ascends;
    old_eq = rw v.old_eq (sym (of_class-insert e p s.all v.ascends h same));
    moved_eq = v.moved_eq ∙ sym (of_class-insert_ne n p s.all (λ q. differ (sym same ∙ q)));
    others = λ x ne nn. of_class-insert_ne x p s.all (λ q. ne (sym q ∙ same)) ∙ v.others x ne nn;
  }

  pub insert_moved-Fits :
      (p : EcRange) (s : Splitting)
      → Fits e n start s
      → p.ec ≡ n
      → Apart p s.all
      → p.lb ≤ p.ub
      → p.ub < u32_mod
      → Fits e n start (record s { all = insert p s.all; moved = insert p s.moved })
  insert_moved-Fits p s v same h le b = record {
    bounded = insert-Bounded (suc n) p s.all b (omega arith) v.bounded;
    ascends = insert-Ascends 0 p s.all (omega arith) le v.ascends;
    old_eq = v.old_eq ∙ sym (of_class-insert_ne e p s.all (λ q. differ (sym q ∙ same)));
    moved_eq = rw v.moved_eq (sym (of_class-insert n p s.all v.ascends h same));
    others = λ x ne nn. of_class-insert_ne x p s.all (λ q. nn (sym q ∙ same)) ∙ v.others x ne nn;
  }

  pub erase_old-Fits :
      (r : EcRange) (s : Splitting)
      → Fits e n start s
      → r.ec ≡ e
      → In r s.all
      → Fits e n start (record s { all = erase r s.all; old = rm_range r s.old })
  erase_old-Fits r s v same h = record {
    bounded = erase-Bounded (suc n) r s.all v.bounded;
    ascends = erase-Ascends 0 r s.all v.ascends;
    old_eq = rw (rm_range-erase r s.old, v.old_eq) (sym (keep-erase (λ q. q.ec == e) r s.all));
    moved_eq =
        v.moved_eq ∙ sym (of_class-erase_ne n r s.all v.ascends h (λ q. differ (sym same ∙ q)));
    others = λ x ne nn.
        of_class-erase_ne x r s.all v.ascends h (λ q. ne (sym q ∙ same)) ∙ v.others x ne nn;
  }
