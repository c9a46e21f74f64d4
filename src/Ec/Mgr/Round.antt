-- ===== src/Ec/Mgr/Round.antt =====
-- src/eqclassmgr.cpp: one round of the loop in `split_intersected_ec`, and the loop.
use neo.Base.{
  ℕ, ◌+◌, ◌<◌, ◌≡◌, refl, inl, inr, true, false, ◌&&◌, leb, [], ◌∷◌, some, any, arith,
  if◌then◌else◌, Bool-cases,
}
use neo.Ip.Address.{IPv4Address}
use neo.Ec.Range.{EcRange, EcPtr, overlaps, contains}
use neo.Ec.RangeSet.{RangeSet, insert, erase, owner}
use neo.Ec.RangeSet.Laws.{Ascends, Apart, In, In-bounds}
use neo.Ec.RangeSet.Owner.{owner-insert, owner-erase, owner_of_In}
use neo.Ec.RangeSet.Parts.{erase-Apart, Apart-part, In-insert, In-erase}
use neo.Ec.Class.{rm_range}
use neo.Ec.Mgr.{Splitting, keep_lower, keep_upper, split_range, split_loop}
use neo.Ec.Mgr.Split.{Fits, insert_moved-Fits, erase_old-Fits}
use neo.Ec.Mgr.Cut.{IsProper, Phase, keep_lower-Phase, keep_upper-Phase}

module _ (e n : EcPtr) (start : RangeSet) (older : e < n) (range : EcRange)
    (wide : IsProper range) where
  -- What a round on the range `r` did: the addresses of `r` in the new range moved.
  pub record Rounded (r : EcRange) (s s' : Splitting) : Type 0 where
    pub fits : Fits e n start s'
    pub members : (q : EcRange) → overlaps q r ≡ false → In q s.all → In q s'.all
    pub owners :
        (a : IPv4Address)
        → owner a s'.all ≡ (if contains r a && contains range a then some n else owner a s.all)

  module _ (r : EcRange) (s : Splitting) (v : Fits e n start s) (w : IsProper r) (same : r.ec ≡ e)
      (i : In r s.all) where
    abbrev erased : Splitting
    erased = record s { all = erase r s.all; old = rm_range r s.old }

    erased-Fits : Fits e n start erased
    erased-Fits = erase_old-Fits e n start older r s v same i

    -- After the two cuts the part that is left lies in the new range and moves.
    moved-Rounded :
        (r1 r2 : EcRange) (s1 s2 : Splitting)
        → Phase e n start older r erased (λ a. leb range.lb a) r1 s1
        → Phase e n start older r1 s1 (λ a. leb a range.ub) r2 s2
        → Rounded r s (record s2 {
          all = insert (record r2 { ec = n }) s2.all;
          moved = insert (record r2 { ec = n }) s2.moved;
        })
    moved-Rounded r1 r2 s1 s2 p q = record {
      fits =
          insert_moved-Fits e n start older r3 s2 q.fits refl free q.proper.ordered q.proper.bound;
      members = λ t o j. In-insert t r3 s2.all (q.members t (p.members t (In-erase t r s.all o j)));
      owners = λ a. ground (
        arith,
        owner-insert a r3 s2.all free,
        q.owners a,
        p.owners a,
        q.tested a,
        p.tested a,
        owner-erase 0 a r s.all v.ascends i,
        owner_of_In 0 a r s.all v.ascends i,
      );
    }
      where
        r3 : EcRange
        r3 = record r2 { ec = n }

        free : Apart r3 s2.all
        free = Apart-part r2 r3 s2.all (omega arith) (omega arith) q.apart

    still_overlaps :
        (r1 : EcRange) (s1 : Splitting)
        → Phase e n start older r erased (λ a. leb range.lb a) r1 s1
        → overlaps r range ≡ true
        → overlaps r1 range ≡ true
    still_overlaps r1 s1 p o = ground (arith, p.tested range.lb, p.tested r.lb, p.proper, w, wide)

    pub split_range-Rounded : Rounded r s (split_range n range r s)
    unfolding split_range
    split_range-Rounded = elim (Bool-cases (overlaps r range)) [
      | inl o ↦
          let k1 = keep_lower range r erased in
          let p1 =
            keep_lower-Phase e n start older r erased erased-Fits w same (erase-Apart r s.all) range
              wide o in
          let k2 = keep_upper range k1.0 k1.1 in
          let p2 =
            keep_upper-Phase e n start older k1.0 k1.1 p1.fits p1.proper p1.same p1.apart range wide
              (still_overlaps k1.0 k1.1 p1 o) in
          rw o (moved-Rounded k1.0 k2.0 k1.1 k2.1 p1 p2)
      | inr o ↦ rw o (record { fits = v; members = λ q _ j. j; owners = λ a. ground arith })
    ]

  -- The loop: every address of the listed ranges that is in the new range moves.
  pub split_loop-Rounded :
      (lo : ℕ) (orig : RangeSet) (s : Splitting)
      → Fits e n start s
      → Ascends lo orig
      → ((r : EcRange) → In r orig → IsProper r × (r.ec ≡ e) × In r s.all)
      → Fits e n start (split_loop n range orig s)
        × ((a : IPv4Address)
            → owner a (split_loop n range orig s).all ≡ (
                if any (λ r. contains r a) orig && contains range a then some n else owner a s.all))
  unfolding split_loop
  split_loop-Rounded lo [] s v asc h = (v, λ a. refl)
  split_loop-Rounded lo (r ∷ orig) s v asc h =
      let (w, same, i) = h r (inl refl) in
      let t = split_range-Rounded r s v w same i in
      let (fits, owners) =
        split_loop-Rounded (r.ub + 1) orig (split_range n range r s) t.fits asc.2 (λ q j.
          let (wq, eq, iq) = h q (inr j) in
          (wq, eq, t.members q (ground (arith, In-bounds (r.ub + 1) q orig asc.2 j)) iq)) in
      (fits, λ a. ground (arith, owners a, t.owners a))
