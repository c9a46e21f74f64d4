-- ===== src/Ec/Mgr/Cut.antt =====
-- src/eqclassmgr.cpp: one range of a class is cut at the bounds of the new range.
use neo.Base.{
  ◌+◌, ◌-◌, ◌%◌, ◌≤◌, ◌<◌, ◌≡◌, inl, inr, Bool, true, false, not, ◌&&◌, ltb, leb, some, arith,
  if◌then◌else◌, Bool-cases,
}
use neo.Ip.Address.{IPv4Address, u32_mod, add, sub}
use neo.Ec.Range.{EcRange, EcPtr, overlaps, contains}
use neo.Ec.RangeSet.{RangeSet, insert, owner}
use neo.Ec.RangeSet.Laws.{Apart, In}
use neo.Ec.RangeSet.Owner.{owner-insert}
use neo.Ec.RangeSet.Parts.{Apart-part, Apart-insert, In-insert}
use neo.Ec.Mgr.{Splitting, keep_lower, keep_upper}
use neo.Ec.Mgr.Split.{Fits, insert_old-Fits}

-- A range with addresses.
pub record IsProper (r : EcRange) : Type 0 where
  pub ordered : r.lb ≤ r.ub
  pub bound : r.ub < u32_mod

module _ (e n : EcPtr) (start : RangeSet) (older : e < n) where
  -- The part `r1` of the range `r` is still to be placed, and its addresses passed the test; the
  -- rest of `r` stays in its class.
  pub record Phase (r : EcRange) (s : Splitting) (test : IPv4Address → Bool) (r1 : EcRange)
      (s1 : Splitting) : Type 0 where
    pub fits : Fits e n start s1
    pub proper : IsProper r1
    pub lower : r.lb ≤ r1.lb
    pub upper : r1.ub ≤ r.ub
    pub same : r1.ec ≡ e
    pub apart : Apart r1 s1.all
    pub members : (q : EcRange) → In q s.all → In q s1.all
    pub owners :
        (a : IPv4Address)
        → owner a s1.all ≡ (if contains r a && not (contains r1 a) then some e else owner a s.all)
    pub tested : (a : IPv4Address) → contains r1 a ≡ contains r a && test a

  module _ (r : EcRange) (s : Splitting) (v : Fits e n start s) (w : IsProper r) (same : r.ec ≡ e)
      (apart : Apart r s.all) where
    uncut :
        (test : IPv4Address → Bool)
        → ((a : IPv4Address) → contains r a ≡ contains r a && test a)
        → Phase r s test r s
    uncut test h = record {
      fits = v;
      proper = w;
      lower = omega arith;
      upper = omega arith;
      same = same;
      apart = apart;
      members = λ q i. i;
      owners = λ a. ground arith;
      tested = h;
    }

    -- The piece `p` goes back to the class, and `r1` is left.
    cut :
        (test : IPv4Address → Bool) (p r1 : EcRange)
        → p.ec ≡ e
        → r1.ec ≡ e
        → p.lb ≤ p.ub
        → r1.lb ≤ r1.ub
        → (r.lb ≤ p.lb) × (p.ub ≤ r.ub) × (r.lb ≤ r1.lb) × (r1.ub ≤ r.ub)
        → overlaps p r1 ≡ false
        → ((a : IPv4Address) → contains p a ≡ contains r a && not (contains r1 a))
        → ((a : IPv4Address) → contains r1 a ≡ contains r a && test a)
        → Phase r s test r1 (record s { all = insert p s.all; old = insert p s.old })
    cut test p r1 pe r1e ple r1le b disj rest h = record {
      fits =
          insert_old-Fits e n start older p s v pe (Apart-part r p s.all b.0 b.1 apart) ple
            (omega (arith, w.bound));
      proper = record { ordered = r1le; bound = omega (arith, w.bound) };
      lower = b.2;
      upper = b.3;
      same = r1e;
      apart = Apart-insert r1 p s.all disj (Apart-part r r1 s.all b.2 b.3 apart);
      members = λ q i. In-insert q p s.all i;
      owners =
          λ a. ground (arith, owner-insert a p s.all (Apart-part r p s.all b.0 b.1 apart), rest a);
      tested = h;
    }

    pub keep_lower-Phase :
        (range : EcRange)
        → IsProper range
        → overlaps r range ≡ true
        → Phase r s (λ a. leb range.lb a) (keep_lower range r s).0 (keep_lower range r s).1
    unfolding keep_lower sub
    keep_lower-Phase range wr o = elim (Bool-cases (ltb r.lb range.lb)) [
      | inl yes' ↦ rw yes' (
          cut (λ a. leb range.lb a) (record r { ub = (range.lb + u32_mod - 1) % u32_mod })
            (record r { lb = range.lb }) same same (ground arith) (ground arith) (ground arith)
            (ground arith) (λ a. ground arith) (λ a. ground arith))
      | inr no' ↦ rw no' (uncut (λ a. leb range.lb a) (λ a. ground arith))
    ]

    pub keep_upper-Phase :
        (range : EcRange)
        → IsProper range
        → overlaps r range ≡ true
        → Phase r s (λ a. leb a range.ub) (keep_upper range r s).0 (keep_upper range r s).1
    unfolding keep_upper add
    keep_upper-Phase range wr o = elim (Bool-cases (ltb range.ub r.ub)) [
      | inl yes' ↦ rw yes' (
          cut (λ a. leb a range.ub) (record r { lb = (range.ub + 1) % u32_mod })
            (record r { ub = range.ub }) same same (ground arith) (ground arith) (ground arith)
            (ground arith) (λ a. ground arith) (λ a. ground arith))
      | inr no' ↦ rw no' (uncut (λ a. leb a range.ub) (λ a. ground arith))
    ]
