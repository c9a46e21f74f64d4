-- ===== src/Ec/Mgr/Fill.antt =====
-- src/eqclassmgr.cpp: `add_non_overlapped_ec` gives the uncovered addresses to a new class.
use neo.Base.{
  ℕ, suc, ◌+◌, ◌-◌, ◌≤◌, ◌<◌, ◌≡◌, ◌≢◌, refl, sym, subst, ◌∙◌, inl, inr, Bool, true, false, ◌&&◌,
  ltb, leb, [], ◌∷◌, Option, none, some, arith, if◌then◌else◌, Bool-cases, lt→ltb, ltb→lt,
}
use neo.Ip.Address.{IPv4Address, u32_mod, add, sub}
use neo.Ec.Range.{EcRange, EcPtr, contains, make_range}
use neo.Ec.RangeSet.{RangeSet, owner, insert}
use neo.Ec.RangeSet.Laws.{Ascends, Apart, insert-Ascends}
use neo.Ec.RangeSet.Owner.{owner-insert, owner_below}
use neo.Ec.RangeSet.Parts.{of_class, Bounded, insert-Bounded}
use neo.Ec.Mgr.Add.{Filling, fill_gap, fill_loop}
use neo.Ec.Mgr.Split.{of_class-insert, of_class-insert_ne}
use neo.Ec.Mgr.Cut.{IsProper}

abbrev pub is_none {ℓ} : {A : Type ℓ} → Option A → Bool
is_none none = true
is_none (some a) = false

-- A range whose addresses are all uncovered overlaps nothing.
Apart-of_uncovered :
    (lo : ℕ) (p : EcRange) (rs : RangeSet)
    → p.lb ≤ p.ub
    → Ascends lo rs
    → ((a : IPv4Address) → contains p a ≡ true → owner a rs ≡ none)
    → Apart p rs
unfolding owner
Apart-of_uncovered lo p [] h v u = tt
Apart-of_uncovered lo p (s ∷ rs) h v u = (
  ground (arith, u p.lb, u s.lb),
  Apart-of_uncovered (s.ub + 1) p rs h v.2 (λ a c. ground (arith, u a c)),
)

module _ (n : EcPtr) (start : RangeSet) (range : EcRange) (wide : IsProper range) where
  -- Below `lb` the uncovered addresses of the new range belong to the new class.
  pub record Filled (lb : IPv4Address) (f : Filling) : Type 0 where
    pub ascends : Ascends 0 f.all
    pub bounded : Bounded (suc n) f.all
    pub fresh_eq : f.fresh ≡ of_class n f.all
    pub others : (x : EcPtr) → x ≢ n → of_class x f.all ≡ of_class x start
    pub owners :
        (a : IPv4Address)
        → owner a f.all ≡ (
            if leb range.lb a && ltb a lb && is_none (owner a start) then some n else owner a start)

  -- One gap, from `lb` to `ub`.
  pub fill_gap-Filled :
      (lb ub : IPv4Address) (f : Filling)
      → Filled lb f
      → range.lb ≤ lb
      → lb ≤ ub
      → ub ≤ range.ub
      → ((a : IPv4Address) → lb ≤ a → a ≤ ub → owner a start ≡ none)
      → (f' : Filling) × (fill_gap n lb ub f ≡ some f') × Filled (ub + 1) f'
  unfolding fill_gap make_range
  fill_gap-Filled lb ub f v h le ge u =
      let r : EcRange = record { lb = lb; ub = ub; ec = n } in
      let free : Apart r f.all =
        Apart-of_uncovered 0 r f.all le v.ascends (λ a c. ground (arith, v.owners a, u a)) in
      (
        record { all = insert r f.all; fresh = insert r f.fresh },
        ground arith,
        record {
          ascends = insert-Ascends 0 r f.all (omega arith) le v.ascends;
          bounded =
              insert-Bounded (suc n) r f.all (omega (arith, wide.bound)) (omega arith) v.bounded;
          fresh_eq = rw v.fresh_eq (sym (of_class-insert n r f.all v.ascends free refl));
          others = λ x ne. of_class-insert_ne x r f.all (λ q. ne (sym q)) ∙ v.others x ne;
          owners = λ a. ground (arith, owner-insert a r f.all free, v.owners a, u a);
        },
      )

  -- The overlapping ranges end in the new range, and before the last address.
  abbrev pub EndsIn : RangeSet → Type 0
  EndsIn [] = Unit
  EndsIn (r ∷ rs) = (r.ub ≤ range.ub) × (r.ub < u32_mod - 1) × EndsIn rs

  -- The covered addresses between are not touched.
  skip-Filled :
      (lb lb' : IPv4Address) (f : Filling)
      → Filled lb f
      → lb ≤ lb'
      → ((a : IPv4Address) → lb ≤ a → a < lb' → is_none (owner a start) ≡ false)
      → Filled lb' f
  skip-Filled lb lb' f v h c = record {
    ascends = v.ascends;
    bounded = v.bounded;
    fresh_eq = v.fresh_eq;
    others = v.others;
    owners = λ a. ground (arith, v.owners a, c a);
  }

  -- The gap before the next overlapping range, if there is one.
  abbrev before : IPv4Address → EcRange → Filling → Option Filling
  before lb it f = if ltb lb it.lb then fill_gap n lb (sub it.lb 1) f else some f

  before_gap :
      (lb : IPv4Address) (it : EcRange) (f : Filling)
      → lb < it.lb
      → it.lb ≤ range.ub
      → before lb it f ≡ fill_gap n lb (it.lb - 1) f
  before_gap lb it f h le = rw (lt→ltb lb it.lb h, pred_eq)
    where
      pred_eq : sub it.lb 1 ≡ it.lb - 1
      pred_eq = unfold sub in omega (arith, wide.bound)

  before-Filled :
      (lb : IPv4Address) (it : EcRange) (f : Filling)
      → Filled lb f
      → range.lb ≤ lb
      → lb ≤ it.lb
      → it.lb ≤ range.ub
      → ((a : IPv4Address) → lb ≤ a → a < it.lb → owner a start ≡ none)
      → (f' : Filling) × (before lb it f ≡ some f') × Filled it.lb f'
  before-Filled lb it f v h le ge u = elim (Bool-cases (ltb lb it.lb)) [
    | inl p ↦
        let less : lb < it.lb = ltb→lt lb it.lb p in
        let (f', e, w) =
          fill_gap-Filled lb (it.lb - 1) f v h (omega arith) (omega arith)
            (λ a l g. u a l (omega arith)) in
        (f', before_gap lb it f less ge ∙ e, subst (λ l. Filled l f') (omega arith) w)
    | inr p ↦ (f, rw p refl, subst (λ l. Filled l f) (ground arith) v)
  ]

  fill_loop_step :
      (lb : IPv4Address) (it : EcRange) (its : RangeSet) (f f1 : Filling)
      → before lb it f ≡ some f1
      → it.ub < u32_mod - 1
      → fill_loop n lb (it ∷ its) f ≡ fill_loop n (it.ub + 1) its f1
  unfolding fill_loop
  fill_loop_step lb it its f f1 e h = rw (e, next_eq)
    where
      next_eq : add it.ub 1 ≡ it.ub + 1
      next_eq = unfold add in omega arith

  -- What the loop has done when it ends.
  pub record Looped (lb : IPv4Address) (its : RangeSet) (f : Filling) : Type 0 where
    pub end : IPv4Address
    pub result : Filling
    pub result_eq : fill_loop n lb its f ≡ some (end, result)
    pub filled : Filled end result
    pub from : range.lb ≤ end
    pub upto : end ≤ range.ub + 1
    pub rest : (a : IPv4Address) → end ≤ a → a ≤ range.ub → owner a start ≡ none

  pub fill_loop-Looped :
      (lb : IPv4Address) (its : RangeSet) (f : Filling)
      → Filled lb f
      → range.lb ≤ lb
      → lb ≤ range.ub + 1
      → Ascends lb its
      → EndsIn its
      → ((a : IPv4Address) → lb ≤ a → a ≤ range.ub → owner a start ≡ owner a its)
      → Looped lb its f
  unfolding owner fill_loop
  fill_loop-Looped lb [] f v h k asc ends rem = record {
    end = lb;
    result = f;
    result_eq = refl;
    filled = v;
    from = h;
    upto = k;
    rest = rem;
  }
  fill_loop-Looped lb (it ∷ its) f v h k asc ends rem =
      let (f1, e1, v1) =
        before-Filled lb it f v h asc.0 (omega arith)
          (λ a l g. ground (arith, rem a l, owner_below (it.ub + 1) a its (omega arith) asc.2)) in
      let v2 : Filled (it.ub + 1) f1 =
        skip-Filled it.lb (it.ub + 1) f1 v1 (omega arith) (λ a l g. ground (arith, rem a)) in
      let t =
        fill_loop-Looped (it.ub + 1) its f1 v2 (omega arith) (omega arith) asc.2 ends.2
          (λ a l g. ground (arith, rem a)) in
      record {
        end = t.end;
        result = t.result;
        result_eq = fill_loop_step lb it its f f1 e1 ends.1 ∙ t.result_eq;
        filled = t.filled;
        from = t.from;
        upto = t.upto;
        rest = t.rest;
      }
