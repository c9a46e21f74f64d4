-- ===== src/Ec/Class/Bounds.antt =====
-- src/ecrange.cpp: the test that a class lies in a range looks at the class's first and last range.
use neo.Base.{ℕ, ◌+◌, ◌≤◌, ◌≡◌, refl, inl, inr, Bool, true, [], ◌∷◌, some, arith, leb, ◌&&◌}
use neo.Ec.Range.{EcRange}
use neo.Ec.RangeSet.Laws.{Ascends, In, In-bounds}
use neo.Ec.Class.{EqClass, within, last_ub, representative_addr}

last_ub_of_cons :
    (lo : ℕ) (s : EcRange) (c : EqClass)
    → Ascends lo (s ∷ c)
    → (u : ℕ) × (last_ub (s ∷ c) ≡ some u) × ((r : EcRange) → In r (s ∷ c) → r.ub ≤ u)
unfolding last_ub
last_ub_of_cons lo s [] v = (s.ub, refl, λ r i. elim i [ inl e ↦ ground arith | inr j ↦ absurd j ])
last_ub_of_cons lo s (t ∷ c) v =
    let (u, e, all) = last_ub_of_cons (s.ub + 1) t c v.2 in
    (u, e, λ r i. elim i [ inl q ↦ ground (arith, all t (inl refl)) | inr j ↦ all r j ])

-- The test is defined on a class with ranges, and if it passes every range is inside.
pub within_lem :
    (range : EcRange) (c : EqClass) (r0 : EcRange)
    → Ascends 0 c
    → In r0 c
    → (inside : Bool) × (within range c ≡ some inside)
      × (inside ≡ true → (r : EcRange) → In r c → (range.lb ≤ r.lb) × (r.ub ≤ range.ub))
unfolding within representative_addr
within_lem range [] r0 v i = absurd i
within_lem range (s ∷ c) r0 v i =
    let (u, e, all) = last_ub_of_cons 0 s c v in
    (
      leb range.lb s.lb && leb u range.ub,
      rw (e, within),
      λ h r j. ground (arith, all r j, first r j),
    )
  where
    first : (r : EcRange) → In r (s ∷ c) → s.lb ≤ r.lb
    first r (inl q) = ground arith
    first r (inr j) = omega (arith, In-bounds (s.ub + 1) r c v.2 j, v)
