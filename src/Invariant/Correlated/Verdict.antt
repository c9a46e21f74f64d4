-- ===== src/Invariant/Correlated/Verdict.antt =====
-- src/invariant/conditional.cpp, consistency.cpp: how the checks walk through the sub-invariants.
use neo.Base.{ℕ, true, false, ◌&&◌, ltb, ◌+◌, ◌≡◌, arith, ◌<◌}
use neo.Model.{State}
use neo.Invariant.Correlated.{after_conditional, conditional}

module _ (n : ℕ) where
  after-restart :
      (t : State)
      → (after_conditional n t).reinit_dp ≡ true
      → (t.choice_count ≡ 0)
        × (t.violated ≡ false)
        × ((after_conditional n t).state.correlated_inv_idx ≡ t.correlated_inv_idx + 1)
        × ((after_conditional n t).state.correlated_inv_idx < n)
  after-restart t h = ground arith

  after-verdict :
      (t : State)
      → t.choice_count ≡ 0
      → (after_conditional n t).reinit_dp ≡ false
      → (after_conditional n t).state.violated ≡ (t.violated && ltb 0 t.correlated_inv_idx)
  after-verdict t h k = ground arith

module _ (n : ℕ) (sub : ℕ → State → State) where
  -- When the conditional asks for a new start, the path of the current sub-invariant has ended
  -- without a violation, and the next one is the sub-invariant after it, which exists.
  pub conditional-restart :
      (s : State)
      → (conditional n sub s).reinit_dp ≡ true
      → ((sub s.correlated_inv_idx s).violated ≡ false)
        × ((conditional n sub s).state.correlated_inv_idx
            ≡ (sub s.correlated_inv_idx s).correlated_inv_idx + 1)
        × ((conditional n sub s).state.correlated_inv_idx < n)
  unfolding conditional
  conditional-restart s h =
      let (c, v, i, l) = after-restart n (sub s.correlated_inv_idx s) h in (v, i, l)

  -- When a sub-invariant's path has ended and the conditional asks for no new start, it is violated
  -- exactly if that sub-invariant is, and is not the first.
  pub conditional-verdict :
      (s : State)
      → (sub s.correlated_inv_idx s).choice_count ≡ 0
      → (conditional n sub s).reinit_dp ≡ false
      → (conditional n sub s).state.violated ≡ (
          (sub s.correlated_inv_idx s).violated
          && ltb 0 (sub s.correlated_inv_idx s).correlated_inv_idx)
  unfolding conditional
  conditional-verdict s h k = after-verdict n (sub s.correlated_inv_idx s) h k
