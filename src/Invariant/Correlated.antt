-- ===== src/Invariant/Correlated.antt =====
-- src/invariant/conditional.cpp, consistency.cpp: invariants on a list of sub-invariants.
pub mod Verdict
use neo.Base.{ℕ, Bool, true, false, ◌&&◌, ltb, ◌==◌, if◌then◌else◌, ◌+◌}
use neo.Model.{State, set_violated, set_choice_count}
use neo.Invariant.Reach.{conclude, differs}

abbrev pub set_correlated_inv_idx : ℕ → State → State
set_correlated_inv_idx i s = record s { correlated_inv_idx = i }

-- The state after a check, and whether the data plane starts again (POL_REINIT_DP).
pub record Outcome : Type 0 where
  pub state : State
  pub reinit_dp : Bool

abbrev pub pol_null : State → Outcome
pol_null s = record { state = s; reinit_dp = false }

-- On to the next sub-invariant, or the end.
abbrev pub next_inv : ℕ → State → Outcome
next_inv n s =
    if ltb (s.correlated_inv_idx + 1) n
    then record { state = set_correlated_inv_idx (s.correlated_inv_idx + 1) s; reinit_dp = true }
    else pol_null (conclude false s)

-- After the check of a sub-invariant, where `n` is their number.
module _ (n : ℕ) where
  abbrev pub after_conditional : State → Outcome
  after_conditional s =
      if s.choice_count == 0
      then if s.correlated_inv_idx == 0
        then if s.violated then pol_null (conclude false s) else next_inv n s
        else if s.violated
        then pol_null (conclude true s)
        else next_inv n s
      else pol_null s

-- `sub i` is the check of the sub-invariant `i`.
module _ (n : ℕ) (sub : ℕ → State → State) where
  unfoldable pub conditional : State → Outcome
  conditional s = after_conditional n (sub s.correlated_inv_idx s)

-- The object's `unset` and `result`, which outlive the path.
pub record Memory : Type 0 where
  pub unset : Bool
  pub result : Bool

-- The first verdict of all is kept.
abbrev pub keep_first : Memory → State → Memory
keep_first m s = if m.unset then record { unset = false; result = s.violated } else m

module _ (n : ℕ) where
  abbrev pub after_consistency : Memory → State → Memory × Outcome
  after_consistency m s =
      if s.choice_count == 0
      then (
        keep_first m s,
        if differs s.violated (keep_first m s).result
            then pol_null (conclude true s)
            else next_inv n s,
      )
      else (m, pol_null s)

module _ (n : ℕ) (sub : ℕ → State → State) where
  unfoldable pub consistency : Memory → State → Memory × Outcome
  consistency m s = after_consistency n m (sub s.correlated_inv_idx s)
