-- ===== src/Invariant.antt =====
-- src/invariant: the invariants, and the check that each makes after a step.
pub mod Reach
pub mod Counts
pub mod Loop
pub mod Correlated
pub mod Combos
pub mod Tests
