-- ===== src/Plankton/Within.antt =====
-- src/plankton.cpp: the indices of the current connection and of the current sub-invariant.
pub mod Forward
pub mod Others
pub mod Invs
pub mod Run
