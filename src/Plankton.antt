-- ===== src/Plankton.antt =====
-- src/plankton.cpp, src/invariant/*.cpp: the verifier, which runs the processes and the invariant on
-- the state, and the tasks that it forks.
pub mod Checks
pub mod Step
pub mod Within
pub mod Restart
pub mod Tasks
pub mod Tests
