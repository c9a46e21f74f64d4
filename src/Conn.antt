-- ===== src/Conn.antt =====
-- src/conn.cpp, src/connmatrix.cpp, src/invariant/invariant.cpp: the connections of an invariant.
pub mod Connection
pub mod Spec
pub mod Matrix
pub mod Tests
