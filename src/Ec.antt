-- ===== src/Ec.antt =====
-- src/ecrange.cpp, src/eqclass.cpp and src/eqclassmgr.cpp: equivalence classes of packets.
pub mod Range
pub mod RangeSet
pub mod Class
pub mod Mgr
pub mod Initial
pub mod Tests
