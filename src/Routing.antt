-- ===== src/Routing.antt =====
-- src/route.cpp and src/routingtable.cpp: routes and the routing table of a node.
pub mod Route
pub mod Table
pub mod Tests
