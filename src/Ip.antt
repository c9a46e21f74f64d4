-- ===== src/Ip.antt =====
-- src/lib/ip.hpp and src/lib/ip.cpp: IPv4 addresses, interfaces, networks and ranges.
pub mod Address
pub mod Network
pub mod Range
pub mod Tests
