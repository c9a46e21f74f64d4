-- ===== src/Net.antt =====
-- src/lib/net.cpp: what a received packet means for the connections.
pub mod Flags
pub mod Convert
pub mod Identify
pub mod Numbers
pub mod Segments
pub mod Wire
mod Tests
