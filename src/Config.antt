-- ===== src/Config.antt =====
-- src/configparser.cpp: how the configuration becomes nodes, links, updates and specifications of
-- connections.
pub mod Text
pub mod Nodes
pub mod Links
pub mod Conns
pub mod Invs
pub mod Accepted
pub mod Tests
