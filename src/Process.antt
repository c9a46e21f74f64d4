-- ===== src/Process.antt =====
-- src/process and src/plankton.cpp: the processes that take the steps of the network model.
pub mod Interface
pub mod Numbers
pub mod Payloads
pub mod Injection
pub mod ChooseConn
pub mod Forwarding
pub mod Switch
pub mod Openflow
pub mod Tests
