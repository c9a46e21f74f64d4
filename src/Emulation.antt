-- ===== src/Emulation.antt =====
-- src/pkt-hist.cpp, src/emulation.cpp, src/middlebox.cpp: the histories of the middleboxes, and how an
-- emulation is brought to the state of a history.
pub mod History
pub mod Order
pub mod Emu
pub mod Replay
pub mod Tests
