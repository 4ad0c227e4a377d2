-- ===== src/Machine.antt =====
-- loader/skl.h and loader/skl.cpp: the state of the emulator and what every instruction uses.
pub mod State
pub mod Register
pub mod Trap
pub mod Memory
pub mod Bounds
pub mod RoundTrip
pub mod Keeps
pub mod Unmoved
