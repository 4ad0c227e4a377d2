-- ===== src/Instruction.antt =====
-- The instruction set: loader/skl_*.cpp.
pub mod GenReg
pub mod Cond
pub mod Jump
pub mod System
pub mod FpReg
pub mod IntReg
pub mod BitTest
pub mod RegMem
pub mod Stack
pub mod Vmsvc
pub mod Compare
pub mod Unmoved
pub mod UnmovedMemory
