-- ===== src/Hart.antt =====
-- src/rv32/hart.hpp and src/rv32/hart.cpp: the hardware thread. The state stands in `State`, and
-- each part of `stepInstruction` in a module of its own.
pub mod State
pub mod Trap
pub mod Translate
pub mod Alu
pub mod Manual
pub mod LoadStore
pub mod Control
pub mod System
pub mod Counters
pub mod Step
pub mod WellFormed
pub mod Invariant
pub mod Privilege
pub mod Assembled
