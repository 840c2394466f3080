-- ===== src/Hart/Invariant.antt =====
-- Every part of `stepInstruction` of src/rv32/hart.cpp keeps the hart well-formed, whether it
-- returns or throws.
pub mod Traps
pub mod Values
pub mod Memory
pub mod Atomics
pub mod Control
pub mod System
pub mod Step
