-- ===== src/Hart/Privilege.antt =====
-- Privilege modes: what instructions of src/rv32/hart.cpp do to the mode and to the CSRs.
pub mod Effect
pub mod Cases
pub mod Contained
pub mod User
pub mod Confined
pub mod Steps
