-- ===== src/Tests.antt =====
-- Concrete machines, and the theorems of the other modules at them.
mod Demo
mod Harts
mod Memories
mod Words
mod Programs
mod Assembled
mod Faults
mod Privileges
mod Boots
