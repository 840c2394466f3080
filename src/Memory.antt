-- ===== src/Memory.antt =====
-- The memory map: src/mem_map_handler.hpp, src/basic_memory.cpp and src/mem_map_manager.cpp.
pub mod Handler
pub mod Basic
pub mod Manager
