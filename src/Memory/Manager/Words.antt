-- ===== src/Memory/Manager/Words.antt =====
-- Half-words and words through `MemoryMapManager` (src/mem_map_manager.cpp).
use riscv32_emulator.Prelude.{ℕ, ◌^◌, ◌<◌, ◌≡◌, IsU32, arith}
use riscv32_emulator.Outcome.{ok}
use riscv32_emulator.Memory.Handler.{MemoryMapHandler}
use riscv32_emulator.Memory.Manager.{MemoryMapManager, read_halfword, read_word}

module _ {H : Type 0} (ops : MemoryMapHandler H) (m : MemoryMapManager H) (addr v : ℕ) where
  pub read_halfword-lt : read_halfword ops m addr ≡ ok v → v < 2 ^ 16
  unfolding read_halfword
  read_halfword-lt e = ground arith

  pub read_word-lt : read_word ops m addr ≡ ok v → IsU32 v
  unfolding read_word
  read_word-lt e = ground arith
