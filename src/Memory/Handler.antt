-- ===== src/Memory/Handler.antt =====
-- src/mem_map_handler.hpp: the abstract class `MemoryMapHandler`, as its operations on the objects
-- of a subclass, and the laws that a client of the memory map relies on.
use riscv32_emulator.Prelude.{ℕ, ◌+◌, ◌≡◌, Bool, true, ◌&&◌, ltb, leb, ◌==◌, if◌then◌else◌, u8, u32}
use riscv32_emulator.Outcome.{Result, ok, done, M}

-- `readByte` is a const method; `writeByte` changes the object.
pub record MemoryMapHandler (H : Type 0) : Type 0 where
  pub read_byte : H → ℕ → Result ℕ
  pub write_byte : ℕ → ℕ → M H (Unit {0})
  pub base_addr : H → ℕ
  pub region_size : H → ℕ

module _ {H : Type 0} (ops : MemoryMapHandler H) where
  open ops use {read_byte, write_byte, base_addr, region_size}

  -- The test by which the manager selects a handler: `lastAddr` wraps at 32 bits.
  abbrev pub covers : H → ℕ → Bool
  covers h addr = leb (base_addr h) addr && ltb addr (u32 (base_addr h + region_size h))

  -- At every address that it covers, a handler is a store of bytes.
  pub record IsByteStore : Type 0 where
    pub reads : (h : H) (addr : ℕ) → covers h addr ≡ true → (v : ℕ) × (read_byte h addr ≡ ok v)
    pub writes :
        (h : H) (addr v : ℕ)
        → covers h addr ≡ true
        → (h' : H) × (write_byte addr v h ≡ done tt h')
          × (base_addr h' ≡ base_addr h)
          × (region_size h' ≡ region_size h)
    pub read-write :
        (h h' : H) (addr at v : ℕ)
        → covers h addr ≡ true
        → covers h at ≡ true
        → write_byte addr v h ≡ done tt h'
        → read_byte h' at ≡ (if addr == at then ok (u8 v) else read_byte h at)
