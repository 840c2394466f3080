-- ===== src/Memory/Basic.antt =====
-- src/basic_memory.cpp: `BasicMemory`, an array of bytes at a base address.
pub mod Store
use riscv32_emulator.Prelude.{
  ℕ, ◌+◌, ◌-◌, ◌^◌, ◌%◌, Bool, ◌&&◌, ltb, leb, ◌==◌, if◌then◌else◌, u8, u32,
}
use riscv32_emulator.Outcome.{Result, ok, err, Outcome, done, fail, assertion_failed, M}
use riscv32_emulator.Memory.Handler.{MemoryMapHandler}

-- `memory_array` is the array of `region_size` bytes, by index.
pub record BasicMemory : Type 0 where
  pub base : ℕ
  pub region_size : ℕ
  pub memory_array : ℕ → ℕ

-- The constructor: `std::make_unique<uint8_t[]>` makes zeros.
abbrev pub basic_memory : ℕ → ℕ → BasicMemory
basic_memory base_addr size = record { base = base_addr; region_size = size; memory_array = λ _. 0 }

-- The condition of the `assert`s, which the build type of CMakeLists.txt leaves in.
abbrev pub in_region : BasicMemory → ℕ → Bool
in_region m addr = leb m.base addr && ltb addr (u32 (m.base + m.region_size))

unfoldable pub read_byte : BasicMemory → ℕ → Result ℕ
read_byte m addr =
    if in_region m addr then ok (m.memory_array (addr - m.base)) else err assertion_failed

-- `memoryArray[i] = val`
abbrev pub update : (ℕ → ℕ) → ℕ → ℕ → ℕ → ℕ
update f i v j = if i == j then v else f j

unfoldable pub write_byte : ℕ → ℕ → M BasicMemory (Unit {0})
write_byte addr v m =
    if in_region m addr
    then done tt (record m { memory_array = update m.memory_array (addr - m.base) (u8 v) })
    else fail assertion_failed m

abbrev pub basic_memory_handler : MemoryMapHandler BasicMemory
basic_memory_handler = record {
  read_byte = read_byte;
  write_byte = write_byte;
  base_addr = λ m. m.base;
  region_size = λ m. m.region_size;
}
