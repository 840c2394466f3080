-- ===== src/Memory/Basic/Store.antt =====
-- `BasicMemory` of src/basic_memory.cpp as a store of bytes.
use riscv32_emulator.Prelude.{ℕ, ◌-◌, ◌≡◌, ◌<◌, true, ◌==◌, if◌then◌else◌, u8, refl, arith}
use riscv32_emulator.Outcome.{ok, done}
use riscv32_emulator.Memory.Handler.{IsByteStore}
use riscv32_emulator.Memory.Basic.{
  BasicMemory, basic_memory_handler, in_region, read_byte, write_byte, update,
}

-- Every address that passes the assertion of `BasicMemory` gives an index below the size of the
-- array, also where the end of the region wraps at 32 bits.
pub in_region-bound :
    (m : BasicMemory) (addr : ℕ) → in_region m addr ≡ true → addr - m.base < m.region_size
in_region-bound m addr h = ground arith

read-write :
    (m m' : BasicMemory) (addr at v : ℕ)
    → in_region m addr ≡ true
    → in_region m at ≡ true
    → write_byte addr v m ≡ done tt m'
    → read_byte m' at ≡ (if addr == at then ok (u8 v) else read_byte m at)
unfolding read_byte write_byte
read-write m m' addr at v h k e = ground arith

-- `BasicMemory` is a store of bytes at every address that the manager takes it to cover: a read
-- returns a byte, a write returns and keeps the region, and a read after a write gives the byte
-- written at that address and what was there at any other.
pub basic_memory-IsByteStore : IsByteStore basic_memory_handler
unfolding read_byte write_byte
basic_memory-IsByteStore = record {
  reads = λ m addr h. (m.memory_array (addr - m.base), ground arith);
  writes = λ m addr v h. (
    record m { memory_array = update m.memory_array (addr - m.base) (u8 v) },
    ground arith,
    refl,
    refl,
  );
  read-write = read-write;
}
