-- ===== src/Memory/Manager.antt =====
-- src/mem_map_manager.cpp: `MemoryMapManager`, which routes each access to the first registered
-- handler whose region holds the address. Reads of a half-word or a word are made of reads of
-- bytes, low byte first, and so are writes.
pub mod Access
pub mod Bytes
pub mod Words
pub mod RoundTrip
use riscv32_emulator.Prelude.{
  ℕ, zero, suc, ◌+◌, ◌*◌, ◌/◌, ◌^◌, ◌%◌, bit_and, bit_or, Bool, List, [], ◌∷◌, ◌++◌, if◌then◌else◌,
  u8, u16, u32, ◌<<<◌, ◌>>>◌,
}
use riscv32_emulator.Outcome.{
  Result, ok, err, Outcome, done, fail, throws, no_registered_handler, M, ◌>>◌, result_bind,
}
use riscv32_emulator.Memory.Handler.{MemoryMapHandler, covers}

-- `std::vector<MemoryMapHandler*> handlers`
pub record MemoryMapManager (H : Type 0) : Type 0 where
  pub handlers : List H

module _ {H : Type 0} (ops : MemoryMapHandler H) where
  open ops use {read_byte as handler_read, write_byte as handler_write}

  -- `getHandler(addr)`: the handlers in front of the one that covers `addr`, that handler, and the
  -- rest, so that a write through the returned reference can be put back.
  unfoldable pub get_handler : List H → ℕ → Result (List H × H × List H)
  get_handler [] addr = err (throws no_registered_handler)
  get_handler (h ∷ hs) addr =
      if covers ops h addr
      then ok ([], h, hs)
      else result_bind (get_handler hs addr)
          (λ (before, found, after). ok (h ∷ before, found, after))

  -- `registerHandler`
  unfoldable pub register_handler : H → MemoryMapManager H → MemoryMapManager H
  register_handler h m = record { handlers = m.handlers ++ (h ∷ []) }

  unfoldable pub read_byte : MemoryMapManager H → ℕ → Result ℕ
  read_byte m addr = result_bind (get_handler m.handlers addr) (λ (_, h, _). handler_read h addr)

  unfoldable pub read_halfword : MemoryMapManager H → ℕ → Result ℕ
  read_halfword m addr = result_bind (read_byte m addr) λ byte0.
      result_bind (read_byte m (u32 (addr + 1))) λ byte1. ok (u16 (bit_or byte0 (byte1 <<< 8)))

  unfoldable pub read_word : MemoryMapManager H → ℕ → Result ℕ
  read_word m addr = result_bind (read_halfword m addr) λ half0.
      result_bind (read_halfword m (u32 (addr + 2))) λ half1. ok (u32 (bit_or half0 (half1 <<< 16)))

  -- The handler's new state goes back to its place, however its write ended.
  abbrev put_back : List H → List H → Outcome H (Unit {0}) → Outcome (MemoryMapManager H) (Unit {0})
  put_back before after (done _ h) = done tt (record { handlers = before ++ h ∷ after })
  put_back before after (fail e h) = fail e (record { handlers = before ++ h ∷ after })

  unfoldable pub write_byte : ℕ → ℕ → M (MemoryMapManager H) (Unit {0})
  write_byte addr v m = elim (get_handler m.handlers addr) [
    | ok (before, h, after) ↦ put_back before after (handler_write addr v h)
    | err e ↦ fail e m
  ]

  unfoldable pub write_halfword : ℕ → ℕ → M (MemoryMapManager H) (Unit {0})
  write_halfword addr v = do
    write_byte addr (bit_and v 0xff)
    write_byte (u32 (addr + 1)) (bit_and (v >>> 8) 0xff)

  unfoldable pub write_word : ℕ → ℕ → M (MemoryMapManager H) (Unit {0})
  write_word addr v = do
    write_halfword addr (bit_and v 0xffff)
    write_halfword (u32 (addr + 2)) (bit_and (v >>> 16) 0xffff)
