-- ===== src/Tests/Memories.antt =====
-- The theorems about memory and about loading a file, at the memory of Tests.Demo.
use riscv32_emulator.Prelude.{◌<◌, ◌≡◌, refl, List, [], ◌∷◌, arith, some}
use riscv32_emulator.Outcome.{fail, throws, no_registered_handler}
use riscv32_emulator.Memory.Basic.{BasicMemory, basic_memory_handler}
use riscv32_emulator.Memory.Basic.Store.{in_region-bound, basic_memory-IsByteStore}
use riscv32_emulator.Memory.Manager.{write_byte}
use riscv32_emulator.Memory.Manager.Access.{
  map_of, IsWritten, write_byte-IsWritten, write_byte-unmapped,
}
use riscv32_emulator.Memory.Manager.RoundTrip.{IsWordWritten, write_word-IsWordWritten}
use riscv32_emulator.Main.{load_memory, main_memory}
use riscv32_emulator.Main.Load.{IsLoaded, load_memory-IsLoaded}
use riscv32_emulator.Tests.Demo.{small_memory, memories}

write_word-IsWordWritten_example :
    (hs' : List BasicMemory) × IsWordWritten basic_memory_handler basic_memory-IsByteStore memories
      hs' 0x3ffc 0xdeadbeef
write_word-IsWordWritten_example =
    write_word-IsWordWritten basic_memory_handler basic_memory-IsByteStore memories 0x3ffc
      0xdeadbeef (omega arith) (omega arith) refl refl refl refl

write_byte-IsWritten_example :
    (hs' : List BasicMemory) × IsWritten basic_memory_handler basic_memory-IsByteStore memories hs'
      0x3fff 0x123
write_byte-IsWritten_example =
    write_byte-IsWritten basic_memory_handler basic_memory-IsByteStore memories 0x3fff 0x123 refl

write_byte-unmapped_example :
    write_byte basic_memory_handler 0x4000 7 (map_of basic_memory_handler memories)
    ≡ fail (throws no_registered_handler) (map_of basic_memory_handler memories)
write_byte-unmapped_example = write_byte-unmapped basic_memory_handler memories 0x4000 7 refl

in_region-bound_example : 0x3fff < 0x4000
in_region-bound_example = in_region-bound small_memory 0x3fff refl

load_memory-IsLoaded_example :
    IsLoaded main_memory 0x400000
      (1 ∷ 2 ∷ 3 ∷ [])
      (load_memory (some (1 ∷ 2 ∷ 3 ∷ [])) 0x80400000 main_memory)
load_memory-IsLoaded_example =
    load_memory-IsLoaded (1 ∷ 2 ∷ 3 ∷ []) 0x80400000 main_memory (omega arith) (omega arith)
      (omega arith) (omega arith)
