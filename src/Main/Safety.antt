-- ===== src/Main/Safety.antt =====
-- `main` of src/main.cpp: every hart that it reaches.
use riscv32_emulator.Prelude.{
  ℕ, ◌+◌, ◌-◌, refl, Bool, true, false, ◌||◌, ltb, leb, List, [], ◌∷◌, Option, some, none, if_cases,
  u32, IsU8, arith,
}
use riscv32_emulator.Prelude.Lists.{length}
use riscv32_emulator.Outcome.{bind-Ensures, Outcome, done, fail, Ends, returns, fails, Ensures, Any}
use riscv32_emulator.Console.{World, LinuxFile, image, initramfs, device_tree, print, trouble}
use riscv32_emulator.Csr.{Csrs}
use riscv32_emulator.Memory.Basic.{BasicMemory, write_byte, read_byte, in_region}
use riscv32_emulator.Memory.Manager
use riscv32_emulator.Memory.Manager.{MemoryMapManager, get_handler, register_handler}
use riscv32_emulator.Hart.State.{Hart, new_hart}
use riscv32_emulator.Hart.WellFormed.{AreWords}
use riscv32_emulator.Hart.Privilege.Confined.{in_supervisor}
use riscv32_emulator.Hart.Privilege.Steps.{IsSafe}
use riscv32_emulator.Main.{
  load_bytes, load_memory, boot, main_memory, start_address, Exit, not_loaded, ended, load_or_exit,
  main, aborted, Run,
}
use riscv32_emulator.Main.Loop.{Holds, at_aborted, run-IsSafe}

-- Every element of the array is a byte.
abbrev pub IsByteArray : BasicMemory → Type 0
IsByteArray m = (i : ℕ) → IsU8 (m.memory_array i)

write_byte-IsByteArray : (addr v : ℕ) → Ensures IsByteArray Any (write_byte addr v)
unfolding write_byte
write_byte-IsByteArray addr v m b =
    if_cases (Ends IsByteArray Any) (in_region m addr) (returns tt (λ i. ground (arith, b i)))
      (fails b)

load_bytes-IsByteArray :
    (addr last : ℕ) (bytes : List ℕ) → Ensures IsByteArray Any (load_bytes addr last bytes)
unfolding load_bytes
load_bytes-IsByteArray addr last [] m b =
    if_cases (Ends IsByteArray Any) (ltb addr last) (returns tt b) (returns tt b)
load_bytes-IsByteArray addr last (x ∷ bytes) m b =
    if_cases (Ends IsByteArray Any) (ltb addr last)
      (bind-Ensures (write_byte addr x) (λ _. load_bytes (u32 (addr + 1)) last bytes)
        (write_byte-IsByteArray addr x) (λ _ _. load_bytes-IsByteArray (u32 (addr + 1)) last bytes)
        m b)
      (returns tt b)

load_memory-IsByteArray :
    (file : Option (List ℕ)) (start : ℕ) → Ensures IsByteArray Any (load_memory file start)
unfolding load_memory
load_memory-IsByteArray none start m b = returns tt b
load_memory-IsByteArray (some bytes) start m b =
    if_cases (Ends IsByteArray Any) (ltb start m.base || leb m.region_size (u32 (length bytes)))
      (returns tt b) (load_bytes-IsByteArray start (u32 (start + u32 (length bytes))) bytes m b)

-- The hart that the loop starts with is safe.
boot-IsSafe :
    (now period : ℕ) (csr : Csrs) (m : BasicMemory) (w : World)
    → AreWords csr
    → IsByteArray m
    → IsSafe (boot now period csr m w)
unfolding boot new_hart Manager.read_byte get_handler read_byte register_handler
boot-IsSafe now period csr m w c b = (
  record {
    zero_reads = refl;
    registers = λ i. ground arith;
    csrs = c;
    pc_word = omega arith;
    bytes = λ addr v e. ground (arith, b (addr - m.base));
  },
  in_supervisor refl,
)

-- `P` is true of the hart that `main` stands at, if there is one.
pub data Reaches (P : Hart → Type 0) : Exit → Type 0 where
  at_not_loaded : {w : World} → Reaches P (not_loaded w)
  at_ended : {r : Run} → Holds P r → Reaches P (ended r)

module _ (files : LinuxFile → Option (List ℕ)) (w : World) where
  load_or_exit-Reaches :
      (P : Hart → Type 0) (name : LinuxFile) (next : BasicMemory → Exit)
      → ((m : BasicMemory) → IsByteArray m → Reaches P (next m))
      → (m : BasicMemory) → IsByteArray m
      → Reaches P (load_or_exit files name w next m)
  unfolding load_or_exit
  load_or_exit-Reaches P name next k m b =
      after (load_memory (files name) (start_address name) m)
        (load_memory-IsByteArray (files name) (start_address name) m b)
    where
      after :
          (o : Outcome BasicMemory Bool)
          → Ends IsByteArray Any o
          → Reaches P (elim o [
            | done true memory' ↦ next memory'
            | done false memory' ↦ not_loaded (print (trouble name) w)
            | fail e memory' ↦ ended (aborted e)
          ])
      after (done true m') (returns _ b') = k m' b'
      after (done false m') (returns _ b') = at_not_loaded
      after (fail e m') (fails b') = at_ended at_aborted

  -- Whatever the files hold, whether they load or not, and with any words in the uninitialised CSRs:
  -- every hart that `main` reaches is well-formed, and in supervisor mode or with the bit `spp`
  -- clear.
  pub main-IsSafe :
      (fuel : ℕ) (clock : List ℕ) (now period : ℕ) (csr : Csrs)
      → AreWords csr
      → Reaches IsSafe (main fuel clock files now period csr w)
  unfolding main
  main-IsSafe fuel clock now period csr c =
      load_or_exit-Reaches IsSafe image _
        (load_or_exit-Reaches IsSafe initramfs _ (
          load_or_exit-Reaches IsSafe device_tree _
            (λ m b. at_ended (run-IsSafe fuel clock _ (boot-IsSafe now period csr m w c b)))))
        main_memory (λ i. omega arith)
