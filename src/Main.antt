-- ===== src/Main.antt =====
-- src/main.cpp: loading the files into memory, and the loop that runs the hart.
pub mod Loop
pub mod Load
pub mod Boot
pub mod Safety
use riscv32_emulator.Prelude.{
  ℕ, zero, suc, ◌+◌, ◌%◌, ◌^◌, ◌*◌, Bool, true, false, not, ◌||◌, ltb, leb, List, [], ◌∷◌, ◌++◌,
  u32, Option, some, none, if◌then◌else◌,
}
use riscv32_emulator.Prelude.Lists.{length}
use riscv32_emulator.Outcome.{
  M, Outcome, done, fail, Failure, throws, assertion_failed, out_of_fuel,
}
use riscv32_emulator.Console.{
  World, emulator_config, print, message, trouble, LinuxFile, image, initramfs, device_tree,
}
use riscv32_emulator.Csr.{Csrs}
use riscv32_emulator.Memory.Basic.{
  BasicMemory, basic_memory, basic_memory_handler, write_byte, update,
}
use riscv32_emulator.Memory.Manager.{MemoryMapManager, register_handler}
use riscv32_emulator.Hart.State.{Hart, Memory, new_hart, set_a1}
use riscv32_emulator.Hart.Step.{step_instruction}

-- The loop of `loadMemory` over the bytes that are left in the file. Its end wraps at 32 bits.
unfoldable pub load_bytes : ℕ → ℕ → List ℕ → M BasicMemory Bool
load_bytes addr last [] m = if ltb addr last then done false m else done true m
load_bytes addr last (b ∷ bytes) m =
    let rest = λ (m' : BasicMemory). load_bytes (u32 (addr + 1)) last bytes m' in
    if ltb addr last
    then (elim (write_byte addr b m) [ done _ m' ↦ rest m' | fail e m' ↦ fail e m' ])
    else done true m

-- `loadMemory`: the argument is the content of the file, or `none` if it does not open.
unfoldable pub load_memory : Option (List ℕ) → ℕ → M BasicMemory Bool
unfolding load_bytes
load_memory none start m = done false m
load_memory (some bytes) start m =
    let n_bytes = u32 (length bytes) in
    if ltb start m.base || leb m.region_size n_bytes
    then done false m
    else load_bytes start (u32 (start + n_bytes)) bytes m

-- How a run of the loop stands: it goes on, it has ended, or the process has aborted or hangs.
pub data Run : Type 0 where
  running stopped : Hart → Run
  aborted : Failure → Run

-- The body of `while(isRunning)`: an exception is printed and ends the loop.
unfoldable pub caught : Outcome Hart (Unit {0}) → Run
caught (done _ h) = running h
caught (fail (throws e) h) =
    let world = print (message (throws e)) h.world in
    running (record h { world = record world { is_running = false } })
caught (fail assertion_failed h) = aborted assertion_failed
caught (fail out_of_fuel h) = aborted out_of_fuel

-- The next round of the loop, if there is one.
abbrev pub go_on : (Hart → Run) → Run → Run
go_on again (running h) = again h
go_on again (stopped h) = stopped h
go_on again (aborted e) = aborted e

-- The loop, for as many steps as there are readings of the clock.
unfoldable pub run : ℕ → List ℕ → Hart → Run
unfolding caught
run fuel [] h = if h.world.is_running then running h else stopped h
run fuel (now ∷ clock) h =
    let next = caught (step_instruction fuel now h) in
    if h.world.is_running then go_on (run fuel clock) next else stopped h

-- What `main` sets up before the loop, from the three files that were loaded into `memory`: the
-- hart starts at the kernel, with the address of the device tree in a1.
unfoldable pub boot : ℕ → ℕ → Csrs → BasicMemory → World → Hart
boot now period csr memory world =
    let mmap = register_handler basic_memory_handler memory (record { handlers = [] }) in
    let h = new_hart emulator_config now period csr 0x80400000 mmap world in set_a1 0x87000000 h

-- The memory of `main`.
abbrev pub main_memory : BasicMemory
main_memory = basic_memory 0x80000000 0x8000000

-- The address that each file is loaded to.
unfoldable pub start_address : LinuxFile → ℕ
start_address image = 0x80400000
start_address initramfs = 0x84400000
start_address device_tree = 0x87000000

-- How `main` ends: with -1 after a file that could not be read, or as its loop does. An exception
-- while a file is loaded is caught nowhere.
pub data Exit : Type 0 where
  not_loaded : World → Exit
  ended : Run → Exit

-- One `if(!loadMemory(...))` of `main`, and what follows it.
unfoldable pub load_or_exit :
    (LinuxFile → Option (List ℕ)) → LinuxFile → World → (BasicMemory → Exit) → BasicMemory → Exit
unfolding load_memory
load_or_exit files name world next memory =
    elim (load_memory (files name) (start_address name) memory) [
      | done true memory' ↦ next memory'
      | done false memory' ↦ not_loaded (print (trouble name) world)
      | fail e memory' ↦ ended (aborted e)
    ]

-- `main`: `files` is the content of each file, `none` where it does not open; `now` is the clock
-- when the hart is constructed, `csr` its uninitialised CSRs. The terminal is set up by
-- `initCurses`, which none of this state sees.
unfoldable pub main : ℕ → List ℕ → (LinuxFile → Option (List ℕ)) → ℕ → ℕ → Csrs → World → Exit
unfolding load_or_exit boot
main fuel clock files now period csr world =
    load_or_exit files image world
      (load_or_exit files initramfs world (
        load_or_exit files device_tree world
          (λ memory. ended (run fuel clock (boot now period csr memory world)))))
      main_memory
