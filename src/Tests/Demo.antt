-- ===== src/Tests/Demo.antt =====
-- A machine with one memory, whose page tables map the page 0x5000 to 0x3000, and with the word
-- `addi a0, zero, 5` there. The table at 0 points to itself.
use riscv32_emulator.Prelude.{ℕ, ◌^◌, ◌<◌, refl, true, false, List, [], ◌∷◌, switch, arith}
use riscv32_emulator.Console.{World, emulator_config}
use riscv32_emulator.Csr.{Csrs}
use riscv32_emulator.Memory.Basic.{BasicMemory, read_byte}
use riscv32_emulator.Memory.Manager
use riscv32_emulator.Memory.Manager.{get_handler}
use riscv32_emulator.Hart.State.{Hart}
use riscv32_emulator.Hart.WellFormed.{AreWords, IsWellFormed}

abbrev pub bytes : ℕ → ℕ
bytes i =
    switch i
      ((0, 0x01)
        ∷ (0x1000, 0x01)
        ∷ (0x1001, 0x08)
        ∷ (0x2014, 0xcf)
        ∷ (0x2015, 0x0c)
        ∷ (0x3000, 0x13)
        ∷ (0x3001, 0x05)
        ∷ (0x3002, 0x50)
        ∷ [])
      0

abbrev pub small_memory : BasicMemory
small_memory = record { base = 0; region_size = 0x4000; memory_array = bytes }

abbrev pub memories : List BasicMemory
memories = small_memory ∷ []

abbrev pub csrs : Csrs
csrs = record {
  cycle = 0xffffffff;
  cycleh = 7;
  time = 0xffffffff;
  timeh = 0;
  instret = 0;
  instreth = 0;
  sscratch = 0;
  sepc = 0;
  stval = 0;
  sstatus = 0x100022;
  sie = 0x22;
  stvec = 0x5000;
  scounteren = 0;
  scause = 0;
  sip = 0;
  satp = 0x80000001;
}

abbrev pub quiet : World
quiet = record { is_running = true; output = []; getch = λ _. 0xffffffff; polls = 0 }

abbrev pub machine : Hart
machine = record {
  hart_config = emulator_config;
  mem = record { handlers = memories };
  gpr = λ _. 0;
  csr = csrs;
  pc = 0x5000;
  last_time = 1000;
  timebase_period = 100;
  time_compare = 0;
  supervisor_mode = true;
  should_increment_pc = false;
  reservation_set_valid = false;
  world = quiet;
}

pub csrs-AreWords : AreWords csrs
csrs-AreWords = ground arith

bytes-lt : (i : ℕ) → bytes i < 2 ^ 8
bytes-lt i = ground arith

pub machine-IsWellFormed : IsWellFormed machine
unfolding Manager.read_byte get_handler read_byte
machine-IsWellFormed = record {
  zero_reads = refl;
  registers = λ i. omega arith;
  csrs = csrs-AreWords;
  pc_word = omega arith;
  bytes = λ addr v e. ground (arith, bytes-lt addr);
}
