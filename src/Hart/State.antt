-- ===== src/Hart/State.antt =====
-- The class `Hart` of src/rv32/hart.hpp, its registers, and its calls of the memory map.
use riscv32_emulator.Prelude.{ℕ, Bool, true, false}
use riscv32_emulator.Outcome.{done, fail, M, lift}
use riscv32_emulator.Console.{World, HartConfig}
use riscv32_emulator.Csr.{Csrs}
use riscv32_emulator.Memory.Basic.{BasicMemory, basic_memory_handler, update}
use riscv32_emulator.Memory.Manager
use riscv32_emulator.Memory.Manager.{MemoryMapManager}

abbrev pub Memory : Type 0
Memory = MemoryMapManager BasicMemory

-- `gpr` is the array `r` of the union `Registers`. `world` is what the callbacks act on.
pub record Hart : Type 0 where
  pub hart_config : HartConfig
  pub mem : Memory
  pub gpr : ℕ → ℕ
  pub csr : Csrs
  pub pc : ℕ
  pub last_time : ℕ
  pub timebase_period : ℕ
  pub time_compare : ℕ
  pub supervisor_mode : Bool
  pub should_increment_pc : Bool
  pub reservation_set_valid : Bool
  pub world : World

pub data MemoryAccessType : Type 0 where
  read write execute : MemoryAccessType

pub data ExceptionCode : Type 0 where
  instr_illegal breakpoint instr_misaligned load_misaligned str_amo_misaligned : ExceptionCode
  load_access_fault str_amo_access_fault instr_access_fault u_ecall s_ecall : ExceptionCode
  instr_page_fault load_page_fault str_amo_page_fault : ExceptionCode

-- The numbers of the enumeration.
unfoldable pub code_number : ExceptionCode → ℕ
code_number instr_illegal = 2
code_number breakpoint = 3
code_number instr_misaligned = 0
code_number load_misaligned = 4
code_number str_amo_misaligned = 6
code_number load_access_fault = 5
code_number str_amo_access_fault = 7
code_number instr_access_fault = 1
code_number u_ecall = 8
code_number s_ecall = 9
code_number instr_page_fault = 12
code_number load_page_fault = 13
code_number str_amo_page_fault = 15

-- `Registers::reset`
abbrev pub reset_registers : ℕ → ℕ
reset_registers i = 0

-- The constructor. Nothing there sets `csr`: its first value is an argument. `now` is the clock,
-- and `period` the value of the floating-point expression for `timebasePeriod`.
unfoldable pub new_hart : HartConfig → ℕ → ℕ → Csrs → ℕ → Memory → World → Hart
new_hart config now period csr pc mem world = record {
  hart_config = config;
  mem = mem;
  gpr = reset_registers;
  csr = csr;
  pc = pc;
  last_time = now;
  timebase_period = period;
  time_compare = 0;
  supervisor_mode = true;
  should_increment_pc = false;
  reservation_set_valid = false;
  world = world;
}

-- `Hart::reset` clears the registers and nothing else.
unfoldable pub reset : Hart → Hart
reset h = record h { gpr = reset_registers }

-- `Hart::setPC` and the getters. A reference that a getter returns is used by `main` alone, for
-- `getRegisters().a1 = ...`.
unfoldable pub set_pc : ℕ → Hart → Hart
set_pc addr h = record h { pc = addr }

abbrev pub get_pc : Hart → ℕ
get_pc h = h.pc

abbrev pub get_registers : Hart → ℕ → ℕ
get_registers h = h.gpr

abbrev pub get_csrs : Hart → Csrs
get_csrs h = h.csr

abbrev pub get_memory_map_manager : Hart → Memory
get_memory_map_manager h = h.mem

abbrev pub set_a1 : ℕ → Hart → Hart
set_a1 v h = record h { gpr = update (get_registers h) 11 v }

unfoldable pub get_register : ℕ → Hart → ℕ
get_register index h = h.gpr index

-- `gpr.zero = 0` undoes a write to register 0.
unfoldable pub set_register : ℕ → ℕ → Hart → Hart
set_register index v h = record h { gpr = update (update h.gpr index v) 0 0 }

abbrev pub get : M Hart Hart
get h = done h h

abbrev pub read_byte : ℕ → M Hart ℕ
read_byte addr h = lift (Manager.read_byte basic_memory_handler h.mem addr) h

abbrev pub read_halfword : ℕ → M Hart ℕ
read_halfword addr h = lift (Manager.read_halfword basic_memory_handler h.mem addr) h

abbrev pub read_word : ℕ → M Hart ℕ
read_word addr h = lift (Manager.read_word basic_memory_handler h.mem addr) h

abbrev pub on_mem : M Memory (Unit {0}) → M Hart (Unit {0})
on_mem m h = elim (m h.mem) [
  | done _ mem ↦ done tt (record h { mem = mem })
  | fail e mem ↦ fail e (record h { mem = mem })
]

abbrev pub write_byte : ℕ → ℕ → M Hart (Unit {0})
write_byte addr v = on_mem (Manager.write_byte basic_memory_handler addr v)

abbrev pub write_halfword : ℕ → ℕ → M Hart (Unit {0})
write_halfword addr v = on_mem (Manager.write_halfword basic_memory_handler addr v)

abbrev pub write_word : ℕ → ℕ → M Hart (Unit {0})
write_word addr v = on_mem (Manager.write_word basic_memory_handler addr v)
