-- ===== src/Hart/Step.antt =====
-- `Hart::stepInstruction` of src/rv32/hart.cpp.
use riscv32_emulator.Prelude.{ℕ, ◌+◌, bit_and, true, not, ◌==◌, if◌then◌else◌, u32, some, none}
use riscv32_emulator.Outcome.{M, fail, throws, handler_page_fault, pure, lift, modify, ◌>>=◌, ◌>>◌}
use riscv32_emulator.Decoder.{decode_instruction_type}
use riscv32_emulator.Decoder.Types.{
  InstructionType, load, store, branch, jump, amo, op_imm, op, system, op_ui, op_fence,
}
use riscv32_emulator.Hart.State.{Hart, execute, instr_misaligned, instr_page_fault, get, read_word}
use riscv32_emulator.Hart.Trap.{handle_exception, handle_interrupts}
use riscv32_emulator.Hart.Translate.{translate_address}
use riscv32_emulator.Hart.LoadStore.{exec_load, exec_store, exec_amo, raise}
use riscv32_emulator.Hart.Control.{exec_branch, exec_jump, exec_op_imm, exec_op, exec_op_ui}
use riscv32_emulator.Hart.System.{exec_system}
use riscv32_emulator.Hart.Counters.{increment_counters}

-- A misaligned `pc` raises an exception, and the step goes on at the handler.
unfoldable pub check_alignment : Hart → Hart
check_alignment h =
    if not (bit_and h.pc 0b11 == 0) then handle_exception instr_misaligned h.pc h else h

-- The physical address of the instruction: a page fault leads to the handler, and a second one
-- throws.
unfoldable pub fetch_address : ℕ → M Hart ℕ
fetch_address fuel = do
  h ← get
  t ← lift (translate_address fuel h.pc execute h)
  elim t [
    | some at ↦ pure at
    | none ↦ do
      raise instr_page_fault h.pc
      h' ← get
      t' ← lift (translate_address fuel h'.pc execute h')
      elim t' [ some at ↦ pure at | none ↦ λ h''. fail (throws handler_page_fault) h'' ]
  ]

-- The outer `switch`. Its `default` is unreachable: an instruction with no type has thrown.
unfoldable pub exec_type : ℕ → InstructionType → ℕ → M Hart (Unit {0})
exec_type fuel load instr = exec_load fuel instr
exec_type fuel store instr = exec_store fuel instr
exec_type fuel branch instr = exec_branch instr
exec_type fuel jump instr = exec_jump instr
exec_type fuel amo instr = exec_amo fuel instr
exec_type fuel op_imm instr = exec_op_imm instr
exec_type fuel op instr = exec_op instr
exec_type fuel system instr = exec_system instr
exec_type fuel op_ui instr = exec_op_ui instr
exec_type fuel op_fence instr = pure tt

unfoldable pub exec : ℕ → ℕ → M Hart (Unit {0})
unfolding exec_type
exec fuel instr = do t ← lift (decode_instruction_type instr); exec_type fuel t instr

unfoldable pub advance_pc : Hart → Hart
advance_pc h = if h.should_increment_pc then record h { pc = u32 (h.pc + 4) } else h

unfoldable pub step_instruction : ℕ → ℕ → M Hart (Unit {0})
unfolding check_alignment fetch_address exec advance_pc
step_instruction fuel now = do
  modify check_alignment
  modify handle_interrupts
  at ← fetch_address fuel
  instr ← read_word at
  modify (λ h. record h { should_increment_pc = true })
  exec fuel instr
  modify advance_pc
  modify (increment_counters now)
