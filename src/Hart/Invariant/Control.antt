-- ===== src/Hart/Invariant/Control.antt =====
-- The cases BRANCH, JUMP, OP_IMM, OP and OP_UI of src/rv32/hart.cpp keep the hart well-formed.
use riscv32_emulator.Prelude.{ℕ, ◌+◌, Bool, false, IsU32, u32, arith, Option, some, none}
use riscv32_emulator.Prelude.Bits.{bit_and-lt}
use riscv32_emulator.BitField.{mod-lt_two_pow}
use riscv32_emulator.Outcome.{modify, returns, bind-Ensures}
use riscv32_emulator.Decoder.Types.{Opcode, jal, jalr}
use riscv32_emulator.Instruction.{rd, rs1, rs2, i_immediate, b_immediate, j_immediate, u_immediate}
use riscv32_emulator.Hart.State.{Hart, get_register}
use riscv32_emulator.Hart.Control.{
  branch_taken, jump_to, exec_branch, jump_case, exec_jump, write_rd, exec_op_imm, exec_op,
  exec_op_ui,
}
use riscv32_emulator.Hart.WellFormed.{IsWellFormed, set_register-IsWellFormed}
use riscv32_emulator.Hart.Invariant.Values.{
  Each, op_value-lt, op_imm_value-lt, op_ui_value-lt, i_immediate-lt, u_immediate-lt,
}
use riscv32_emulator.Hart.Invariant.Memory.{
  Keeps, pure-Keeps, modify-Keeps, set_register-Keeps, decoded-Keeps, if-Keeps,
}

jump_to-IsWellFormed :
    (target : ℕ) {h : Hart} → IsU32 target → IsWellFormed h → IsWellFormed (jump_to target h)
unfolding jump_to
jump_to-IsWellFormed target ht w = record {
  zero_reads = w.zero_reads;
  registers = w.registers;
  csrs = w.csrs;
  pc_word = ht;
  bytes = w.bytes;
}

pub exec_branch-Keeps : (instr : ℕ) → Keeps (exec_branch instr)
unfolding exec_branch
exec_branch-Keeps instr h w =
    decoded-Keeps instr _
      (λ o.
        if-Keeps (branch_taken o (get_register (rs1 instr) h) (get_register (rs2 instr) h))
          (modify-Keeps _
            (λ h'. jump_to-IsWellFormed (u32 (h.pc + b_immediate instr)) (omega arith)))
          pure-Keeps)
      h w

jump_case-Keeps : (o : Opcode) (instr : ℕ) → Keeps (jump_case o instr)
unfolding jump_case
jump_case-Keeps jal instr h w = returns tt (
    jump_to-IsWellFormed (u32 (h.pc + j_immediate instr)) (omega arith)
      (set_register-IsWellFormed (rd instr) (u32 (h.pc + 4)) (omega arith) w))
jump_case-Keeps jalr instr h w = returns tt (
    jump_to-IsWellFormed _ (bit_and-lt 32 _ 0xfffffffe (mod-lt_two_pow 32 _))
      (set_register-IsWellFormed (rd instr) (u32 (h.pc + 4)) (omega arith) w))
jump_case-Keeps _ instr h w = returns tt w

-- Flags of the hart that the invariant does not see.
pub increment-Keeps : (b : Bool) → Keeps (modify (λ h. record h { should_increment_pc = b }))
increment-Keeps b = modify-Keeps _ λ h w. record {
  zero_reads = w.zero_reads;
  registers = w.registers;
  csrs = w.csrs;
  pc_word = w.pc_word;
  bytes = w.bytes;
}

pub exec_jump-Keeps : (instr : ℕ) → Keeps (exec_jump instr)
unfolding exec_jump
exec_jump-Keeps instr =
    bind-Ensures (modify (λ h. record h { should_increment_pc = false })) _ (increment-Keeps false)
      λ _ _. decoded-Keeps instr (λ o. jump_case o instr) (λ o. jump_case-Keeps o instr)

write_rd-Keeps : (instr : ℕ) (v : Option ℕ) → Each IsU32 v → Keeps (write_rd instr v)
write_rd-Keeps instr none hv = pure-Keeps
write_rd-Keeps instr (some v) hv = set_register-Keeps (rd instr) v hv

pub exec_op-Keeps : (instr : ℕ) → Keeps (exec_op instr)
unfolding exec_op get_register
exec_op-Keeps instr h w =
    decoded-Keeps instr _
      (λ o.
        write_rd-Keeps instr _
          (op_value-lt o (h.gpr (rs1 instr)) (h.gpr (rs2 instr)) (w.registers _) (w.registers _)))
      h w

pub exec_op_imm-Keeps : (instr : ℕ) → Keeps (exec_op_imm instr)
unfolding exec_op_imm get_register
exec_op_imm-Keeps instr h w =
    decoded-Keeps instr _
      (λ o. write_rd-Keeps instr _ (
        op_imm_value-lt o (h.gpr (rs1 instr)) (i_immediate instr) (rs2 instr) (w.registers _)
          (i_immediate-lt instr)))
      h w

pub exec_op_ui-Keeps : (instr : ℕ) → Keeps (exec_op_ui instr)
unfolding exec_op_ui
exec_op_ui-Keeps instr h w =
    decoded-Keeps instr _
      (λ o.
        write_rd-Keeps instr _ (op_ui_value-lt o h.pc (u_immediate instr) (u_immediate-lt instr)))
      h w
