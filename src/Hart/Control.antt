-- ===== src/Hart/Control.antt =====
-- The cases BRANCH, JUMP, OP_IMM, OP and OP_UI of `stepInstruction` in src/rv32/hart.cpp.
use riscv32_emulator.Prelude.{
  ℕ, ◌+◌, bit_and, Bool, false, not, ltb, ◌==◌, if◌then◌else◌, u32, Option, some, none,
}
use riscv32_emulator.Outcome.{M, pure, lift, modify, ◌>>=◌, ◌>>◌}
use riscv32_emulator.Instruction.{rd, rs1, rs2, i_immediate, b_immediate, j_immediate, u_immediate}
use riscv32_emulator.Decoder.{decode_opcode}
use riscv32_emulator.Decoder.Types.{Opcode, beq, bne, blt, bge, bltu, bgeu, jal, jalr, lui, auipc}
use riscv32_emulator.Hart.State.{Hart, get, get_register, set_register}
use riscv32_emulator.Hart.Alu.{signed_lt, op_value, op_imm_value}

-- Whether a branch is taken, from the values of `rs1` and `rs2`.
unfoldable pub branch_taken : Opcode → ℕ → ℕ → Bool
branch_taken beq a b = a == b
branch_taken bne a b = not (a == b)
branch_taken blt a b = signed_lt a b
branch_taken bge a b = not (signed_lt a b)
branch_taken bltu a b = ltb a b
branch_taken bgeu a b = not (ltb a b)
branch_taken _ a b = false

unfoldable pub jump_to : ℕ → Hart → Hart
jump_to target h = record h { should_increment_pc = false; pc = target }

unfoldable pub exec_branch : ℕ → M Hart (Unit {0})
unfolding branch_taken jump_to
exec_branch instr = do
  h ← get
  let effective = u32 (h.pc + b_immediate instr)
  o ← lift (decode_opcode instr)
  if branch_taken o (get_register (rs1 instr) h) (get_register (rs2 instr) h)
      then modify (jump_to effective)
      else pure tt

-- The target of JALR is read before `rd` is written.
unfoldable pub jump_case : Opcode → ℕ → M Hart (Unit {0})
unfolding jump_to
jump_case jal instr h =
    modify
      (λ h'. jump_to (u32 (h.pc + j_immediate instr)) (set_register (rd instr) (u32 (h.pc + 4)) h'))
      h
jump_case jalr instr h =
    let effective = u32 (get_register (rs1 instr) h + i_immediate instr) in
    modify
      (λ h'. jump_to (bit_and effective 0xfffffffe) (set_register (rd instr) (u32 (h.pc + 4)) h')) h
jump_case _ instr h = pure tt h

unfoldable pub exec_jump : ℕ → M Hart (Unit {0})
unfolding jump_case
exec_jump instr = do
  modify (λ h. record h { should_increment_pc = false })
  o ← lift (decode_opcode instr)
  jump_case o instr

-- `setRegister(rd, v)`, if the `switch` has a case.
abbrev pub write_rd : ℕ → Option ℕ → M Hart (Unit {0})
write_rd instr (some v) = modify (set_register (rd instr) v)
write_rd instr none = pure tt

unfoldable pub exec_op_imm : ℕ → M Hart (Unit {0})
exec_op_imm instr = do
  h ← get
  o ← lift (decode_opcode instr)
  write_rd instr (op_imm_value o (get_register (rs1 instr) h) (i_immediate instr) (rs2 instr))

unfoldable pub exec_op : ℕ → M Hart (Unit {0})
exec_op instr = do
  h ← get
  o ← lift (decode_opcode instr)
  write_rd instr (op_value o (get_register (rs1 instr) h) (get_register (rs2 instr) h))

unfoldable pub op_ui_value : Opcode → ℕ → ℕ → Option ℕ
op_ui_value lui pc imm = some imm
op_ui_value auipc pc imm = some (u32 (pc + imm))
op_ui_value _ pc imm = none

unfoldable pub exec_op_ui : ℕ → M Hart (Unit {0})
unfolding op_ui_value
exec_op_ui instr = do
  h ← get
  o ← lift (decode_opcode instr)
  write_rd instr (op_ui_value o h.pc (u_immediate instr))
