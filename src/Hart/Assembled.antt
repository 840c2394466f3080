-- ===== src/Hart/Assembled.antt =====
-- Assembled instructions, executed by `stepInstruction` of src/rv32/hart.cpp. This file finds the
-- case, and the children say what it does.
pub mod Arithmetic
pub mod Jumps
pub mod Memory
pub mod Atomics
pub mod Reserved
pub mod System
pub mod Fetch
pub mod Steps
pub mod Timer
use riscv32_emulator.Prelude.{
  ℕ, ◌+◌, ◌*◌, ◌%◌, ◌^◌, ◌<◌, ◌≡◌, ◌∙◌, sym, ap, ap₂, refl, Bool, true, false, if_cases, arith, ◌⊎◌,
  inl, inr, u32, Option, some, none, if◌then◌else◌, bit_and,
}
use riscv32_emulator.Outcome.{
  Result, ok, err, Outcome, done, fail, M, lift, modify, pure, ◌>>=◌, ◌>>◌,
}
use riscv32_emulator.Instruction.{rd, rs1, rs2, i_immediate, b_immediate, j_immediate, u_immediate}
use riscv32_emulator.Instruction.Formats.{
  Fields, r_type, i_type, b_type, u_type, j_type, extend, r_type-ReadsR, i_type-ReadsI,
  u_type-ReadsU,
}
use riscv32_emulator.Instruction.Jumps.{b_type-ReadsB, j_type-ReadsJ}
use riscv32_emulator.Decoder.{decode_opcode, decode_instruction_type}
use riscv32_emulator.Decoder.Types.{
  InstructionType, op, op_imm, branch, op_ui, Opcode, add, addi, slli, srli, srai, jal, jalr, lui,
  auipc,
}
use riscv32_emulator.Decoder.Classes.{type_of, decode_opcode-type_of}
use riscv32_emulator.Decoder.Encode.{
  Format, r, i, b, u, j, format_of, Operands, IsOperands, fields_of, rs2_of, word_of, assemble,
}
use riscv32_emulator.Decoder.RoundTrip.{
  decode_opcode-assemble, fields_of-IsFields, imm_fits, imm_even,
}
use riscv32_emulator.Hart.State.{Hart, get_register, set_register}
use riscv32_emulator.Hart.Alu.{op_value, op_imm_value}
use riscv32_emulator.Hart.Control.{
  branch_taken, jump_to, jump_case, exec_branch, exec_jump, exec_op, exec_op_imm, write_rd,
  op_ui_value, exec_op_ui,
}
use riscv32_emulator.Hart.Step.{exec_type, exec}

-- A word that decodes to `o`.
module _ (w : ℕ) (o : Opcode) (e : decode_opcode w ≡ ok o) where
  exec-typed : (fuel : ℕ) (h : Hart) → exec fuel w h ≡ exec_type fuel (type_of o) w h
  unfolding exec
  exec-typed fuel h =
      ap (λ (t : Result InstructionType). (lift t >>= λ t'. exec_type fuel t' w) h)
        (decode_opcode-type_of w o e)

  pub exec-of :
      (fuel : ℕ) (t : InstructionType) (h : Hart)
      → type_of o ≡ t
      → exec fuel w h ≡ exec_type fuel t w h
  exec-of fuel t h k = exec-typed fuel h ∙ ap (λ t'. exec_type fuel t' w h) k

  pub decoded :
      (k : Opcode → M Hart (Unit {0})) (h : Hart) → (lift (decode_opcode w) >>= k) h ≡ k o h
  decoded k h = ap (λ (d : Result Opcode). (lift d >>= k) h) e
