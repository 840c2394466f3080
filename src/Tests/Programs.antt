-- ===== src/Tests/Programs.antt =====
-- Steps of the machine of Tests.Demo, run.
use riscv32_emulator.Prelude.{◌≡◌, refl}
use riscv32_emulator.BitField.{get_field}
use riscv32_emulator.BitField.Defs.{set_field}
use riscv32_emulator.Outcome.{final}
use riscv32_emulator.Instruction.{
  sign_extend, opcode, rd, funct3, rs1, rs2, funct7, imm_11_0, i_immediate,
}
use riscv32_emulator.Decoder.{decode_instruction_type, decode_opcode, decode_by_type, decode_op_imm}
use riscv32_emulator.Memory.Basic
use riscv32_emulator.Memory.Manager
use riscv32_emulator.Memory.Manager.{get_handler}
use riscv32_emulator.Hart.State.{Hart, set_register, get_register}
use riscv32_emulator.Hart.Alu.{op_imm_value}
use riscv32_emulator.Hart.Control.{exec_op_imm}
use riscv32_emulator.Hart.Counters.{advance_timer, count_instruction, increment_counters}
use riscv32_emulator.Hart.Trap.{handle_interrupts, pending_interrupt}
use riscv32_emulator.Hart.Translate.{
  pte_addr, is_invalid, is_leaf, next_base, decrement, leaf_refused, leaf_address, check_result,
  root_base, walk, translate_address,
}
use riscv32_emulator.Hart.Step.{
  check_alignment, fetch_address, exec_type, exec, advance_pc, step_instruction,
}
use riscv32_emulator.Tests.Demo.{machine}

abbrev after_step : Hart
after_step = final (step_instruction 2 1050 machine)

-- `addi a0, zero, 5`, through two levels of page tables.
addi_runs : (after_step.gpr 10 ≡ 5) × (after_step.pc ≡ 0x5004) × (after_step.csr.cycleh ≡ 8)
unfolding step_instruction translate_address get_field handle_interrupts pending_interrupt
    check_alignment fetch_address exec exec_type advance_pc increment_counters advance_timer
    count_instruction exec_op_imm op_imm_value set_register get_register sign_extend opcode rd
    funct3 rs1 rs2 funct7 imm_11_0 i_immediate decode_instruction_type decode_opcode decode_by_type
    decode_op_imm Manager.read_word Manager.read_halfword Manager.read_byte get_handler pte_addr
    Basic.read_byte is_invalid is_leaf next_base decrement leaf_refused leaf_address set_field walk
    check_result root_base
addi_runs = (refl, refl, refl)
