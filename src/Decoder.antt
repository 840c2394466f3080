-- ===== src/Decoder.antt =====
-- src/rv32/decoder.cpp: the type of an instruction and its operation.
pub mod Types
pub mod Classes
pub mod Encode
pub mod RoundTrip
use riscv32_emulator.Prelude.{
  ℕ, ◌%◌, ◌/◌, ◌^◌, bit_and, ◌>>>◌, switch, List, [], ◌∷◌, Bool, true, false, ◌==◌, if◌then◌else◌,
}
use riscv32_emulator.Outcome.{
  Exception, Result, ok, err, Failure, throws, unknown_instruction_type, unknown_load,
  unknown_store, unknown_branch, unknown_jump, unknown_amo, unknown_op_imm, unknown_op,
  unknown_m_extension, unknown_sfence, unknown_system, unknown_op_ui, unknown_op_fence, result_bind,
}
use riscv32_emulator.Instruction.{opcode, funct3, funct7, rs2, i_immediate}
use riscv32_emulator.Decoder.Types.{
  InstructionType, load, store, branch, jump, amo, op_imm, op, system, op_ui, op_fence, Opcode, lui,
  auipc, jal, jalr, beq, bne, blt, bge, bltu, bgeu, lb, lh, lw, lbu, lhu, sb, sh, sw, addi, slti,
  sltiu, xori, ori, andi, slli, srli, srai, add, sub, sll, slt, sltu, xor, srl, sra, or, and, fence,
  ecall, ebreak, sret, wfi, sfence_vma, sinval_vma, sfence_w_inval, sfence_inval_ir, csrrw, csrrs,
  csrrc, csrrwi, csrrsi, csrrci, fence_i, mul, mulh, mulhsu, mulhu, div, divu, rem, remu, lr_w,
  sc_w, amoswap_w, amoadd_w, amoxor_w, amoand_w, amoor_w, amomin_w, amomax_w, amominu_w, amomaxu_w,
}

abbrev decoder_error {ℓ} : {A : Type ℓ} → (ℕ → Exception) → ℕ → Result A
decoder_error e instr = err (throws (e instr))

unfoldable pub decode_instruction_type : ℕ → Result InstructionType
unfolding opcode
decode_instruction_type instr =
    switch (opcode instr)
      ((0b0000011, ok load)
        ∷ (0b0100011, ok store)
        ∷ (0b1100011, ok branch)
        ∷ (0b1100111, ok jump)
        ∷ (0b1101111, ok jump)
        ∷ (0b0101111, ok amo)
        ∷ (0b0010011, ok op_imm)
        ∷ (0b0110011, ok op)
        ∷ (0b1110011, ok system)
        ∷ (0b0110111, ok op_ui)
        ∷ (0b0010111, ok op_ui)
        ∷ (0b0001111, ok op_fence)
        ∷ [])
      (decoder_error unknown_instruction_type instr)

-- The cases of `decodeOpcode`, one function for each type of instruction.
unfoldable pub decode_load : ℕ → Result Opcode
decode_load instr =
    switch (funct3 instr)
      ((0b000, ok lb) ∷ (0b001, ok lh) ∷ (0b010, ok lw) ∷ (0b100, ok lbu) ∷ (0b101, ok lhu) ∷ [])
      (decoder_error unknown_load instr)

unfoldable pub decode_store : ℕ → Result Opcode
decode_store instr =
    switch (funct3 instr) ((0b000, ok sb) ∷ (0b001, ok sh) ∷ (0b010, ok sw) ∷ [])
      (decoder_error unknown_store instr)

unfoldable pub decode_branch : ℕ → Result Opcode
decode_branch instr =
    switch (funct3 instr)
      ((0b000, ok beq)
        ∷ (0b001, ok bne)
        ∷ (0b100, ok blt)
        ∷ (0b101, ok bge)
        ∷ (0b110, ok bltu)
        ∷ (0b111, ok bgeu)
        ∷ [])
      (decoder_error unknown_branch instr)

unfoldable pub decode_jump : ℕ → Result Opcode
decode_jump instr =
    switch (opcode instr) ((0b1100111, ok jalr) ∷ (0b1101111, ok jal) ∷ [])
      (decoder_error unknown_jump instr)

unfoldable pub decode_amo : ℕ → Result Opcode
decode_amo instr =
    switch (funct7 instr >>> 2)
      ((0b00010, ok lr_w)
        ∷ (0b00011, ok sc_w)
        ∷ (0b00001, ok amoswap_w)
        ∷ (0b00000, ok amoadd_w)
        ∷ (0b00100, ok amoxor_w)
        ∷ (0b01100, ok amoand_w)
        ∷ (0b01000, ok amoor_w)
        ∷ (0b10000, ok amomin_w)
        ∷ (0b10100, ok amomax_w)
        ∷ (0b11000, ok amominu_w)
        ∷ (0b11100, ok amomaxu_w)
        ∷ [])
      (decoder_error unknown_amo instr)

-- The case 0b101 that finds neither shift runs into the default.
unfoldable pub decode_op_imm : ℕ → Result Opcode
decode_op_imm instr =
    switch (funct3 instr)
      ((0b000, ok addi)
        ∷ (0b010, ok slti)
        ∷ (0b011, ok sltiu)
        ∷ (0b100, ok xori)
        ∷ (0b110, ok ori)
        ∷ (0b111, ok andi)
        ∷ (0b001, ok slli)
        ∷ (0b101, right_shift)
        ∷ [])
      otherwise
  where
    otherwise : Result Opcode
    otherwise = decoder_error unknown_op_imm instr

    right_shift : Result Opcode
    right_shift =
        if funct7 instr == 0b0000000
        then ok srli
        else if funct7 instr == 0b0100000
        then ok srai
        else otherwise

-- `ADD` or `SUB`, `SRL` or `SRA`, by `funct7`.
abbrev by_funct7 : ℕ → Opcode → Opcode → Result Opcode
by_funct7 instr plain alternate =
    if funct7 instr == 0b0000000
    then ok plain
    else if funct7 instr == 0b0100000
    then ok alternate
    else decoder_error unknown_op instr

unfoldable pub decode_base_op : ℕ → Result Opcode
decode_base_op instr =
    switch (funct3 instr)
      ((0b000, by_funct7 instr add sub)
        ∷ (0b001, ok sll)
        ∷ (0b010, ok slt)
        ∷ (0b011, ok sltu)
        ∷ (0b100, ok xor)
        ∷ (0b101, by_funct7 instr srl sra)
        ∷ (0b110, ok or)
        ∷ (0b111, ok and)
        ∷ [])
      (decoder_error unknown_op instr)

unfoldable pub decode_m_extension : ℕ → Result Opcode
decode_m_extension instr =
    switch (funct3 instr)
      ((0b000, ok mul)
        ∷ (0b001, ok mulh)
        ∷ (0b010, ok mulhsu)
        ∷ (0b011, ok mulhu)
        ∷ (0b100, ok div)
        ∷ (0b101, ok divu)
        ∷ (0b110, ok rem)
        ∷ (0b111, ok remu)
        ∷ [])
      (decoder_error unknown_m_extension instr)

unfoldable pub decode_op : ℕ → Result Opcode
unfolding decode_base_op decode_m_extension
decode_op instr =
    if bit_and (funct7 instr) 0b0000001 == 0 then decode_base_op instr else decode_m_extension instr

-- `funct3` 0: the inner `switch` over `funct7` has no default and no `break` follows it, so that
-- what it does not list runs into the case of CSRRW.
unfoldable pub decode_privileged : ℕ → Result Opcode
decode_privileged instr =
    switch (i_immediate instr)
      ((0x000, ok ecall) ∷ (0x001, ok ebreak) ∷ (0x102, ok sret) ∷ (0x105, ok wfi) ∷ [])
      (switch (funct7 instr)
        ((0b0001001, ok sfence_vma) ∷ (0b0001011, ok sinval_vma) ∷ (0b0001100, inval) ∷ [])
        (ok csrrw))
  where
    inval : Result Opcode
    inval =
        if rs2 instr == 0b00000
        then ok sfence_w_inval
        else if rs2 instr == 0b00001
        then ok sfence_inval_ir
        else decoder_error unknown_sfence instr

unfoldable pub decode_system : ℕ → Result Opcode
unfolding decode_privileged
decode_system instr =
    switch (funct3 instr)
      ((0b000, decode_privileged instr)
        ∷ (0b001, ok csrrw)
        ∷ (0b010, ok csrrs)
        ∷ (0b011, ok csrrc)
        ∷ (0b101, ok csrrwi)
        ∷ (0b110, ok csrrsi)
        ∷ (0b111, ok csrrci)
        ∷ [])
      (decoder_error unknown_system instr)

unfoldable pub decode_op_ui : ℕ → Result Opcode
decode_op_ui instr =
    switch (opcode instr) ((0b0110111, ok lui) ∷ (0b0010111, ok auipc) ∷ [])
      (decoder_error unknown_op_ui instr)

unfoldable pub decode_op_fence : ℕ → Result Opcode
decode_op_fence instr =
    switch (funct3 instr) ((0b000, ok fence) ∷ (0b001, ok fence_i) ∷ [])
      (decoder_error unknown_op_fence instr)

unfoldable pub decode_by_type : InstructionType → ℕ → Result Opcode
decode_by_type load = decode_load
decode_by_type store = decode_store
decode_by_type branch = decode_branch
decode_by_type jump = decode_jump
decode_by_type amo = decode_amo
decode_by_type op_imm = decode_op_imm
decode_by_type op = decode_op
decode_by_type system = decode_system
decode_by_type op_ui = decode_op_ui
decode_by_type op_fence = decode_op_fence

unfoldable pub decode_opcode : ℕ → Result Opcode
unfolding decode_instruction_type decode_by_type decode_load decode_store decode_branch decode_jump
    decode_amo decode_op_imm decode_op decode_system decode_op_ui decode_op_fence
decode_opcode instr = result_bind (decode_instruction_type instr) (λ t. decode_by_type t instr)
