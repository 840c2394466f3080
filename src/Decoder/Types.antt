-- ===== src/Decoder/Types.antt =====
-- The enumerations of src/rv32/decoder.hpp.

pub data InstructionType : Type 0 where
  load store branch jump amo op_imm op system op_ui op_fence : InstructionType

pub data Opcode : Type 0 where
  lui auipc jal jalr beq bne blt bge bltu : Opcode
  bgeu lb lh lw lbu lhu sb sh sw addi slti : Opcode
  sltiu xori ori andi slli srli srai add : Opcode
  sub sll slt sltu xor srl sra or and : Opcode
  fence ecall ebreak sret wfi sfence_vma : Opcode
  sinval_vma sfence_w_inval sfence_inval_ir : Opcode
  csrrw csrrs csrrc csrrwi csrrsi csrrci : Opcode
  fence_i : Opcode
  mul mulh mulhsu mulhu div divu rem remu : Opcode
  lr_w sc_w amoswap_w amoadd_w amoxor_w : Opcode
  amoand_w amoor_w amomin_w amomax_w : Opcode
  amominu_w amomaxu_w : Opcode
