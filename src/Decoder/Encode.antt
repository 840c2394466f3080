-- ===== src/Decoder/Encode.antt =====
-- An assembler by the tables of the manual, and `decodeOpcode` of src/rv32/decoder.cpp on its words.
use riscv32_emulator.Prelude.{ℕ, ◌+◌, ◌*◌, ◌%◌, ◌^◌, ◌<◌, ◌≡◌}
use riscv32_emulator.Instruction.Formats.{Fields, r_type, i_type, s_type, b_type, u_type, j_type}
use riscv32_emulator.Decoder.Types.{
  InstructionType, load, store, branch, jump, amo, op_imm, op, system, op_ui, op_fence, Opcode,
  auipc, jalr, bne, blt, bge, bltu, bgeu, lh, lw, lbu, lhu, sh, sw, slti, sltiu, xori, ori, andi,
  slli, srli, srai, sub, sll, slt, sltu, xor, srl, sra, or, and, ecall, ebreak, sret, wfi,
  sfence_vma, sinval_vma, sfence_w_inval, sfence_inval_ir, csrrw, csrrs, csrrc, csrrwi, csrrsi,
  csrrci, fence_i, mul, mulh, mulhsu, mulhu, div, divu, rem, remu, lr_w, sc_w, amoswap_w, amoxor_w,
  amoand_w, amoor_w, amomin_w, amomax_w, amominu_w, amomaxu_w,
}
use riscv32_emulator.Decoder.Classes.{type_of}

abbrev type_opcode : InstructionType → ℕ
type_opcode load = 0b0000011
type_opcode store = 0b0100011
type_opcode branch = 0b1100011
type_opcode jump = 0b1101111
type_opcode amo = 0b0101111
type_opcode op_imm = 0b0010011
type_opcode op = 0b0110011
type_opcode system = 0b1110011
type_opcode op_ui = 0b0110111
type_opcode op_fence = 0b0001111

abbrev pub opcode_of : Opcode → ℕ
opcode_of jalr = 0b1100111
opcode_of auipc = 0b0010111
opcode_of o = type_opcode (type_of o)

abbrev amo_width : InstructionType → ℕ
amo_width amo = 2
amo_width _ = 0

-- What the manual leaves open is 0 here.
abbrev pub funct3_of : Opcode → ℕ
funct3_of bne = 1
funct3_of blt = 4
funct3_of bge = 5
funct3_of bltu = 6
funct3_of bgeu = 7
funct3_of lh = 1
funct3_of lw = 2
funct3_of lbu = 4
funct3_of lhu = 5
funct3_of sh = 1
funct3_of sw = 2
funct3_of slti = 2
funct3_of sltiu = 3
funct3_of xori = 4
funct3_of ori = 6
funct3_of andi = 7
funct3_of slli = 1
funct3_of srli = 5
funct3_of srai = 5
funct3_of sll = 1
funct3_of slt = 2
funct3_of sltu = 3
funct3_of xor = 4
funct3_of srl = 5
funct3_of sra = 5
funct3_of or = 6
funct3_of and = 7
funct3_of fence_i = 1
funct3_of csrrw = 1
funct3_of csrrs = 2
funct3_of csrrc = 3
funct3_of csrrwi = 5
funct3_of csrrsi = 6
funct3_of csrrci = 7
funct3_of mulh = 1
funct3_of mulhsu = 2
funct3_of mulhu = 3
funct3_of div = 4
funct3_of divu = 5
funct3_of rem = 6
funct3_of remu = 7
funct3_of o = amo_width (type_of o)

abbrev amo_funct7 : InstructionType → ℕ → ℕ → ℕ
amo_funct7 amo f5 aqrl = f5 * 2 ^ 2 + aqrl
amo_funct7 _ f5 aqrl = 0

-- The upper five bits of an atomic operation's `funct7`; the lower two are `aq` and `rl`.
abbrev funct5_of : Opcode → ℕ
funct5_of lr_w = 0b00010
funct5_of sc_w = 0b00011
funct5_of amoswap_w = 0b00001
funct5_of amoxor_w = 0b00100
funct5_of amoand_w = 0b01100
funct5_of amoor_w = 0b01000
funct5_of amomin_w = 0b10000
funct5_of amomax_w = 0b10100
funct5_of amominu_w = 0b11000
funct5_of amomaxu_w = 0b11100
funct5_of _ = 0

abbrev pub funct7_of : Opcode → ℕ → ℕ
funct7_of sub aqrl = 0b0100000
funct7_of sra aqrl = 0b0100000
funct7_of srai aqrl = 0b0100000
funct7_of mul aqrl = 1
funct7_of mulh aqrl = 1
funct7_of mulhsu aqrl = 1
funct7_of mulhu aqrl = 1
funct7_of div aqrl = 1
funct7_of divu aqrl = 1
funct7_of rem aqrl = 1
funct7_of remu aqrl = 1
funct7_of sret aqrl = 0b0001000
funct7_of wfi aqrl = 0b0001000
funct7_of sfence_vma aqrl = 0b0001001
funct7_of sinval_vma aqrl = 0b0001011
funct7_of sfence_w_inval aqrl = 0b0001100
funct7_of sfence_inval_ir aqrl = 0b0001100
funct7_of o aqrl = amo_funct7 (type_of o) (funct5_of o) aqrl

-- The operations that fix the field `rs2`.
abbrev pub rs2_of : Opcode → ℕ → ℕ
rs2_of ecall s2 = 0
rs2_of ebreak s2 = 1
rs2_of sret s2 = 2
rs2_of wfi s2 = 5
rs2_of sfence_w_inval s2 = 0
rs2_of sfence_inval_ir s2 = 1
rs2_of o s2 = s2

pub data Format : Type 0 where
  r i s b u j : Format

abbrev type_format : InstructionType → Format
type_format load = i
type_format store = s
type_format branch = b
type_format jump = j
type_format amo = r
type_format op_imm = i
type_format op = r
type_format system = r
type_format op_ui = u
type_format op_fence = i

abbrev pub format_of : Opcode → Format
format_of jalr = i
format_of slli = r
format_of srli = r
format_of srai = r
format_of csrrw = i
format_of csrrs = i
format_of csrrc = i
format_of csrrwi = i
format_of csrrsi = i
format_of csrrci = i
format_of o = type_format (type_of o)

-- The operands of an instruction; a shift by an immediate has the amount in `s2`.
pub record Operands : Type 0 where
  pub d : ℕ
  pub s1 : ℕ
  pub s2 : ℕ
  pub imm : ℕ
  pub aqrl : ℕ

abbrev pub immediate_bits : Format → ℕ
immediate_bits r = 0
immediate_bits i = 12
immediate_bits s = 12
immediate_bits b = 13
immediate_bits u = 20
immediate_bits j = 21

-- An offset of a branch or a jump is even.
abbrev pub granule : Format → ℕ
granule b = 2
granule j = 2
granule _ = 1

pub record IsOperands (o : Opcode) (x : Operands) : Type 0 where
  pub d-lt : x.d < 2 ^ 5
  pub s1-lt : x.s1 < 2 ^ 5
  pub s2-lt : x.s2 < 2 ^ 5
  pub imm-lt : x.imm < 2 ^ immediate_bits (format_of o)
  pub on_granule : x.imm % granule (format_of o) ≡ 0
  pub aqrl-lt : x.aqrl < 2 ^ 2

abbrev pub fields_of : Opcode → Operands → Fields
fields_of o x = record {
  op = opcode_of o;
  f3 = funct3_of o;
  f7 = funct7_of o x.aqrl;
  d = x.d;
  s1 = x.s1;
  s2 = rs2_of o x.s2;
  imm = x.imm;
}

abbrev pub word_of : Format → Fields → ℕ
word_of r = r_type
word_of i = i_type
word_of s = s_type
word_of b = b_type
word_of u = u_type
word_of j = j_type

abbrev pub assemble : Opcode → Operands → ℕ
assemble o x = word_of (format_of o) (fields_of o x)
