-- ===== src/Decoder/Classes.antt =====
-- The operations of each type of instruction, and the two functions of src/rv32/decoder.cpp.
use riscv32_emulator.Prelude.{ℕ, ◌≡◌, sym, ap, arith}
use riscv32_emulator.Outcome.{Result, ok, err, result_bind}
use riscv32_emulator.Decoder.{
  decode_instruction_type, decode_load, decode_store, decode_branch, decode_jump, decode_amo,
  decode_op_imm, decode_op, decode_system, decode_op_ui, decode_op_fence, decode_by_type,
  decode_opcode,
}
use riscv32_emulator.Decoder.Types.{
  InstructionType, load, store, branch, jump, amo, op_imm, op, system, op_ui, op_fence, Opcode, lui,
  auipc, jal, jalr, beq, bne, blt, bge, bltu, bgeu, lb, lh, lw, lbu, lhu, sb, sh, sw, addi, slti,
  sltiu, xori, ori, andi, slli, srli, srai, add, sub, sll, slt, sltu, xor, srl, sra, or, and, fence,
  ecall, ebreak, sret, wfi, sfence_vma, sinval_vma, sfence_w_inval, sfence_inval_ir, csrrw, csrrs,
  csrrc, csrrwi, csrrsi, csrrci, fence_i, mul, mulh, mulhsu, mulhu, div, divu, rem, remu,
}

-- The type under which the manual lists an operation.
abbrev pub type_of : Opcode → InstructionType
type_of lui = op_ui
type_of auipc = op_ui
type_of jal = jump
type_of jalr = jump
type_of beq = branch
type_of bne = branch
type_of blt = branch
type_of bge = branch
type_of bltu = branch
type_of bgeu = branch
type_of lb = load
type_of lh = load
type_of lw = load
type_of lbu = load
type_of lhu = load
type_of sb = store
type_of sh = store
type_of sw = store
type_of addi = op_imm
type_of slti = op_imm
type_of sltiu = op_imm
type_of xori = op_imm
type_of ori = op_imm
type_of andi = op_imm
type_of slli = op_imm
type_of srli = op_imm
type_of srai = op_imm
type_of add = op
type_of sub = op
type_of sll = op
type_of slt = op
type_of sltu = op
type_of xor = op
type_of srl = op
type_of sra = op
type_of or = op
type_of and = op
type_of mul = op
type_of mulh = op
type_of mulhsu = op
type_of mulhu = op
type_of div = op
type_of divu = op
type_of rem = op
type_of remu = op
type_of fence = op_fence
type_of fence_i = op_fence
type_of ecall = system
type_of ebreak = system
type_of sret = system
type_of wfi = system
type_of sfence_vma = system
type_of sinval_vma = system
type_of sfence_w_inval = system
type_of sfence_inval_ir = system
type_of csrrw = system
type_of csrrs = system
type_of csrrc = system
type_of csrrwi = system
type_of csrrsi = system
type_of csrrci = system
type_of _ = amo

-- A decoded operation, if there is one, is of the type `t`.
abbrev OfType : InstructionType → Result Opcode → Type 0
OfType t (ok o) = type_of o ≡ t
OfType t (err e) = Unit

decode_load-OfType : (w : ℕ) → OfType load (decode_load w)
unfolding decode_load
decode_load-OfType w = ground arith

decode_store-OfType : (w : ℕ) → OfType store (decode_store w)
unfolding decode_store
decode_store-OfType w = ground arith

decode_branch-OfType : (w : ℕ) → OfType branch (decode_branch w)
unfolding decode_branch
decode_branch-OfType w = ground arith

decode_jump-OfType : (w : ℕ) → OfType jump (decode_jump w)
unfolding decode_jump
decode_jump-OfType w = ground arith

decode_amo-OfType : (w : ℕ) → OfType amo (decode_amo w)
unfolding decode_amo
decode_amo-OfType w = ground arith

decode_op_imm-OfType : (w : ℕ) → OfType op_imm (decode_op_imm w)
unfolding decode_op_imm
decode_op_imm-OfType w = ground arith

decode_op_ui-OfType : (w : ℕ) → OfType op_ui (decode_op_ui w)
unfolding decode_op_ui
decode_op_ui-OfType w = ground arith

decode_op_fence-OfType : (w : ℕ) → OfType op_fence (decode_op_fence w)
unfolding decode_op_fence
decode_op_fence-OfType w = ground arith

decode_op-OfType : (w : ℕ) → OfType op (decode_op w)
unfolding decode_op
decode_op-OfType w = ground arith

decode_system-OfType : (w : ℕ) → OfType system (decode_system w)
unfolding decode_system
decode_system-OfType w = ground arith

decode_by_type-OfType : (t : InstructionType) (w : ℕ) → OfType t (decode_by_type t w)
unfolding decode_by_type
decode_by_type-OfType load = decode_load-OfType
decode_by_type-OfType store = decode_store-OfType
decode_by_type-OfType branch = decode_branch-OfType
decode_by_type-OfType jump = decode_jump-OfType
decode_by_type-OfType amo = decode_amo-OfType
decode_by_type-OfType op_imm = decode_op_imm-OfType
decode_by_type-OfType op = decode_op-OfType
decode_by_type-OfType system = decode_system-OfType
decode_by_type-OfType op_ui = decode_op_ui-OfType
decode_by_type-OfType op_fence = decode_op_fence-OfType

OfType-type_of :
    {t : InstructionType} (r : Result Opcode) {o : Opcode} → OfType t r → r ≡ ok o → type_of o ≡ t
OfType-type_of (ok x) h e = ground (arith, h)
OfType-type_of (err x) h e = cc

agree :
    (r : Result InstructionType) (f : InstructionType → Result Opcode) (o : Opcode)
    → ((t : InstructionType) → OfType t (f t))
    → result_bind r f ≡ ok o
    → r ≡ ok (type_of o)
agree (ok t) f o h e = ap ok (sym (OfType-type_of (f t) (h t) e))
agree (err x) f o h e = cc

-- If `decodeOpcode` finds an operation then `decodeInstructionType` finds the type under which the
-- manual lists it.
pub decode_opcode-type_of :
    (w : ℕ) (o : Opcode) → decode_opcode w ≡ ok o → decode_instruction_type w ≡ ok (type_of o)
unfolding decode_opcode
decode_opcode-type_of w o e =
    agree (decode_instruction_type w) (λ t. decode_by_type t w) o (λ t. decode_by_type-OfType t w) e
