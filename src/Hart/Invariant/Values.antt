-- ===== src/Hart/Invariant/Values.antt =====
-- The values that src/rv32/hart.cpp writes to registers are words.
use native.Mathlib.Nat.{div-le_self, mod-le}
use riscv32_emulator.Prelude.{
  ℕ, ◌*◌, ◌^◌, Bool, IsU32, arith, bit_and, ◌>>>◌, Option, some, none, if_cases, ltb, ◌==◌, ◌&&◌,
  not,
}
use riscv32_emulator.Prelude.Bits.{bit_and_mask, bit_and-lt, bit_or-lt, bit_xor-lt}
use riscv32_emulator.Prelude.Int.{ℤ, pos, negsuc, of_signed, shr_ℤ, to_signed, div_ℤ, mod_ℤ}
use riscv32_emulator.BitField.{mod-lt_two_pow}
use riscv32_emulator.BitField.Bounds.{get_field-lt}
use riscv32_emulator.Instruction.{sign_extend, rs1, imm_11_0, i_immediate, u_immediate}
use riscv32_emulator.Decoder.Types.{
  Opcode, add, sub, sll, slt, sltu, xor, srl, sra, or, and, mul, mulh, mulhsu, mulhu, div, divu,
  rem, remu, addi, slti, sltiu, xori, ori, andi, slli, srli, srai, lui, auipc,
}
use riscv32_emulator.Hart.Alu.{
  op_value, op_imm_value, shift_right_arithmetic, divide, remainder, high_word, bit_of, signed_lt,
}
use riscv32_emulator.Hart.Control.{op_ui_value}

-- A value, if there is one, has the property.
abbrev pub Each : (ℕ → Type 0) → Option ℕ → Type 0
Each P none = Unit
Each P (some v) = P v

of_signed-lt : (z : ℤ) → IsU32 (of_signed z)
of_signed-lt (pos n) = omega arith
of_signed-lt (negsuc n) = omega arith

bit_of-lt : (b : Bool) → IsU32 (bit_of b)
bit_of-lt b = if_cases IsU32 b (omega arith) (omega arith)

high_word-lt : (x : ℕ) → IsU32 (high_word x)
high_word-lt x = rw (bit_and_mask 32) (omega arith)

shift_right-lt : (a k : ℕ) → IsU32 a → IsU32 (a >>> k)
shift_right-lt a k h = omega (arith, div-le_self a (2 ^ k))

shift_right_arithmetic-lt : (a k : ℕ) → IsU32 (shift_right_arithmetic a k)
unfolding shift_right_arithmetic
shift_right_arithmetic-lt a k = of_signed-lt (shr_ℤ (to_signed a) k)

divide-lt : (a b : ℕ) → IsU32 a → IsU32 (divide a b)
unfolding divide
divide-lt a b ha =
    if_cases IsU32 (a == 0x80000000 && b == 0xffffffff) ha (
      if_cases IsU32 (not (b == 0)) (of_signed-lt (div_ℤ (to_signed a) (to_signed b)))
        (omega arith))

remainder-lt : (a b : ℕ) → IsU32 a → IsU32 (remainder a b)
unfolding remainder
remainder-lt a b ha =
    if_cases IsU32 (a == 0x80000000 && b == 0xffffffff) (omega arith)
      (if_cases IsU32 (not (b == 0)) (of_signed-lt (mod_ℤ (to_signed a) (to_signed b))) ha)

pub op_value-lt : (o : Opcode) (a b : ℕ) → IsU32 a → IsU32 b → Each IsU32 (op_value o a b)
unfolding op_value
op_value-lt add a b ha hb = omega arith
op_value-lt sub a b ha hb = omega arith
op_value-lt sll a b ha hb = mod-lt_two_pow 32 _
op_value-lt slt a b ha hb = bit_of-lt (signed_lt a b)
op_value-lt sltu a b ha hb = bit_of-lt (ltb a b)
op_value-lt xor a b ha hb = bit_xor-lt 32 a b ha hb
op_value-lt srl a b ha hb = shift_right-lt a _ ha
op_value-lt sra a b ha hb = shift_right_arithmetic-lt a (bit_and b 0x1f)
op_value-lt or a b ha hb = bit_or-lt 32 a b ha hb
op_value-lt and a b ha hb = bit_and-lt 32 a b ha
op_value-lt mul a b ha hb = rw (bit_and_mask 32) (omega arith)
op_value-lt mulh a b ha hb = high_word-lt _
op_value-lt mulhu a b ha hb = high_word-lt (a * b)
op_value-lt mulhsu a b ha hb = high_word-lt _
op_value-lt div a b ha hb = divide-lt a b ha
op_value-lt divu a b ha hb =
    if_cases IsU32 (not (b == 0)) (omega (arith, div-le_self a b)) (omega arith)
op_value-lt rem a b ha hb = remainder-lt a b ha
op_value-lt remu a b ha hb = if_cases IsU32 (not (b == 0)) (omega (arith, mod-le a b)) ha
op_value-lt _ a b ha hb = tt

pub op_imm_value-lt :
    (o : Opcode) (a imm shamt : ℕ) → IsU32 a → IsU32 imm → Each IsU32 (op_imm_value o a imm shamt)
unfolding op_imm_value
op_imm_value-lt addi a imm shamt ha hi = omega arith
op_imm_value-lt slti a imm shamt ha hi = bit_of-lt (signed_lt a imm)
op_imm_value-lt sltiu a imm shamt ha hi = bit_of-lt (ltb a imm)
op_imm_value-lt xori a imm shamt ha hi = bit_xor-lt 32 a imm ha hi
op_imm_value-lt ori a imm shamt ha hi = bit_or-lt 32 a imm ha hi
op_imm_value-lt andi a imm shamt ha hi = bit_and-lt 32 a imm ha
op_imm_value-lt slli a imm shamt ha hi = mod-lt_two_pow 32 _
op_imm_value-lt srli a imm shamt ha hi = shift_right-lt a shamt ha
op_imm_value-lt srai a imm shamt ha hi = shift_right_arithmetic-lt a shamt
op_imm_value-lt _ a imm shamt ha hi = tt

pub op_ui_value-lt : (o : Opcode) (pc imm : ℕ) → IsU32 imm → Each IsU32 (op_ui_value o pc imm)
unfolding op_ui_value
op_ui_value-lt lui pc imm hi = hi
op_ui_value-lt auipc pc imm hi = omega arith
op_ui_value-lt _ pc imm hi = tt

-- The immediates and the fields of an instruction are words.
pub sign_extend-lt : (n b : ℕ) → IsU32 n → IsU32 (sign_extend 32 n b)
unfolding sign_extend
sign_extend-lt n b h = bit_or-lt 32 _ n (mod-lt_two_pow 32 _) h

pub rs1-lt : (instr : ℕ) → IsU32 (rs1 instr)
unfolding rs1
rs1-lt instr = omega (arith, get_field-lt 15 19 instr)

pub i_immediate-lt : (instr : ℕ) → IsU32 (i_immediate instr)
unfolding i_immediate imm_11_0
i_immediate-lt instr = sign_extend-lt _ 12 (omega (arith, get_field-lt 20 31 instr))

pub u_immediate-lt : (instr : ℕ) → IsU32 (u_immediate instr)
unfolding u_immediate
u_immediate-lt instr = omega arith
