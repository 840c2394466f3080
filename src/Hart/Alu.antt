-- ===== src/Hart/Alu.antt =====
-- The arithmetic of the cases OP, OP_IMM and AMO of `stepInstruction` in src/rv32/hart.cpp.
pub mod Divide
pub mod Multiply
pub mod Signed
use riscv32_emulator.Prelude.{
  ℕ, ◌+◌, ◌-◌, ◌*◌, ◌/◌, ◌%◌, ◌^◌, bit_and, bit_or, bit_xor, Bool, true, false, not, ◌&&◌, ltb,
  ◌==◌, if◌then◌else◌, u32, u64, ◌<<<◌, ◌>>>◌, Option, some, none,
}
use riscv32_emulator.Prelude.Int.{ℤ, pos, negsuc, ltb_ℤ, to_signed, of_signed, shr_ℤ, div_ℤ, mod_ℤ}
use riscv32_emulator.Instruction.{sign_extend}
use riscv32_emulator.Decoder.Types.{
  Opcode, add, sub, sll, slt, sltu, xor, srl, sra, or, and, mul, mulh, mulhsu, mulhu, div, divu,
  rem, remu, addi, slti, sltiu, xori, ori, andi, slli, srli, srai, amoswap_w, amoadd_w, amoxor_w,
  amoand_w, amoor_w, amomin_w, amomax_w, amominu_w, amomaxu_w,
}

-- `uint32_t` subtraction.
abbrev pub sub_u32 : ℕ → ℕ → ℕ
sub_u32 a b = u32 (a + 2 ^ 32 - b)

-- `static_cast<int32_t>(a) < static_cast<int32_t>(b)`
abbrev pub signed_lt : ℕ → ℕ → Bool
signed_lt a b = ltb_ℤ (to_signed a) (to_signed b)

abbrev pub bit_of : Bool → ℕ
bit_of b = if b then 1 else 0

-- `SIGN_EXTEND(static_cast<int64_t>(a), 32)`, as 64 bits.
abbrev pub extend_64 : ℕ → ℕ
extend_64 a = sign_extend 64 a 32

-- `(result >> 32) & 0xFFFFFFFF` of a 64-bit product.
abbrev pub high_word : ℕ → ℕ
high_word result = bit_and (u64 result >>> 32) 0xffffffff

unfoldable pub shift_right_arithmetic : ℕ → ℕ → ℕ
shift_right_arithmetic a k = of_signed (shr_ℤ (to_signed a) k)

unfoldable pub divide : ℕ → ℕ → ℕ
divide dividend divisor =
    if dividend == 0x80000000 && divisor == 0xffffffff
    then dividend
    else if not (divisor == 0)
    then of_signed (div_ℤ (to_signed dividend) (to_signed divisor))
    else 0xffffffff

unfoldable pub remainder : ℕ → ℕ → ℕ
remainder dividend divisor =
    if dividend == 0x80000000 && divisor == 0xffffffff
    then 0
    else if not (divisor == 0)
    then of_signed (mod_ℤ (to_signed dividend) (to_signed divisor))
    else dividend

-- The value written to `rd` for the values of `rs1` and `rs2`; `none` where the `switch` has no
-- such case.
unfoldable pub op_value : Opcode → ℕ → ℕ → Option ℕ
unfolding shift_right_arithmetic divide remainder sign_extend
op_value add a b = some (u32 (a + b))
op_value sub a b = some (sub_u32 a b)
op_value sll a b = some (u32 (a <<< bit_and b 0x1f))
op_value slt a b = some (bit_of (signed_lt a b))
op_value sltu a b = some (bit_of (ltb a b))
op_value xor a b = some (bit_xor a b)
op_value srl a b = some (a >>> bit_and b 0x1f)
op_value sra a b = some (shift_right_arithmetic a (bit_and b 0x1f))
op_value or a b = some (bit_or a b)
op_value and a b = some (bit_and a b)
op_value mul a b = some (bit_and (u32 (a * b)) 0xffffffff)
op_value mulh a b = some (high_word (extend_64 a * extend_64 b))
op_value mulhu a b = some (high_word (a * b))
op_value mulhsu a b = some (high_word (extend_64 a * b))
op_value div a b = some (divide a b)
op_value divu a b = some (if not (b == 0) then a / b else 0xffffffff)
op_value rem a b = some (remainder a b)
op_value remu a b = some (if not (b == 0) then a % b else a)
op_value _ a b = none

-- The same for OP_IMM, from the value of `rs1`, the immediate and the shift amount.
unfoldable pub op_imm_value : Opcode → ℕ → ℕ → ℕ → Option ℕ
unfolding shift_right_arithmetic
op_imm_value addi a imm shamt = some (u32 (a + imm))
op_imm_value slti a imm shamt = some (bit_of (signed_lt a imm))
op_imm_value sltiu a imm shamt = some (bit_of (ltb a imm))
op_imm_value xori a imm shamt = some (bit_xor a imm)
op_imm_value ori a imm shamt = some (bit_or a imm)
op_imm_value andi a imm shamt = some (bit_and a imm)
op_imm_value slli a imm shamt = some (u32 (a <<< shamt))
op_imm_value srli a imm shamt = some (a >>> shamt)
op_imm_value srai a imm shamt = some (shift_right_arithmetic a shamt)
op_imm_value _ a imm shamt = none

-- What an AMO stores, from the word in memory and the value of `rs2`.
unfoldable pub amo_value : Opcode → ℕ → ℕ → Option ℕ
amo_value amoswap_w val b = some b
amo_value amoadd_w val b = some (u32 (val + b))
amo_value amoxor_w val b = some (bit_xor val b)
amo_value amoand_w val b = some (bit_and val b)
amo_value amoor_w val b = some (bit_or val b)
amo_value amomin_w val b = some (if signed_lt b val then b else val)
amo_value amomax_w val b = some (if signed_lt val b then b else val)
amo_value amominu_w val b = some (if ltb b val then b else val)
amo_value amomaxu_w val b = some (if ltb val b then b else val)
amo_value _ val b = none
