-- ===== src/Hart/Manual.antt =====
-- What the unprivileged architecture says that instructions compute, on 32-bit patterns and without
-- the casts and helpers of src/rv32/hart.cpp.
pub mod Values
pub mod Atomics
pub mod Csrs
use riscv32_emulator.Prelude.{
  ℕ, ◌+◌, ◌-◌, ◌*◌, ◌/◌, ◌%◌, ◌^◌, Bool, false, not, ltb, ◌==◌, bit_and, bit_or, bit_xor,
  if◌then◌else◌,
}
use riscv32_emulator.Prelude.Int.{pos, to_signed, mul_ℤ, of_signed_64}
use riscv32_emulator.Decoder.Types.{
  Opcode, beq, bne, blt, bge, bltu, bgeu, add, sub, sll, slt, sltu, xor, srl, sra, or, and, mul,
  mulh, mulhsu, mulhu, div, divu, rem, remu, addi, slti, sltiu, xori, ori, andi, slli, srli, srai,
  amoswap_w, amoadd_w, amoxor_w, amoand_w, amoor_w, amomin_w, amomax_w, amominu_w, amomaxu_w,
}
use riscv32_emulator.Hart.State.{Hart}

-- `rd` has the value, unless it is register 0, which has 0.
abbrev pub with_rd : ℕ → ℕ → Hart → Hart
with_rd d v h = record h { gpr = λ j. if j == 0 then 0 else if j == d then v else h.gpr j }

-- The order of two's complement: adding 2 ^ 31 maps it to the order of the patterns.
abbrev pub signed_less : ℕ → ℕ → Bool
signed_less a b = ltb ((a + 2 ^ 31) % 2 ^ 32) ((b + 2 ^ 31) % 2 ^ 32)

abbrev pub is_negative : ℕ → Bool
is_negative a = not (ltb a (2 ^ 31))

abbrev pub magnitude : ℕ → ℕ
magnitude a = if is_negative a then 2 ^ 32 - a else a

abbrev pub negated : ℕ → ℕ
negated a = (2 ^ 32 - a) % 2 ^ 32

abbrev pub number : Bool → ℕ
number b = if b then 1 else 0

-- A shift to the right that fills up with copies of the sign: of a negative number the complement is
-- shifted.
abbrev pub shifted_right : ℕ → ℕ → ℕ
shifted_right a k = if is_negative a then 2 ^ 32 - 1 - (2 ^ 32 - 1 - a) / 2 ^ k else a / 2 ^ k

-- The quotient rounds towards zero, and the remainder has the sign of the dividend.
abbrev pub quotient : ℕ → ℕ → ℕ
quotient a b =
    let q = magnitude a / magnitude b in
    if is_negative a
    then (if is_negative b then q else negated q)
    else if is_negative b
    then negated q
    else q

abbrev pub rest : ℕ → ℕ → ℕ
rest a b = let r = magnitude a % magnitude b in if is_negative a then negated r else r

-- The value of `rd`, from the values of `rs1` and `rs2`.
abbrev pub op_result : Opcode → ℕ → ℕ → ℕ
op_result add a b = (a + b) % 2 ^ 32
op_result sub a b = (a + (2 ^ 32 - b)) % 2 ^ 32
op_result sll a b = a * 2 ^ (b % 32) % 2 ^ 32
op_result slt a b = number (signed_less a b)
op_result sltu a b = number (ltb a b)
op_result xor a b = bit_xor a b
op_result srl a b = a / 2 ^ (b % 32)
op_result sra a b = shifted_right a (b % 32)
op_result or a b = bit_or a b
op_result and a b = bit_and a b
op_result mul a b = a * b % 2 ^ 32
op_result mulh a b = of_signed_64 (mul_ℤ (to_signed a) (to_signed b)) / 2 ^ 32
op_result mulhsu a b = of_signed_64 (mul_ℤ (to_signed a) (pos b)) / 2 ^ 32
op_result mulhu a b = a * b / 2 ^ 32
op_result div a b = if b == 0 then 2 ^ 32 - 1 else quotient a b
op_result divu a b = if b == 0 then 2 ^ 32 - 1 else a / b
op_result rem a b = if b == 0 then a else rest a b
op_result remu a b = if b == 0 then a else a % b
op_result _ a b = 0

-- The same from the value of `rs1`, the sign-extended immediate and the shift amount.
abbrev pub op_imm_result : Opcode → ℕ → ℕ → ℕ → ℕ
op_imm_result addi a imm shamt = (a + imm) % 2 ^ 32
op_imm_result slti a imm shamt = number (signed_less a imm)
op_imm_result sltiu a imm shamt = number (ltb a imm)
op_imm_result xori a imm shamt = bit_xor a imm
op_imm_result ori a imm shamt = bit_or a imm
op_imm_result andi a imm shamt = bit_and a imm
op_imm_result slli a imm shamt = a * 2 ^ shamt % 2 ^ 32
op_imm_result srli a imm shamt = a / 2 ^ shamt
op_imm_result srai a imm shamt = shifted_right a shamt
op_imm_result _ a imm shamt = 0

-- The condition of a branch on the values of `rs1` and `rs2`.
abbrev pub branch_holds : Opcode → ℕ → ℕ → Bool
branch_holds beq a b = a == b
branch_holds bne a b = not (a == b)
branch_holds blt a b = signed_less a b
branch_holds bge a b = not (signed_less a b)
branch_holds bltu a b = ltb a b
branch_holds bgeu a b = not (ltb a b)
branch_holds _ a b = false

-- What an atomic operation stores, from the word in memory and the value of `rs2`.
abbrev pub amo_result : Opcode → ℕ → ℕ → ℕ
amo_result amoswap_w old b = b
amo_result amoadd_w old b = (old + b) % 2 ^ 32
amo_result amoxor_w old b = bit_xor old b
amo_result amoand_w old b = bit_and old b
amo_result amoor_w old b = bit_or old b
amo_result amomin_w old b = if signed_less old b then old else b
amo_result amomax_w old b = if signed_less old b then b else old
amo_result amominu_w old b = if ltb old b then old else b
amo_result amomaxu_w old b = if ltb old b then b else old
amo_result _ old b = 0
