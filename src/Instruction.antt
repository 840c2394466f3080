-- ===== src/Instruction.antt =====
-- src/rv32/instruction.hpp: the fields of an instruction word and the immediates of its formats.
pub mod SignExtend
pub mod Formats
pub mod Jumps
use riscv32_emulator.Prelude.{ℕ, ◌+◌, ◌-◌, ◌*◌, ◌/◌, ◌%◌, ◌^◌, bit_or, ◌<<<◌, ◌>>>◌, u32}
use riscv32_emulator.BitField.{get_field}

-- SIGN_EXTEND(n, b) where `n` is computed with `w` bits: `((-((n) >> ((b) - 1)) << (b)) | (n))`.
unfoldable pub sign_extend : ℕ → ℕ → ℕ → ℕ
sign_extend w n b =
    let negated = (2 ^ w - (n >>> (b - 1))) % 2 ^ w in bit_or ((negated <<< b) % 2 ^ w) n

-- The fields, by the names of the source; a field of several formats has the same bits in each.
unfoldable pub opcode : ℕ → ℕ
unfolding get_field
opcode = get_field 0 6

unfoldable pub rd : ℕ → ℕ
unfolding get_field
rd = get_field 7 11

unfoldable pub funct3 : ℕ → ℕ
unfolding get_field
funct3 = get_field 12 14

unfoldable pub rs1 : ℕ → ℕ
unfolding get_field
rs1 = get_field 15 19

unfoldable pub rs2 : ℕ → ℕ
unfolding get_field
rs2 = get_field 20 24

unfoldable pub funct7 : ℕ → ℕ
unfolding get_field
funct7 = get_field 25 31

unfoldable pub imm_11_0 : ℕ → ℕ
unfolding get_field
imm_11_0 = get_field 20 31

-- `immediateValue()` of the formats I, S, B, U and J.
unfoldable pub i_immediate : ℕ → ℕ
unfolding imm_11_0 sign_extend
i_immediate bits = sign_extend 32 (imm_11_0 bits) 12

unfoldable pub s_immediate : ℕ → ℕ
unfolding get_field sign_extend
s_immediate bits =
    let imm_11_5 = get_field 25 31 bits in
    let imm_4_0 = get_field 7 11 bits in sign_extend 32 (bit_or (u32 (imm_11_5 <<< 5)) imm_4_0) 12

unfoldable pub b_immediate : ℕ → ℕ
unfolding get_field sign_extend
b_immediate bits =
    let imm_10_5 = get_field 25 30 bits in
    let imm_12 = get_field 31 31 bits in
    let imm_4_1 = get_field 8 11 bits in
    let imm_11 = get_field 7 7 bits in
    sign_extend 32
      (bit_or (bit_or (bit_or (u32 (imm_12 <<< 12)) (u32 (imm_11 <<< 11))) (u32 (imm_10_5 <<< 5)))
        (u32 (imm_4_1 <<< 1)))
      13

unfoldable pub u_immediate : ℕ → ℕ
unfolding get_field
u_immediate bits = u32 (get_field 12 31 bits <<< 12)

unfoldable pub j_immediate : ℕ → ℕ
unfolding get_field sign_extend
j_immediate bits =
    let imm_20 = get_field 31 31 bits in
    let imm_10_1 = get_field 21 30 bits in
    let imm_11 = get_field 20 20 bits in
    let imm_19_12 = get_field 12 19 bits in
    sign_extend 32
      (bit_or (bit_or (bit_or (u32 (imm_20 <<< 20)) (u32 (imm_19_12 <<< 12))) (u32 (imm_11 <<< 11)))
        (u32 (imm_10_1 <<< 1)))
      21
