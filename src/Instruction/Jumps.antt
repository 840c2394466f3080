-- ===== src/Instruction/Jumps.antt =====
-- The formats B and J, whose immediates are scattered over the word, against the accessors of
-- src/rv32/instruction.hpp.
use riscv32_emulator.Prelude.{
  ℕ, ◌+◌, ◌*◌, ◌/◌, ◌%◌, ◌^◌, ◌<◌, ◌≡◌, ◌∙◌, ap, bit_or, ◌<<<◌, u32, arith,
}
use riscv32_emulator.Prelude.Bits.{bit_or_join}
use riscv32_emulator.BitField.{get_field, get_field_lem}
use riscv32_emulator.Instruction.{
  sign_extend, opcode, rd, funct3, rs1, rs2, b_immediate, j_immediate,
}
use riscv32_emulator.Instruction.Formats.{
  Fields, IsFields, b_type, j_type, ReadsB, ReadsJ, sign_extend-extend,
}

-- The four parts of an immediate, put together by `|`.
b_join :
    (a b c d : ℕ)
    → a < 2
    → b < 2
    → c < 2 ^ 6
    → d < 2 ^ 4
    → bit_or (bit_or (bit_or (u32 (a <<< 12)) (u32 (b <<< 11))) (u32 (c <<< 5))) (u32 (d <<< 1))
      ≡ a * 2 ^ 12 + b * 2 ^ 11 + c * 2 ^ 5 + d * 2
b_join a b c d ha hb hc hd =
    rw
      (
        bit_or_join 12 (u32 (a <<< 12)) (u32 (b <<< 11)) (omega arith) (omega arith),
        bit_or_join 11 (u32 (a <<< 12) + u32 (b <<< 11)) (u32 (c <<< 5)) (omega arith)
            (omega arith),
        bit_or_join 5 (u32 (a <<< 12) + u32 (b <<< 11) + u32 (c <<< 5)) (u32 (d <<< 1))
            (omega arith) (omega arith),
      )
      (omega arith)

j_join :
    (a b c d : ℕ)
    → a < 2
    → b < 2 ^ 8
    → c < 2
    → d < 2 ^ 10
    → bit_or (bit_or (bit_or (u32 (a <<< 20)) (u32 (b <<< 12))) (u32 (c <<< 11))) (u32 (d <<< 1))
      ≡ a * 2 ^ 20 + b * 2 ^ 12 + c * 2 ^ 11 + d * 2
j_join a b c d ha hb hc hd =
    rw
      (
        bit_or_join 20 (u32 (a <<< 20)) (u32 (b <<< 12)) (omega arith) (omega arith),
        bit_or_join 12 (u32 (a <<< 20) + u32 (b <<< 12)) (u32 (c <<< 11)) (omega arith)
            (omega arith),
        bit_or_join 11 (u32 (a <<< 20) + u32 (b <<< 12) + u32 (c <<< 11)) (u32 (d <<< 1))
            (omega arith) (omega arith),
      )
      (omega arith)

module _ (f : Fields) (ok : IsFields f) where
  pub b_type-ReadsB : f.imm < 2 ^ 13 → f.imm % 2 ≡ 0 → ReadsB f (b_type f)
  unfolding opcode funct3 rs1 rs2 b_immediate
  b_type-ReadsB h even = record {
    opcode_eq = omega (arith, get_field_lem 0 6 (b_type f), ok.op-lt);
    funct3_eq = omega (arith, get_field_lem 12 14 (b_type f), ok.op-lt, ok.f3-lt);
    rs1_eq = omega (arith, get_field_lem 15 19 (b_type f), ok.op-lt, ok.f3-lt, ok.s1-lt);
    rs2_eq = omega (arith, get_field_lem 20 24 (b_type f), ok.op-lt, ok.f3-lt, ok.s1-lt, ok.s2-lt);
    imm_eq =
        ap (λ t. sign_extend 32 t 13)
          (rw (part12, part11, part10, part4)
            (b_join (f.imm / 2 ^ 12) (f.imm / 2 ^ 11 % 2) (f.imm / 2 ^ 5 % 2 ^ 6)
                (f.imm / 2 % 2 ^ 4) (omega arith) (omega arith) (omega arith) (omega arith)
              ∙ omega arith))
        ∙ sign_extend-extend f.imm 13 (omega arith) (omega arith) h;
  }
    where
      part12 : get_field 31 31 (b_type f) ≡ f.imm / 2 ^ 12
      part12 = omega (arith, get_field_lem 31 31 (b_type f), ok.op-lt, ok.f3-lt, ok.s1-lt, ok.s2-lt)

      part11 : get_field 7 7 (b_type f) ≡ f.imm / 2 ^ 11 % 2
      part11 = omega (arith, get_field_lem 7 7 (b_type f), ok.op-lt)

      part10 : get_field 25 30 (b_type f) ≡ f.imm / 2 ^ 5 % 2 ^ 6
      part10 = omega (arith, get_field_lem 25 30 (b_type f), ok.op-lt, ok.f3-lt, ok.s1-lt, ok.s2-lt)

      part4 : get_field 8 11 (b_type f) ≡ f.imm / 2 % 2 ^ 4
      part4 = omega (arith, get_field_lem 8 11 (b_type f), ok.op-lt)

  pub j_type-ReadsJ : f.imm < 2 ^ 21 → f.imm % 2 ≡ 0 → ReadsJ f (j_type f)
  unfolding opcode rd j_immediate
  j_type-ReadsJ h even = record {
    opcode_eq = omega (arith, get_field_lem 0 6 (j_type f), ok.op-lt);
    rd_eq = omega (arith, get_field_lem 7 11 (j_type f), ok.op-lt, ok.d-lt);
    imm_eq =
        ap (λ t. sign_extend 32 t 21)
          (rw (part20, part19, part11, part10)
            (j_join (f.imm / 2 ^ 20) (f.imm / 2 ^ 12 % 2 ^ 8) (f.imm / 2 ^ 11 % 2)
                (f.imm / 2 % 2 ^ 10) (omega arith) (omega arith) (omega arith) (omega arith)
              ∙ omega arith))
        ∙ sign_extend-extend f.imm 21 (omega arith) (omega arith) h;
  }
    where
      part20 : get_field 31 31 (j_type f) ≡ f.imm / 2 ^ 20
      part20 = omega (arith, get_field_lem 31 31 (j_type f), ok.op-lt, ok.d-lt)

      part19 : get_field 12 19 (j_type f) ≡ f.imm / 2 ^ 12 % 2 ^ 8
      part19 = omega (arith, get_field_lem 12 19 (j_type f), ok.op-lt, ok.d-lt)

      part11 : get_field 20 20 (j_type f) ≡ f.imm / 2 ^ 11 % 2
      part11 = omega (arith, get_field_lem 20 20 (j_type f), ok.op-lt, ok.d-lt)

      part10 : get_field 21 30 (j_type f) ≡ f.imm / 2 % 2 ^ 10
      part10 = omega (arith, get_field_lem 21 30 (j_type f), ok.op-lt, ok.d-lt)
