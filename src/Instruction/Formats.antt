-- ===== src/Instruction/Formats.antt =====
-- The instruction formats as the manual draws them, and the accessors of
-- src/rv32/instruction.hpp on words of these formats.
use riscv32_emulator.Prelude.{
  ℕ, ◌+◌, ◌-◌, ◌*◌, ◌/◌, ◌%◌, ◌^◌, ◌<◌, ◌≤◌, ◌≡◌, ◌∙◌, ap, ap₂, bit_or, ◌<<<◌, u32, ltb,
  if◌then◌else◌, arith,
}
use riscv32_emulator.Prelude.Bits.{bit_or_join}
use riscv32_emulator.BitField.{get_field, get_field_lem}
use riscv32_emulator.Instruction.{
  sign_extend, opcode, rd, funct3, rs1, rs2, funct7, imm_11_0, i_immediate, s_immediate,
  b_immediate, u_immediate, j_immediate,
}
use riscv32_emulator.Instruction.SignExtend.{sign_extend_nonneg, sign_extend_neg}

-- What an instruction is made of. `imm` is the bit pattern of the immediate at the width that its
-- format has.
pub record Fields : Type 0 where
  pub op : ℕ
  pub f3 : ℕ
  pub f7 : ℕ
  pub d : ℕ
  pub s1 : ℕ
  pub s2 : ℕ
  pub imm : ℕ

pub record IsFields (f : Fields) : Type 0 where
  pub op-lt : f.op < 2 ^ 7
  pub f3-lt : f.f3 < 2 ^ 3
  pub f7-lt : f.f7 < 2 ^ 7
  pub d-lt : f.d < 2 ^ 5
  pub s1-lt : f.s1 < 2 ^ 5
  pub s2-lt : f.s2 < 2 ^ 5

abbrev pub r_type : Fields → ℕ
r_type f = f.f7 * 2 ^ 25 + f.s2 * 2 ^ 20 + f.s1 * 2 ^ 15 + f.f3 * 2 ^ 12 + f.d * 2 ^ 7 + f.op

abbrev pub i_type : Fields → ℕ
i_type f = f.imm * 2 ^ 20 + f.s1 * 2 ^ 15 + f.f3 * 2 ^ 12 + f.d * 2 ^ 7 + f.op

abbrev pub s_type : Fields → ℕ
s_type f =
    f.imm / 2 ^ 5 * 2 ^ 25
    + f.s2 * 2 ^ 20
    + f.s1 * 2 ^ 15
    + f.f3 * 2 ^ 12
    + f.imm % 2 ^ 5 * 2 ^ 7
    + f.op

abbrev pub b_type : Fields → ℕ
b_type f =
    f.imm / 2 ^ 12 * 2 ^ 31
    + f.imm / 2 ^ 5 % 2 ^ 6 * 2 ^ 25
    + f.s2 * 2 ^ 20
    + f.s1 * 2 ^ 15
    + f.f3 * 2 ^ 12
    + f.imm / 2 % 2 ^ 4 * 2 ^ 8
    + f.imm / 2 ^ 11 % 2 * 2 ^ 7
    + f.op

abbrev pub u_type : Fields → ℕ
u_type f = f.imm * 2 ^ 12 + f.d * 2 ^ 7 + f.op

abbrev pub j_type : Fields → ℕ
j_type f =
    f.imm / 2 ^ 20 * 2 ^ 31
    + f.imm / 2 % 2 ^ 10 * 2 ^ 21
    + f.imm / 2 ^ 11 % 2 * 2 ^ 20
    + f.imm / 2 ^ 12 % 2 ^ 8 * 2 ^ 12
    + f.d * 2 ^ 7
    + f.op

-- A pattern of `b` bits, extended by its sign to a word.
abbrev pub extend : ℕ → ℕ → ℕ
extend b n = if ltb n (2 ^ (b - 1)) then n else n + (2 ^ 32 - 2 ^ b)

pub sign_extend-extend : (n b : ℕ) → 0 < b → b ≤ 32 → n < 2 ^ b → sign_extend 32 n b ≡ extend b n
sign_extend-extend n b hb hw hn = ground (arith, sign_extend_nonneg 32 n b, sign_extend_neg 32 n b)

-- The accessors give back what the word was made of, one record for each format.
pub record ReadsR (f : Fields) (w : ℕ) : Type 0 where
  pub opcode_eq : opcode w ≡ f.op
  pub funct3_eq : funct3 w ≡ f.f3
  pub funct7_eq : funct7 w ≡ f.f7
  pub rd_eq : rd w ≡ f.d
  pub rs1_eq : rs1 w ≡ f.s1
  pub rs2_eq : rs2 w ≡ f.s2

pub record ReadsI (f : Fields) (w : ℕ) : Type 0 where
  pub opcode_eq : opcode w ≡ f.op
  pub funct3_eq : funct3 w ≡ f.f3
  pub rd_eq : rd w ≡ f.d
  pub rs1_eq : rs1 w ≡ f.s1
  pub field_eq : imm_11_0 w ≡ f.imm
  pub imm_eq : i_immediate w ≡ extend 12 f.imm

pub record ReadsS (f : Fields) (w : ℕ) : Type 0 where
  pub opcode_eq : opcode w ≡ f.op
  pub funct3_eq : funct3 w ≡ f.f3
  pub rs1_eq : rs1 w ≡ f.s1
  pub rs2_eq : rs2 w ≡ f.s2
  pub imm_eq : s_immediate w ≡ extend 12 f.imm

pub record ReadsB (f : Fields) (w : ℕ) : Type 0 where
  pub opcode_eq : opcode w ≡ f.op
  pub funct3_eq : funct3 w ≡ f.f3
  pub rs1_eq : rs1 w ≡ f.s1
  pub rs2_eq : rs2 w ≡ f.s2
  pub imm_eq : b_immediate w ≡ extend 13 f.imm

pub record ReadsU (f : Fields) (w : ℕ) : Type 0 where
  pub opcode_eq : opcode w ≡ f.op
  pub rd_eq : rd w ≡ f.d
  pub imm_eq : u_immediate w ≡ f.imm * 2 ^ 12

pub record ReadsJ (f : Fields) (w : ℕ) : Type 0 where
  pub opcode_eq : opcode w ≡ f.op
  pub rd_eq : rd w ≡ f.d
  pub imm_eq : j_immediate w ≡ extend 21 f.imm

module _ (f : Fields) (ok : IsFields f) where
  pub r_type-ReadsR : ReadsR f (r_type f)
  unfolding opcode funct3 funct7 rd rs1 rs2
  r_type-ReadsR = record {
    opcode_eq = omega (arith, get_field_lem 0 6 (r_type f), ok.op-lt);
    funct3_eq = omega (arith, get_field_lem 12 14 (r_type f), ok.op-lt, ok.d-lt, ok.f3-lt);
    funct7_eq = omega (
      arith,
      get_field_lem 25 31 (r_type f),
      ok.op-lt,
      ok.d-lt,
      ok.f3-lt,
      ok.s1-lt,
      ok.s2-lt,
      ok.f7-lt,
    );
    rd_eq = omega (arith, get_field_lem 7 11 (r_type f), ok.op-lt, ok.d-lt);
    rs1_eq = omega (arith, get_field_lem 15 19 (r_type f), ok.op-lt, ok.d-lt, ok.f3-lt, ok.s1-lt);
    rs2_eq =
        omega
          (arith, get_field_lem 20 24 (r_type f), ok.op-lt, ok.d-lt, ok.f3-lt, ok.s1-lt, ok.s2-lt);
  }

  pub i_type-ReadsI : f.imm < 2 ^ 12 → ReadsI f (i_type f)
  unfolding opcode funct3 rd rs1 i_immediate imm_11_0
  i_type-ReadsI h = record {
    opcode_eq = omega (arith, get_field_lem 0 6 (i_type f), ok.op-lt);
    funct3_eq = omega (arith, get_field_lem 12 14 (i_type f), ok.op-lt, ok.d-lt, ok.f3-lt);
    rd_eq = omega (arith, get_field_lem 7 11 (i_type f), ok.op-lt, ok.d-lt);
    rs1_eq = omega (arith, get_field_lem 15 19 (i_type f), ok.op-lt, ok.d-lt, ok.f3-lt, ok.s1-lt);
    field_eq = field;
    imm_eq =
        ap (λ t. sign_extend 32 t 12) field
        ∙ sign_extend-extend f.imm 12 (omega arith) (omega arith) h;
  }
    where
      field : get_field 20 31 (i_type f) ≡ f.imm
      field = omega (arith, get_field_lem 20 31 (i_type f), ok.op-lt, ok.d-lt, ok.s1-lt, ok.f3-lt)

  pub s_type-ReadsS : f.imm < 2 ^ 12 → ReadsS f (s_type f)
  unfolding opcode funct3 rs1 rs2 s_immediate
  s_type-ReadsS h = record {
    opcode_eq = omega (arith, get_field_lem 0 6 (s_type f), ok.op-lt);
    funct3_eq = omega (arith, get_field_lem 12 14 (s_type f), ok.op-lt, ok.f3-lt);
    rs1_eq = omega (arith, get_field_lem 15 19 (s_type f), ok.op-lt, ok.f3-lt, ok.s1-lt);
    rs2_eq = omega (arith, get_field_lem 20 24 (s_type f), ok.op-lt, ok.f3-lt, ok.s1-lt, ok.s2-lt);
    imm_eq =
        ap (λ t. sign_extend 32 t 12)
          (ap₂ (λ high low. bit_or (u32 (high <<< 5)) low) high low
            ∙ bit_or_join 5 (u32 ((f.imm / 2 ^ 5) <<< 5)) (f.imm % 2 ^ 5) (omega arith)
                (omega arith)
            ∙ omega arith)
        ∙ sign_extend-extend f.imm 12 (omega arith) (omega arith) h;
  }
    where
      high : get_field 25 31 (s_type f) ≡ f.imm / 2 ^ 5
      high = omega (arith, get_field_lem 25 31 (s_type f), ok.op-lt, ok.f3-lt, ok.s1-lt, ok.s2-lt)

      low : get_field 7 11 (s_type f) ≡ f.imm % 2 ^ 5
      low = omega (arith, get_field_lem 7 11 (s_type f), ok.op-lt)

  pub u_type-ReadsU : f.imm < 2 ^ 20 → ReadsU f (u_type f)
  unfolding opcode rd u_immediate
  u_type-ReadsU h = record {
    opcode_eq = omega (arith, get_field_lem 0 6 (u_type f), ok.op-lt);
    rd_eq = omega (arith, get_field_lem 7 11 (u_type f), ok.op-lt, ok.d-lt);
    imm_eq = omega (arith, get_field_lem 12 31 (u_type f), ok.op-lt, ok.d-lt);
  }
