-- ===== src/Decoder/RoundTrip.antt =====
-- `decodeOpcode` of src/rv32/decoder.cpp finds the operation of every assembled word.
use riscv32_emulator.Prelude.{ℕ, ◌+◌, ◌*◌, ◌%◌, ◌^◌, ◌<◌, ◌≡◌, ◌∙◌, ap, refl, arith, ◌⊎◌, inl, inr}
use riscv32_emulator.Outcome.{ok}
use riscv32_emulator.Instruction.{opcode, funct3, funct7, rs2, i_immediate}
use riscv32_emulator.Instruction.Formats.{
  Fields, IsFields, r_type, i_type, s_type, b_type, u_type, j_type, extend,
}
use riscv32_emulator.Decoder.{decode_opcode}
use riscv32_emulator.Decoder.Types.{Opcode, add}
use riscv32_emulator.Instruction.Formats.{
  r_type-ReadsR, i_type-ReadsI, s_type-ReadsS, u_type-ReadsU,
}
use riscv32_emulator.Instruction.Jumps.{b_type-ReadsB, j_type-ReadsJ}
use riscv32_emulator.Decoder.Encode.{
  opcode_of, funct3_of, funct7_of, rs2_of, Format, r, i, s, b, u, j, format_of, Operands,
  immediate_bits, granule, IsOperands, fields_of, word_of, assemble,
}

-- What the decoder sees of a word is enough, for each format.
module _ (w aqrl : ℕ) where
  decode-r :
      (o : Opcode) (s2 : ℕ)
      → format_of o ≡ r
      → aqrl < 2 ^ 2
      → s2 < 2 ^ 5
      → opcode w ≡ opcode_of o
      → funct3 w ≡ funct3_of o
      → funct7 w ≡ funct7_of o aqrl
      → rs2 w ≡ rs2_of o s2
      → i_immediate w ≡ extend 12 (funct7_of o aqrl * 2 ^ 5 + rs2_of o s2)
      → decode_opcode w ≡ ok o
  unfolding decode_opcode
  decode-r add s2 fo ha hs e₁ e₂ e₃ e₄ e₅ = ground arith
  decode-r _ s2 fo ha hs e₁ e₂ e₃ e₄ e₅ = ground arith

module _ (w : ℕ) where
  decode-narrow :
      (o : Opcode)
      → ¬ format_of o ≡ r
      → ¬ format_of o ≡ u
      → ¬ format_of o ≡ j
      → opcode w ≡ opcode_of o
      → funct3 w ≡ funct3_of o
      → decode_opcode w ≡ ok o
  unfolding decode_opcode
  decode-narrow add n₁ n₂ n₃ e₁ e₂ = ground arith
  decode-narrow _ n₁ n₂ n₃ e₁ e₂ = ground arith

  decode-bare :
      (o : Opcode)
      → (format_of o ≡ u) ⊎ (format_of o ≡ j)
      → opcode w ≡ opcode_of o
      → decode_opcode w ≡ ok o
  unfolding decode_opcode
  decode-bare add n e = ground arith
  decode-bare _ n e = ground arith

pub fields_of-IsFields : (o : Opcode) (x : Operands) → IsOperands o x → IsFields (fields_of o x)
fields_of-IsFields add x h = omega arith
fields_of-IsFields _ x h = omega arith

-- A word of the format R is one of the format I, with `funct7` and `rs2` as its immediate.
as_i_type : Fields → Fields
as_i_type f = record f { imm = f.f7 * 2 ^ 5 + f.s2 }

r_type-i_type : (f : Fields) → r_type f ≡ i_type (as_i_type f)
unfolding as_i_type
r_type-i_type f = omega arith

r_type-immediate :
    (f : Fields) → IsFields f → i_immediate (r_type f) ≡ extend 12 (f.f7 * 2 ^ 5 + f.s2)
unfolding as_i_type
r_type-immediate f fine =
    ap i_immediate (r_type-i_type f)
    ∙ (i_type-ReadsI (as_i_type f) (omega arith) (omega arith)).imm_eq

module _ (o : Opcode) (x : Operands) (h : IsOperands o x) where
  fine : IsFields (fields_of o x)
  fine = fields_of-IsFields o x h

  pub imm_fits : (fm : Format) → format_of o ≡ fm → x.imm < 2 ^ immediate_bits fm
  imm_fits fm e = rw (← e) h.imm-lt

  pub imm_even : (fm : Format) → format_of o ≡ fm → x.imm % granule fm ≡ 0
  imm_even fm e = rw (← e) h.on_granule

  decode-word : (fm : Format) → format_of o ≡ fm → decode_opcode (word_of fm (fields_of o x)) ≡ ok o
  decode-word r e =
      let reads = r_type-ReadsR (fields_of o x) fine in
      decode-r (r_type (fields_of o x)) x.aqrl o x.s2 e h.aqrl-lt h.s2-lt reads.opcode_eq
        reads.funct3_eq reads.funct7_eq reads.rs2_eq (r_type-immediate (fields_of o x) fine)
  decode-word i e =
      let reads = i_type-ReadsI (fields_of o x) fine (imm_fits i e) in
      decode-narrow (i_type (fields_of o x)) o (cc) (cc) (cc) reads.opcode_eq reads.funct3_eq
  decode-word s e =
      let reads = s_type-ReadsS (fields_of o x) fine (imm_fits s e) in
      decode-narrow (s_type (fields_of o x)) o (cc) (cc) (cc) reads.opcode_eq reads.funct3_eq
  decode-word b e =
      let reads = b_type-ReadsB (fields_of o x) fine (imm_fits b e) (imm_even b e) in
      decode-narrow (b_type (fields_of o x)) o (cc) (cc) (cc) reads.opcode_eq reads.funct3_eq
  decode-word u e =
      decode-bare (u_type (fields_of o x)) o (inl e)
        (u_type-ReadsU (fields_of o x) fine (imm_fits u e)).opcode_eq
  decode-word j e =
      decode-bare (j_type (fields_of o x)) o (inr e)
        (j_type-ReadsJ (fields_of o x) fine (imm_fits j e) (imm_even j e)).opcode_eq

-- Every operation, assembled by the tables of the manual with operands that fit its format, is
-- decoded to itself: the loads, stores, branches, jumps, arithmetic, M and A extensions, fences,
-- CSR and privileged instructions.
pub decode_opcode-assemble :
    (o : Opcode) (x : Operands) → IsOperands o x → decode_opcode (assemble o x) ≡ ok o
decode_opcode-assemble o x h = decode-word o x h (format_of o) refl
