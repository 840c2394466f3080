-- ===== src/Hart/Assembled/Arithmetic.antt =====
-- Assembled instructions of the cases OP and OP_IMM of src/rv32/hart.cpp.
use riscv32_emulator.Prelude.{
  ℕ, ◌<◌, ◌^◌, IsU32, ◌≡◌, ◌∙◌, ap, ap₂, refl, arith, ◌⊎◌, inl, inr, some,
}
use riscv32_emulator.Outcome.{ok, Outcome, done}
use riscv32_emulator.Instruction.{rd, rs1, rs2, i_immediate}
use riscv32_emulator.Instruction.Formats.{extend, r_type-ReadsR, i_type-ReadsI}
use riscv32_emulator.Decoder.{decode_opcode}
use riscv32_emulator.Decoder.Types.{op, op_imm, Opcode, add, addi, slli, srli, srai}
use riscv32_emulator.Decoder.Classes.{type_of}
use riscv32_emulator.Decoder.Encode.{
  immediate_bits, r, i, format_of, Operands, IsOperands, fields_of, rs2_of, word_of, assemble,
}
use riscv32_emulator.Decoder.RoundTrip.{decode_opcode-assemble, fields_of-IsFields, imm_fits}
use riscv32_emulator.Hart.State.{Hart, get_register, set_register}
use riscv32_emulator.Hart.Alu.{op_value, op_imm_value}
use riscv32_emulator.Hart.Manual.{with_rd, op_result, op_imm_result}
use riscv32_emulator.Hart.Manual.Values.{
  set_register-with_rd, op_value-op_result, op_imm_value-op_imm_result,
}
use riscv32_emulator.Hart.Control.{exec_op, exec_op_imm, write_rd}
use riscv32_emulator.Hart.Assembled.{exec-of, decoded}
use riscv32_emulator.Hart.Step.{exec_type, exec}

op-format : (o : Opcode) → type_of o ≡ op → format_of o ≡ r
op-format add t = refl
op-format _ t = ground arith

op-rs2 : (o : Opcode) (s2 : ℕ) → type_of o ≡ op → rs2_of o s2 ≡ s2
op-rs2 add s2 t = refl
op-rs2 _ s2 t = ground arith

-- A word that decodes to `o`.
module _ (w : ℕ) (o : Opcode) (e : decode_opcode w ≡ ok o) where
  exec_op-decoded :
      (h : Hart)
      → exec_op w h ≡ write_rd w (op_value o (get_register (rs1 w) h) (get_register (rs2 w) h)) h
  unfolding exec_op
  exec_op-decoded h =
      decoded w o e
        (λ o'. write_rd w (op_value o' (get_register (rs1 w) h) (get_register (rs2 w) h))) h

  exec_op_imm-decoded :
      (h : Hart)
      → exec_op_imm w h
        ≡ write_rd w (op_imm_value o (get_register (rs1 w) h) (i_immediate w) (rs2 w)) h
  unfolding exec_op_imm
  exec_op_imm-decoded h =
      decoded w o e
        (λ o'. write_rd w (op_imm_value o' (get_register (rs1 w) h) (i_immediate w) (rs2 w))) h

write_rd-some : (w d v : ℕ) (h : Hart) → rd w ≡ d → write_rd w (some v) h ≡ done tt (with_rd d v h)
write_rd-some w d v h e =
    ap (λ t. Outcome.done tt (set_register t v h)) e
    ∙ ap (Outcome.done tt) (set_register-with_rd d v h)

extend-lt : (n : ℕ) → n < 2 ^ 12 → IsU32 (extend 12 n)
extend-lt n h = ground arith

op_imm-format : (o : Opcode) → type_of o ≡ op_imm → (format_of o ≡ i) ⊎ (format_of o ≡ r)
op_imm-format slli t = inr refl
op_imm-format srli t = inr refl
op_imm-format srai t = inr refl
op_imm-format addi t = inl refl
op_imm-format _ t = ground arith

-- Only the shifts read the field `rs2`, and only the others read the immediate.
op_imm_value-i :
    (o : Opcode) (a m k k' : ℕ) → format_of o ≡ i → op_imm_value o a m k ≡ op_imm_value o a m k'
unfolding op_imm_value
op_imm_value-i addi a m k k' f = refl
op_imm_value-i _ a m k k' f = ground arith

op_imm_value-r :
    (o : Opcode) (a m m' k : ℕ) → format_of o ≡ r → op_imm_value o a m k ≡ op_imm_value o a m' k
unfolding op_imm_value
op_imm_value-r addi a m m' k f = ground arith
op_imm_value-r _ a m m' k f = ground arith

op_imm-rs2 : (o : Opcode) (s2 : ℕ) → type_of o ≡ op_imm → rs2_of o s2 ≡ s2
op_imm-rs2 addi s2 t = refl
op_imm-rs2 _ s2 t = ground arith

module _ (o : Opcode) (x : Operands) (fits : IsOperands o x) (fuel : ℕ) (h : Hart) where
  -- An assembled operation on two registers with words ends with the value of the manual in its
  -- register `d`, and changes nothing else.
  pub exec-op :
      type_of o ≡ op
      → IsU32 (h.gpr x.s1)
      → IsU32 (h.gpr x.s2)
      → exec fuel (assemble o x) h ≡ done tt (with_rd x.d (op_result o (h.gpr x.s1) (h.gpr x.s2)) h)
  unfolding exec_type get_register
  exec-op t h₁ h₂ =
      let w = assemble o x in
      let e = decode_opcode-assemble o x fits in
      let reads = r_type-ReadsR (fields_of o x) (fields_of-IsFields o x fits) in
      let is_r = ap (λ fm. word_of fm (fields_of o x)) (op-format o t) in
      exec-of w o e fuel op h t
      ∙ exec_op-decoded w o e h
      ∙ ap (λ p. write_rd w p h)
          (ap₂ (λ p q. op_value o (get_register p h) (get_register q h))
              (ap rs1 is_r ∙ reads.rs1_eq) (ap rs2 is_r ∙ reads.rs2_eq ∙ op-rs2 o x.s2 t)
            ∙ op_value-op_result o (h.gpr x.s1) (h.gpr x.s2) t h₁ h₂)
      ∙ write_rd-some w x.d _ h (ap rd is_r ∙ reads.rd_eq)

  op_imm-lt : type_of o ≡ op_imm → x.imm < 2 ^ 12
  op_imm-lt t = elim (op_imm-format o t) [
    | inl f ↦ imm_fits o x fits i f
    | inr f ↦ narrow (imm_fits o x fits r f)
  ]
    where
      narrow : x.imm < 2 ^ immediate_bits r → x.imm < 2 ^ 12
      narrow q = omega arith

  -- The registers and the immediate of an assembled operation on an immediate.
  op_imm-reads :
      type_of o ≡ op_imm
      → (rd (assemble o x) ≡ x.d)
        × (op_imm_value o
              (get_register (rs1 (assemble o x)) h)
              (i_immediate (assemble o x))
              (rs2 (assemble o x))
            ≡ op_imm_value o (get_register x.s1 h) (extend 12 x.imm) x.s2)
  op_imm-reads t = elim (op_imm-format o t) [
    | inl f ↦
        let w = assemble o x in
        let is_i = ap (λ fm. word_of fm (fields_of o x)) f in
        let reads =
          i_type-ReadsI (fields_of o x) (fields_of-IsFields o x fits) (imm_fits o x fits i f) in
        (
          ap rd is_i ∙ reads.rd_eq,
          ap₂ (λ p m. op_imm_value o (get_register p h) m (rs2 w)) (ap rs1 is_i ∙ reads.rs1_eq)
                (ap i_immediate is_i ∙ reads.imm_eq)
              ∙ op_imm_value-i o _ _ _ _ f,
        )
    | inr f ↦
        let w = assemble o x in
        let is_r = ap (λ fm. word_of fm (fields_of o x)) f in
        let reads = r_type-ReadsR (fields_of o x) (fields_of-IsFields o x fits) in
        (
          ap rd is_r ∙ reads.rd_eq,
          ap₂ (λ p k. op_imm_value o (get_register p h) (i_immediate w) k)
                (ap rs1 is_r ∙ reads.rs1_eq) (ap rs2 is_r ∙ reads.rs2_eq ∙ op_imm-rs2 o x.s2 t)
              ∙ op_imm_value-r o _ _ _ _ f,
        )
  ]

  -- An assembled operation on a register with a word and an immediate ends with the value of the
  -- manual, for its sign-extended immediate or, where it shifts, its amount, in its register `d`, and
  -- changes nothing else.
  pub exec-op_imm :
      type_of o ≡ op_imm
      → IsU32 (h.gpr x.s1)
      → exec fuel (assemble o x) h
        ≡ done tt (with_rd x.d (op_imm_result o (h.gpr x.s1) (extend 12 x.imm) x.s2) h)
  unfolding exec_type get_register
  exec-op_imm t h₁ =
      let w = assemble o x in
      let e = decode_opcode-assemble o x fits in
      let (rd_eq, value_eq) = op_imm-reads t in
      exec-of w o e fuel op_imm h t
      ∙ exec_op_imm-decoded w o e h
      ∙ ap (λ p. write_rd w p h)
          (value_eq
            ∙ op_imm_value-op_imm_result o (h.gpr x.s1) (extend 12 x.imm) x.s2 t h₁
                (extend-lt x.imm (op_imm-lt t)))
      ∙ write_rd-some w x.d _ h rd_eq
