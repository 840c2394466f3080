-- ===== src/Hart/Assembled/Jumps.antt =====
-- Assembled instructions of the cases BRANCH and JUMP of src/rv32/hart.cpp.
use riscv32_emulator.Prelude.{
  ℕ, ◌+◌, ◌≡◌, ◌∙◌, ap, ap₂, refl, Bool, true, false, arith, u32, IsU32, if◌then◌else◌, bit_and,
}
use riscv32_emulator.Outcome.{ok, Outcome, done, modify, pure}
use riscv32_emulator.Instruction.{rs1, rs2, i_immediate, b_immediate}
use riscv32_emulator.Instruction.Formats.{extend, i_type-ReadsI}
use riscv32_emulator.Instruction.Jumps.{b_type-ReadsB, j_type-ReadsJ}
use riscv32_emulator.Decoder.{decode_opcode}
use riscv32_emulator.Decoder.Types.{branch, jump, Opcode, add, jal, jalr}
use riscv32_emulator.Decoder.Classes.{type_of}
use riscv32_emulator.Decoder.Encode.{
  b, format_of, Operands, IsOperands, fields_of, rs2_of, word_of, assemble,
}
use riscv32_emulator.Decoder.RoundTrip.{
  decode_opcode-assemble, fields_of-IsFields, imm_fits, imm_even,
}
use riscv32_emulator.Hart.State.{Hart, get_register, set_register}
use riscv32_emulator.Hart.Control.{branch_taken, jump_to, jump_case, exec_branch, exec_jump}
use riscv32_emulator.Hart.Manual.{branch_holds}
use riscv32_emulator.Hart.Manual.Values.{branch_taken-holds}
use riscv32_emulator.Hart.Assembled.{exec-of, decoded}
use riscv32_emulator.Hart.Step.{exec_type, exec}

branch-format : (o : Opcode) → type_of o ≡ branch → format_of o ≡ b
branch-format add t = ground arith
branch-format _ t = ground arith

branch-rs2 : (o : Opcode) (s2 : ℕ) → type_of o ≡ branch → rs2_of o s2 ≡ s2
branch-rs2 add s2 t = refl
branch-rs2 _ s2 t = ground arith

-- A word that decodes to `o`.
module _ (w : ℕ) (o : Opcode) (e : decode_opcode w ≡ ok o) where
  exec_branch-decoded :
      (h : Hart)
      → exec_branch w h
        ≡ (if branch_taken o (get_register (rs1 w) h) (get_register (rs2 w) h)
              then modify (jump_to (u32 (h.pc + b_immediate w)))
              else pure tt)
            h
  unfolding exec_branch
  exec_branch-decoded h =
      decoded w o e
        (λ o'.
          if branch_taken o' (get_register (rs1 w) h) (get_register (rs2 w) h)
          then modify (jump_to (u32 (h.pc + b_immediate w)))
          else pure tt)
        h

branch-ends :
    (c : Bool) (target : ℕ) (h : Hart)
    → (if c then modify (jump_to target) else pure tt) h
      ≡ done tt (if c then jump_to target h else h)
branch-ends true target h = refl
branch-ends false target h = refl

-- What a branch does with the numbers of its registers and its offset.
abbrev branch_result : Opcode → Hart → ℕ → ℕ → ℕ → Outcome Hart (Unit {0})
branch_result o h p q offset = done tt (
    if branch_taken o (get_register p h) (get_register q h)
    then jump_to (u32 (h.pc + offset)) h
    else h)

module _ (o : Opcode) (x : Operands) (fits : IsOperands o x) (fuel : ℕ) (h : Hart) where
  -- An assembled branch on registers with words goes to the address of the instruction plus its
  -- sign-extended offset if the condition of the manual holds, and does nothing if it does not.
  pub exec-branch :
      type_of o ≡ branch
      → IsU32 (h.gpr x.s1)
      → IsU32 (h.gpr x.s2)
      → exec fuel (assemble o x) h
        ≡ done tt (
            if branch_holds o (h.gpr x.s1) (h.gpr x.s2)
            then jump_to (u32 (h.pc + extend 13 x.imm)) h
            else h)
  unfolding exec_type get_register
  exec-branch t h₁ h₂ =
      let w = assemble o x in
      let e = decode_opcode-assemble o x fits in
      let reads =
        b_type-ReadsB (fields_of o x) (fields_of-IsFields o x fits)
          (imm_fits o x fits b (branch-format o t)) (imm_even o x fits b (branch-format o t)) in
      let is_b = ap (λ fm. word_of fm (fields_of o x)) (branch-format o t) in
      exec-of w o e fuel branch h t
      ∙ exec_branch-decoded w o e h
      ∙ branch-ends (branch_taken o (get_register (rs1 w) h) (get_register (rs2 w) h)) _ h
      ∙ ap (branch_result o h (rs1 w) (rs2 w)) (ap b_immediate is_b ∙ reads.imm_eq)
      ∙ ap₂ (λ p q. branch_result o h p q (extend 13 x.imm)) (ap rs1 is_b ∙ reads.rs1_eq)
          (ap rs2 is_b ∙ reads.rs2_eq ∙ branch-rs2 o x.s2 t)
      ∙ ap (λ c. Outcome.done tt (if c then jump_to (u32 (h.pc + extend 13 x.imm)) h else h))
          (branch_taken-holds o (h.gpr x.s1) (h.gpr x.s2) h₁ h₂)

module _ (x : Operands) (fuel : ℕ) (h : Hart) where
  -- An assembled JAL goes to the address of the instruction plus its sign-extended offset, and
  -- leaves the address of the next instruction in its register `d`.
  pub exec-jal :
      IsOperands jal x
      → exec fuel (assemble jal x) h
        ≡ done tt (jump_to (u32 (h.pc + extend 21 x.imm)) (set_register x.d (u32 (h.pc + 4)) h))
  unfolding exec_type exec_jump jump_case jump_to set_register
  exec-jal fits =
      let w = assemble jal x in
      let e = decode_opcode-assemble jal x fits in
      let reads =
        j_type-ReadsJ (fields_of jal x) (fields_of-IsFields jal x fits) fits.imm-lt
          fits.on_granule in
      exec-of w jal e fuel jump h refl
      ∙ decoded w jal e (λ o. jump_case o w) (record h { should_increment_pc = false })
      ∙ ap₂ (λ d m. Outcome.done tt (jump_to (u32 (h.pc + m)) (set_register d (u32 (h.pc + 4)) h)))
          reads.rd_eq reads.imm_eq

  -- An assembled JALR goes to the value of its register `s1` plus its sign-extended offset, with the
  -- lowest bit cleared, and leaves the address of the next instruction in its register `d`, also
  -- where that is `s1`.
  pub exec-jalr :
      IsOperands jalr x
      → exec fuel (assemble jalr x) h
        ≡ done tt (
            jump_to
              (bit_and (u32 (get_register x.s1 h + extend 12 x.imm)) 0xfffffffe)
              (set_register x.d (u32 (h.pc + 4)) h))
  unfolding exec_type exec_jump jump_case jump_to set_register get_register
  exec-jalr fits =
      let w = assemble jalr x in
      let e = decode_opcode-assemble jalr x fits in
      let reads = i_type-ReadsI (fields_of jalr x) (fields_of-IsFields jalr x fits) fits.imm-lt in
      exec-of w jalr e fuel jump h refl
      ∙ decoded w jalr e (λ o. jump_case o w) (record h { should_increment_pc = false })
      ∙ ap
          (λ d. Outcome.done tt (
            jump_to (bit_and (u32 (get_register (rs1 w) h + i_immediate w)) 0xfffffffe)
              (set_register d (u32 (h.pc + 4)) h)))
          reads.rd_eq
      ∙ ap₂
          (λ p m. Outcome.done tt (
            jump_to (bit_and (u32 (get_register p h + m)) 0xfffffffe)
              (set_register x.d (u32 (h.pc + 4)) h)))
          reads.rs1_eq reads.imm_eq
