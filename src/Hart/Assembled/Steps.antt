-- ===== src/Hart/Assembled/Steps.antt =====
-- `stepInstruction` of src/rv32/hart.cpp from the fetch of a word to the next address.
use riscv32_emulator.Hart.Manual.{with_rd, op_result, branch_holds}
use riscv32_emulator.Prelude.{
  IsU32, not, ℕ, ◌+◌, ◌≡◌, ◌∙◌, ap, refl, Bool, true, false, u32, if◌then◌else◌,
}
use riscv32_emulator.Outcome.{Result, err, Failure, Outcome, done, fail, lift, ◌>>=◌}
use riscv32_emulator.Instruction.Formats.{extend}
use riscv32_emulator.Decoder.{decode_instruction_type}
use riscv32_emulator.Decoder.Types.{InstructionType, op, branch, Opcode}
use riscv32_emulator.Decoder.Classes.{type_of}
use riscv32_emulator.Decoder.Encode.{Operands, IsOperands, assemble}
use riscv32_emulator.Hart.State.{Hart}
use riscv32_emulator.Hart.Control.{jump_to}
use riscv32_emulator.Hart.Counters.{increment_counters}
use riscv32_emulator.Hart.Step.{exec_type, exec, advance_pc, step_instruction}
use riscv32_emulator.Hart.Assembled.Fetch.{IsFetched, executing, finish, step-fetched}
use riscv32_emulator.Hart.Assembled.Arithmetic.{exec-op}
use riscv32_emulator.Hart.Assembled.Jumps.{exec-branch}

advance-branch :
    (taken : Bool) (target : ℕ) (h : Hart)
    → advance_pc (if taken then jump_to target (executing h) else executing h)
      ≡ record h { pc = if taken then target else u32 (h.pc + 4); should_increment_pc = not taken }
unfolding advance_pc jump_to
advance-branch true target h = refl
advance-branch false target h = refl

module _ (fuel now : ℕ) (h : Hart) where
  -- A step that fetches an assembled operation on two registers with words, aligned and with no
  -- interrupt to take: register `d` gets the value that the manual gives for its two registers, `pc`
  -- moves on by 4, the counters move on, and nothing else but the flag of `pc` changes.
  pub step-op :
      (o : Opcode) (x : Operands)
      → type_of o ≡ op
      → IsOperands o x
      → IsU32 (h.gpr x.s1)
      → IsU32 (h.gpr x.s2)
      → IsFetched fuel h (assemble o x)
      → step_instruction fuel now h
        ≡ done tt (
            increment_counters now
              (record (executing (with_rd x.d (op_result o (h.gpr x.s1) (h.gpr x.s2)) h)) {
                pc = u32 (h.pc + 4);
              }))
  unfolding advance_pc
  step-op o x t fits h₁ h₂ fetched =
      step-fetched fuel now h fetched.begins (assemble o x) fetched.has_word
      ∙ ap (finish now) (exec-op o x fits fuel (executing h) t h₁ h₂)

  -- A step that fetches an assembled branch on registers with words, aligned and with no interrupt to
  -- take: `pc` moves on by the sign-extended offset if the condition of the manual holds for its two
  -- registers, by 4 if it does not, the counters move on, and nothing else but the flag of `pc`
  -- changes.
  pub step-branch :
      (o : Opcode) (x : Operands)
      → type_of o ≡ branch
      → IsOperands o x
      → IsU32 (h.gpr x.s1)
      → IsU32 (h.gpr x.s2)
      → IsFetched fuel h (assemble o x)
      → (let taken = branch_holds o (h.gpr x.s1) (h.gpr x.s2) in
          step_instruction fuel now h
          ≡ done tt (
              increment_counters now (record h {
                pc = if taken then u32 (h.pc + extend 13 x.imm) else u32 (h.pc + 4);
                should_increment_pc = not taken;
              })))
  step-branch o x t fits h₁ h₂ fetched =
      step-fetched fuel now h fetched.begins (assemble o x) fetched.has_word
      ∙ ap (finish now) (exec-branch o x fits fuel (executing h) t h₁ h₂)
      ∙ ap (λ s. Outcome.done tt (increment_counters now s))
          (advance-branch (branch_holds o (h.gpr x.s1) (h.gpr x.s2)) _ h)

  -- A word whose type the decoder does not find ends the step with the exception of the decoder: no
  -- trap is taken, the counters do not move, and nothing but the flag of `pc` has changed.
  pub step-undecoded :
      (w : ℕ) (e : Failure)
      → IsFetched fuel h w
      → decode_instruction_type w ≡ err e
      → step_instruction fuel now h ≡ fail e (executing h)
  unfolding exec
  step-undecoded w e fetched x =
      step-fetched fuel now h fetched.begins w fetched.has_word
      ∙ ap
          (λ (r : Result InstructionType).
            finish now ((lift r >>= λ t. exec_type fuel t w) (executing h)))
          x
