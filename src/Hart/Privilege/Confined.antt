-- ===== src/Hart/Privilege/Confined.antt =====
-- `stepInstruction` of src/rv32/hart.cpp in supervisor mode, and the mode that SRET returns to.
use riscv32_emulator.Prelude.{
  ℕ, ◌≡◌, refl, ap, ◌∙◌, true, not, ◌&&◌, ◌||◌, if_cases, IsU32, ◌==◌, Option, some, none,
}
use riscv32_emulator.Outcome.{Result, ok, err, Outcome, M, lift, ◌>>=◌, Ends, returns, fails, Any}
use riscv32_emulator.BitField.Bounds.{set_field-lt}
use riscv32_emulator.Csr.{sstatus_spp}
use riscv32_emulator.Csr.Address.{CsrAddress, access_type, csr_address, read_csr}
use riscv32_emulator.Decoder.{decode_opcode, decode_instruction_type}
use riscv32_emulator.Decoder.Types.{
  InstructionType, load, store, branch, jump, amo, op_imm, op, system, op_ui, op_fence, Opcode,
  ecall, sfence_vma, sfence_inval_ir, sfence_w_inval, wfi,
}
use riscv32_emulator.Instruction.{rd, rs1, imm_11_0}
use riscv32_emulator.Hart.State.{
  Hart, ExceptionCode, set_register, get_register, instr_illegal, u_ecall,
}
use riscv32_emulator.Hart.Trap.{handle_exception, sret}
use riscv32_emulator.Hart.LoadStore.{raise}
use riscv32_emulator.Hart.System.{
  exec_csr_at, exec_csr, system_case, exec_system, exec_ecall, sbi_call, sbi_set_timer,
  sbi_console_putchar, sbi_console_getchar, sbi_shutdown, store_csr, write_refused, counter_hidden,
  is_srw, a7,
}
use riscv32_emulator.Hart.Step.{exec_type, exec}
use riscv32_emulator.Hart.Privilege.Effect.{Quiet-refl, Effect, quiet, trap, Follows}
use riscv32_emulator.Hart.Privilege.Cases.{
  exec_load-Follows, exec_store-Follows, exec_branch-Follows, exec_jump-Follows, exec_amo-Follows,
  exec_op_imm-Follows, exec_op-Follows, exec_op_ui-Follows,
}
use riscv32_emulator.Hart.Privilege.Contained.{no_spp}

-- The hart is in supervisor mode, or the bit `spp`, by which SRET chooses the mode, is clear.
pub data IsConfined (h : Hart) : Type 0 where
  in_supervisor : h.supervisor_mode ≡ true → IsConfined h
  spp_clear : sstatus_spp h.csr ≡ 0 → IsConfined h

pub handle_exception-IsConfined :
    (code : ExceptionCode) (stval : ℕ) (h : Hart) → IsConfined (handle_exception code stval h)
unfolding handle_exception
handle_exception-IsConfined code stval h = in_supervisor refl

sret-IsConfined : (h : Hart) → IsU32 h.csr.sstatus → IsConfined (sret h)
unfolding sret
sret-IsConfined h is_word =
    spp_clear (no_spp _ (set_field-lt 32 5 5 _ 1 (set_field-lt 32 1 1 h.csr.sstatus _ is_word)))

-- An instruction in supervisor mode.
module _ (h : Hart) (supervisor : h.supervisor_mode ≡ true) where
  kept : {h' : Hart} → h'.supervisor_mode ≡ h.supervisor_mode → IsConfined h'
  kept e = in_supervisor (e ∙ supervisor)

  Effect-IsConfined : {h' : Hart} → Effect h h' → IsConfined h'
  Effect-IsConfined (quiet q) = kept q.mode
  Effect-IsConfined (trap code stval raised q e) =
      in_supervisor (ap (λ t. t.supervisor_mode) e ∙ unfold handle_exception in refl)

  Ends-IsConfined : {o : Outcome Hart (Unit {0})} → Ends (Effect h) Any o → Ends IsConfined Any o
  Ends-IsConfined (returns a e) = returns a (Effect-IsConfined e)
  Ends-IsConfined (fails e) = fails (Effect-IsConfined e)

  Follows-IsConfined : (m : M Hart (Unit {0})) → Follows h m → Ends IsConfined Any (m h)
  Follows-IsConfined m k = Ends-IsConfined (k h Quiet-refl)

  sbi_call-IsConfined : Ends IsConfined Any (sbi_call h)
  unfolding sbi_call sbi_set_timer sbi_console_putchar sbi_console_getchar sbi_shutdown
  sbi_call-IsConfined = if_cases Kept (h.gpr a7 == 0) (returns tt (kept refl)) (
      if_cases Kept (h.gpr a7 == 1) (returns tt (kept refl)) (
        if_cases Kept (h.gpr a7 == 2) (returns tt (kept refl))
          (if_cases Kept (h.gpr a7 == 8) (returns tt (kept refl)) (fails (kept refl)))))
    where
      Kept : Outcome Hart (Unit {0}) → Type 0
      Kept = Ends IsConfined Any

  raise-IsConfined :
      (code : ExceptionCode) (stval : ℕ) (s : Hart) → Ends IsConfined Any (raise code stval s)
  raise-IsConfined code stval s = returns tt (handle_exception-IsConfined code stval s)

  store_csr-mode :
      (a : CsrAddress) (v : Option ℕ) (s : Hart)
      → (store_csr a v s).supervisor_mode ≡ s.supervisor_mode
  store_csr-mode a (some v) s = refl
  store_csr-mode a none s = refl

  set_register-mode :
      (i v : ℕ) (s : Hart) → (set_register i v s).supervisor_mode ≡ s.supervisor_mode
  unfolding set_register
  set_register-mode i v s = refl

  exec_csr_at-IsConfined :
      (o : Opcode) (a : CsrAddress) (instr : ℕ) → Ends IsConfined Any (exec_csr_at o a instr h)
  unfolding exec_csr_at
  exec_csr_at-IsConfined o a instr =
      if_cases (λ (m : M Hart (Unit {0})). Ends IsConfined Any (m h))
        (not h.supervisor_mode && (counter_hidden h a || is_srw (access_type a)))
        (raise-IsConfined instr_illegal instr h)
        (if_cases
          (λ (m : M Hart (Unit {0})).
            Ends IsConfined Any (m (set_register (rd instr) (read_csr a h.csr) h)))
          (write_refused o (access_type a) (get_register (rs1 instr) h))
          (raise-IsConfined instr_illegal instr _)
          (returns tt
            (kept (store_csr-mode a _ _ ∙ set_register-mode (rd instr) (read_csr a h.csr) h))))

  system_case-IsConfined :
      (o : Opcode) (instr : ℕ) → IsU32 h.csr.sstatus → Ends IsConfined Any (system_case o instr h)
  unfolding system_case exec_csr exec_ecall
  system_case-IsConfined Opcode.sret instr w = returns tt (sret-IsConfined h w)
  system_case-IsConfined ecall instr w =
      if_cases (Ends IsConfined Any) h.supervisor_mode sbi_call-IsConfined
        (raise-IsConfined u_ecall 0 h)
  system_case-IsConfined sfence_vma instr w = returns tt (kept refl)
  system_case-IsConfined sfence_inval_ir instr w = returns tt (kept refl)
  system_case-IsConfined sfence_w_inval instr w = returns tt (kept refl)
  system_case-IsConfined wfi instr w = returns tt (kept refl)
  system_case-IsConfined o instr w = found (csr_address (imm_11_0 instr))
    where
      found :
          (r : Result CsrAddress) → Ends IsConfined Any ((lift r >>= λ a. exec_csr_at o a instr) h)
      found (ok a) = exec_csr_at-IsConfined o a instr
      found (err e) = fails (kept refl)

  exec_type-IsConfined :
      (fuel : ℕ) (t : InstructionType) (instr : ℕ)
      → IsU32 h.csr.sstatus
      → Ends IsConfined Any (exec_type fuel t instr h)
  unfolding exec_type exec_system
  exec_type-IsConfined fuel load instr w = Follows-IsConfined _ (exec_load-Follows fuel instr)
  exec_type-IsConfined fuel store instr w = Follows-IsConfined _ (exec_store-Follows fuel instr)
  exec_type-IsConfined fuel branch instr w = Follows-IsConfined _ (exec_branch-Follows instr)
  exec_type-IsConfined fuel jump instr w = Follows-IsConfined _ (exec_jump-Follows instr)
  exec_type-IsConfined fuel amo instr w = Follows-IsConfined _ (exec_amo-Follows fuel instr)
  exec_type-IsConfined fuel op_imm instr w = Follows-IsConfined _ (exec_op_imm-Follows instr)
  exec_type-IsConfined fuel op instr w = Follows-IsConfined _ (exec_op-Follows instr)
  exec_type-IsConfined fuel system instr w = decoded (decode_opcode instr)
    where
      decoded : (r : Result Opcode) → Ends IsConfined Any ((lift r >>= λ o. system_case o instr) h)
      decoded (ok o) = system_case-IsConfined o instr w
      decoded (err e) = fails (kept refl)
  exec_type-IsConfined fuel op_ui instr w = Follows-IsConfined _ (exec_op_ui-Follows instr)
  exec_type-IsConfined fuel op_fence instr w = returns tt (kept refl)

  pub exec_supervisor-IsConfined :
      (fuel instr : ℕ) → IsU32 h.csr.sstatus → Ends IsConfined Any (exec fuel instr h)
  unfolding exec
  exec_supervisor-IsConfined fuel instr w = typed (decode_instruction_type instr)
    where
      typed :
          (r : Result InstructionType)
          → Ends IsConfined Any ((lift r >>= λ t. exec_type fuel t instr) h)
      typed (ok t) = exec_type-IsConfined fuel t instr w
      typed (err e) = fails (kept refl)
