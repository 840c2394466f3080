-- ===== src/Hart/Privilege/User.antt =====
-- An instruction of src/rv32/hart.cpp in user mode.
use riscv32_emulator.Hart.Trap.Return.{returned-IsReturned}
use riscv32_emulator.Prelude.{
  inr, ℕ, ◌≡◌, refl, if_split, ap, arith, true, false, not, ◌&&◌, ◌||◌, if_cases, IsU32, ◌==◌,
}
use riscv32_emulator.Outcome.{Result, ok, err, M, lift, ◌>>=◌, Ends, returns, fails, Any}
use riscv32_emulator.BitField.Bounds.{set_field-lt}
use riscv32_emulator.Csr.{sstatus_spp}
use riscv32_emulator.Csr.Address.{CsrAddress, access_type, csr_address, read_csr}
use riscv32_emulator.Decoder.{decode_opcode, decode_instruction_type}
use riscv32_emulator.Decoder.Types.{
  InstructionType, load, store, branch, jump, amo, op_imm, op, system, op_ui, op_fence, Opcode,
  ecall, sfence_vma, sfence_inval_ir, sfence_w_inval, wfi,
}
use riscv32_emulator.Instruction.{rd, rs1, imm_11_0}
use riscv32_emulator.Hart.State.{Hart, set_register, get_register, instr_illegal, u_ecall}
use riscv32_emulator.Hart.Trap.{sret}
use riscv32_emulator.Hart.System.{
  exec_csr_at, exec_csr, system_case, exec_system, exec_ecall, write_refused, counter_hidden,
  is_srw,
}
use riscv32_emulator.Hart.Step.{exec_type, exec}
use riscv32_emulator.Hart.Privilege.Effect.{Quiet-refl}
use riscv32_emulator.Hart.Privilege.Cases.{
  exec_load-Follows, exec_store-Follows, exec_branch-Follows, exec_jump-Follows, exec_amo-Follows,
  exec_op_imm-Follows, exec_op-Follows, exec_op_ui-Follows,
}
use riscv32_emulator.Hart.Privilege.Contained.{
  Stays, Contained, store_csr-Stays, no_spp, Quiet-Stays, Follows-Contained, raise-Contained, stays,
}

module _ (h : Hart) (user : h.supervisor_mode ≡ false) (no_return : sstatus_spp h.csr ≡ 0) where
  sret-Stays : IsU32 h.csr.sstatus → Stays h (sret h)
  unfolding sret
  sret-Stays is_word = record {
    mode = ap (λ t. not (t == 0)) no_return;
    spp = no_spp _ (set_field-lt 32 5 5 _ 1 (set_field-lt 32 1 1 h.csr.sstatus _ is_word));
    status = inr (returned-IsReturned h.csr.sstatus is_word);
    same = record {
      sie_same = refl;
      stvec_same = refl;
      scounteren_same = refl;
      sscratch_same = refl;
      sip_same = refl;
      satp_same = refl;
    };
    sepc_same = refl;
    scause_same = refl;
    stval_same = refl;
  }

  exec_csr_at-Contained :
      (o : Opcode) (a : CsrAddress) (instr : ℕ) → Ends (Contained h) Any (exec_csr_at o a instr h)
  unfolding exec_csr_at
  exec_csr_at-Contained o a instr =
      if_split Ended (not h.supervisor_mode && (counter_hidden h a || is_srw (access_type a)))
        (λ _. raise-Contained h user no_return instr_illegal instr h refl)
        (λ open_csr.
          if_cases Ended' (write_refused o (access_type a) (get_register (rs1 instr) h))
            (raise-Contained h user no_return instr_illegal instr
              (set_register (rd instr) (read_csr a h.csr) h) (unfold set_register in refl))
            (returns tt (stays (store_csr-Stays a _ (only_counters open_csr) written))))
    where
      Ended : M Hart (Unit {0}) → Type 0
      Ended m = Ends (Contained h) Any (m h)

      Ended' : M Hart (Unit {0}) → Type 0
      Ended' m = Ends (Contained h) Any (m (set_register (rd instr) (read_csr a h.csr) h))

      only_counters :
          (not h.supervisor_mode && (counter_hidden h a || is_srw (access_type a))) ≡ false
          → is_srw (access_type a) ≡ false
      only_counters e = ground (arith, user)

      written : Stays h (set_register (rd instr) (read_csr a h.csr) h)
      written =
          Quiet-Stays h user no_return (unfold set_register in record { mode = refl; csr = refl })

  csr_found-Contained :
      (o : Opcode) (instr : ℕ) (r : Result CsrAddress)
      → Ends (Contained h) Any ((lift r >>= λ a. exec_csr_at o a instr) h)
  csr_found-Contained o instr (ok a) = exec_csr_at-Contained o a instr
  csr_found-Contained o instr (err e) = fails (stays (Quiet-Stays h user no_return Quiet-refl))

  system_case-Contained :
      (o : Opcode) (instr : ℕ)
      → IsU32 h.csr.sstatus
      → Ends (Contained h) Any (system_case o instr h)
  unfolding system_case exec_csr exec_ecall
  system_case-Contained Opcode.sret instr w = returns tt (stays (sret-Stays w))
  system_case-Contained ecall instr w =
      if_split (Ends (Contained h) Any) h.supervisor_mode (λ e. absurd (true_false e))
        (λ _. raise-Contained h user no_return u_ecall 0 h refl)
    where
      true_false : ¬ h.supervisor_mode ≡ true
      true_false e = cc
  system_case-Contained sfence_vma instr w =
      returns tt (stays (Quiet-Stays h user no_return Quiet-refl))
  system_case-Contained sfence_inval_ir instr w =
      returns tt (stays (Quiet-Stays h user no_return Quiet-refl))
  system_case-Contained sfence_w_inval instr w =
      returns tt (stays (Quiet-Stays h user no_return Quiet-refl))
  system_case-Contained wfi instr w = returns tt (stays (Quiet-Stays h user no_return Quiet-refl))
  system_case-Contained o instr w = csr_found-Contained o instr (csr_address (imm_11_0 instr))

  exec_type-Contained :
      (fuel : ℕ) (t : InstructionType) (instr : ℕ)
      → IsU32 h.csr.sstatus
      → Ends (Contained h) Any (exec_type fuel t instr h)
  unfolding exec_type exec_system
  exec_type-Contained fuel load instr w =
      Follows-Contained h user no_return _ (exec_load-Follows fuel instr)
  exec_type-Contained fuel store instr w =
      Follows-Contained h user no_return _ (exec_store-Follows fuel instr)
  exec_type-Contained fuel branch instr w =
      Follows-Contained h user no_return _ (exec_branch-Follows instr)
  exec_type-Contained fuel jump instr w =
      Follows-Contained h user no_return _ (exec_jump-Follows instr)
  exec_type-Contained fuel amo instr w =
      Follows-Contained h user no_return _ (exec_amo-Follows fuel instr)
  exec_type-Contained fuel op_imm instr w =
      Follows-Contained h user no_return _ (exec_op_imm-Follows instr)
  exec_type-Contained fuel op instr w = Follows-Contained h user no_return _ (exec_op-Follows instr)
  exec_type-Contained fuel system instr w = decoded (decode_opcode instr)
    where
      decoded :
          (r : Result Opcode) → Ends (Contained h) Any ((lift r >>= λ o. system_case o instr) h)
      decoded (ok o) = system_case-Contained o instr w
      decoded (err e) = fails (stays (Quiet-Stays h user no_return Quiet-refl))
  exec_type-Contained fuel op_ui instr w =
      Follows-Contained h user no_return _ (exec_op_ui-Follows instr)
  exec_type-Contained fuel op_fence instr w =
      returns tt (stays (Quiet-Stays h user no_return Quiet-refl))

  typed-Contained :
      (fuel instr : ℕ) (r : Result InstructionType)
      → IsU32 h.csr.sstatus
      → Ends (Contained h) Any ((lift r >>= λ t. exec_type fuel t instr) h)
  typed-Contained fuel instr (ok t) w = exec_type-Contained fuel t instr w
  typed-Contained fuel instr (err e) w = fails (stays (Quiet-Stays h user no_return Quiet-refl))

-- An instruction that is executed in user mode, with the bit `spp` clear and `sstatus` a word,
-- returns or throws with the hart in one of two states. It is in user mode with `spp` clear, sie,
-- stvec, scounteren, sscratch, sip, satp, sepc, scause and stval are unchanged, and sstatus is
-- unchanged or has `spp` clear, `spie` set, `sie` as `spie` was and every other bit unchanged, as an
-- SRET leaves it; or it is in supervisor mode at the address that `stvec` gives, where `pc` stays, and
-- sie, stvec, scounteren, sscratch, sip and satp are unchanged.
pub exec-Contained :
    (fuel instr : ℕ) (h : Hart)
    → h.supervisor_mode ≡ false
    → sstatus_spp h.csr ≡ 0
    → IsU32 h.csr.sstatus
    → Ends (Contained h) Any (exec fuel instr h)
unfolding exec
exec-Contained fuel instr h user no_return w =
    typed-Contained h user no_return fuel instr (decode_instruction_type instr) w
