-- ===== src/Hart/Invariant/System.antt =====
-- The case SYSTEM of src/rv32/hart.cpp keeps the hart well-formed.
use riscv32_emulator.Prelude.{ℕ, IsU32, arith, Option, some, none, if_cases, not, ◌&&◌, ◌||◌, ◌==◌}
use riscv32_emulator.Prelude.Bits.{bit_and-lt, bit_or-lt}
use riscv32_emulator.Outcome.{Outcome, lift, modify, Ends, returns, fails, Any, bind-Ensures}
use riscv32_emulator.Console.{World}
use riscv32_emulator.Decoder.Types.{
  Opcode, csrrw, csrrs, csrrc, csrrwi, csrrsi, csrrci, ecall, sfence_vma, sfence_inval_ir,
  sfence_w_inval, wfi,
}
use riscv32_emulator.Instruction.{rd, rs1, imm_11_0}
use riscv32_emulator.Csr.{Csrs}
use riscv32_emulator.Csr.Address.{CsrAddress, sip, csr_address, read_csr, write_csr, access_type}
use riscv32_emulator.Hart.State.{Hart, get_register, set_register, instr_illegal, u_ecall}
use riscv32_emulator.Hart.System.{
  sbi_set_timer, sbi_console_putchar, sbi_console_getchar, sbi_shutdown, sbi_call, exec_ecall,
  csr_value, write_refused, store_csr, exec_csr_at, exec_csr, system_case, exec_system, set_a0,
  char_to_u32, counter_hidden, is_srw, a7,
}
use riscv32_emulator.BitField.Bounds.{set_field-lt}
use riscv32_emulator.Hart.WellFormed.{IsWellFormed, AreWords, write_csr-AreWords, read_csr-lt}
use riscv32_emulator.Hart.Invariant.Traps.{sret-IsWellFormed}
use riscv32_emulator.Hart.Invariant.Values.{Each, rs1-lt}
use riscv32_emulator.Hart.Invariant.Memory.{
  Keeps, pure-Keeps, modify-Keeps, set_register-Keeps, decoded-Keeps, if-Keeps, raise-Keeps,
  lift-Gives,
}

with_csr-IsWellFormed :
    (c : Csrs) {h : Hart} → AreWords c → IsWellFormed h → IsWellFormed (record h { csr = c })
with_csr-IsWellFormed c hc w = record {
  zero_reads = w.zero_reads;
  registers = w.registers;
  csrs = hc;
  pc_word = w.pc_word;
  bytes = w.bytes;
}

with_world-IsWellFormed :
    (world : World) {h : Hart} → IsWellFormed h → IsWellFormed (record h { world = world })
with_world-IsWellFormed world w = record {
  zero_reads = w.zero_reads;
  registers = w.registers;
  csrs = w.csrs;
  pc_word = w.pc_word;
  bytes = w.bytes;
}

set_a0-IsWellFormed : (v : ℕ) {h : Hart} → IsU32 v → IsWellFormed h → IsWellFormed (set_a0 v h)
set_a0-IsWellFormed v {h} hv w = record {
  zero_reads = w.zero_reads;
  registers = λ i. ground (arith, w.registers i);
  csrs = w.csrs;
  pc_word = w.pc_word;
  bytes = w.bytes;
}

set_timer-IsWellFormed : {h : Hart} → IsWellFormed h → IsWellFormed (sbi_set_timer h)
unfolding sbi_set_timer write_csr
set_timer-IsWellFormed {h} w = record {
  zero_reads = w.zero_reads;
  registers = w.registers;
  csrs = write_csr-AreWords sip _ (set_field-lt 32 5 5 h.csr.sip 0 (w.csrs).sip_word) w.csrs;
  pc_word = w.pc_word;
  bytes = w.bytes;
}

char_to_u32-lt : (c : ℕ) → IsU32 (char_to_u32 c)
char_to_u32-lt c = ground arith

-- Each call of the SBI keeps the invariant, and an unknown one changes nothing.
sbi_call-Keeps : Keeps sbi_call
unfolding sbi_call sbi_console_putchar sbi_console_getchar sbi_shutdown
sbi_call-Keeps h w = if_cases Kept (h.gpr a7 == 0) (returns tt (set_timer-IsWellFormed w)) (
    if_cases Kept (h.gpr a7 == 1) (returns tt (with_world-IsWellFormed _ w)) (
      if_cases Kept (h.gpr a7 == 2)
        (returns tt (set_a0-IsWellFormed _ (char_to_u32-lt _) (with_world-IsWellFormed _ w)))
        (if_cases Kept (h.gpr a7 == 8)
          (returns tt (set_a0-IsWellFormed 0 (omega arith) (with_world-IsWellFormed _ w)))
          (fails w))))
  where
    Kept : Outcome Hart (Unit {0}) → Type 0
    Kept = Ends IsWellFormed Any

exec_ecall-Keeps : Keeps exec_ecall
unfolding exec_ecall
exec_ecall-Keeps h w =
    if_cases (Ends IsWellFormed Any) h.supervisor_mode (sbi_call-Keeps h w)
      (raise-Keeps u_ecall 0 (omega arith) h w)

csr_value-lt :
    (o : Opcode) (old v field : ℕ)
    → IsU32 old
    → IsU32 v
    → IsU32 field
    → Each IsU32 (csr_value o old v field)
unfolding csr_value
csr_value-lt csrrw old v field ho hv hf = hv
csr_value-lt csrrs old v field ho hv hf = bit_or-lt 32 old v ho hv
csr_value-lt csrrc old v field ho hv hf = bit_and-lt 32 old _ ho
csr_value-lt csrrwi old v field ho hv hf = hf
csr_value-lt csrrsi old v field ho hv hf = bit_or-lt 32 old field ho hf
csr_value-lt csrrci old v field ho hv hf = bit_and-lt 32 old _ ho
csr_value-lt _ old v field ho hv hf = tt

store_csr-Keeps : (a : CsrAddress) (v : Option ℕ) → Each IsU32 v → Keeps (modify (store_csr a v))
store_csr-Keeps a none hv = modify-Keeps _ (λ h w. w)
store_csr-Keeps a (some v) hv =
    modify-Keeps _ λ h w. with_csr-IsWellFormed _ (write_csr-AreWords a v hv w.csrs) w

exec_csr_at-Keeps :
    (o : Opcode) (a : CsrAddress) (instr : ℕ) → IsU32 instr → Keeps (exec_csr_at o a instr)
unfolding exec_csr_at
exec_csr_at-Keeps o a instr hi h w =
    if-Keeps (not h.supervisor_mode && (counter_hidden h a || is_srw (access_type a)))
      (raise-Keeps instr_illegal instr hi)
      (bind-Ensures (modify (set_register (rd instr) (read_csr a h.csr))) _
        (set_register-Keeps (rd instr) (read_csr a h.csr) (read_csr-lt a w.csrs))
        λ _ _.
          if-Keeps (write_refused o (access_type a) (get_register (rs1 instr) h))
            (raise-Keeps instr_illegal instr hi)
            (store_csr-Keeps a _ (
              csr_value-lt o (read_csr a h.csr) (get_register (rs1 instr) h) (rs1 instr)
                (read_csr-lt a w.csrs) (unfold get_register in w.registers (rs1 instr))
                (rs1-lt instr))))
      h w

exec_csr-Keeps : (o : Opcode) (instr : ℕ) → IsU32 instr → Keeps (exec_csr o instr)
unfolding exec_csr
exec_csr-Keeps o instr hi =
    bind-Ensures (lift (csr_address (imm_11_0 instr))) (λ a. exec_csr_at o a instr)
      (lift-Gives {Q = Any} (csr_address (imm_11_0 instr)) (λ _ _. tt))
      (λ a _. exec_csr_at-Keeps o a instr hi)

system_case-Keeps : (o : Opcode) (instr : ℕ) → IsU32 instr → Keeps (system_case o instr)
unfolding system_case
system_case-Keeps Opcode.sret instr hi = modify-Keeps _ (λ h w. sret-IsWellFormed w)
system_case-Keeps ecall instr hi = exec_ecall-Keeps
system_case-Keeps sfence_vma instr hi = pure-Keeps
system_case-Keeps sfence_inval_ir instr hi = pure-Keeps
system_case-Keeps sfence_w_inval instr hi = pure-Keeps
system_case-Keeps wfi instr hi = pure-Keeps
system_case-Keeps o instr hi = exec_csr-Keeps o instr hi

pub exec_system-Keeps : (instr : ℕ) → IsU32 instr → Keeps (exec_system instr)
unfolding exec_system
exec_system-Keeps instr hi =
    decoded-Keeps instr (λ o. system_case o instr) (λ o. system_case-Keeps o instr hi)
