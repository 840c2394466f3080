-- ===== src/Hart/Assembled/System.antt =====
-- Assembled CSR and privileged instructions of the case SYSTEM of src/rv32/hart.cpp.
use riscv32_emulator.Hart.Manual.{with_rd}
use riscv32_emulator.Hart.Manual.Values.{set_register-with_rd}
use riscv32_emulator.Hart.Manual.Csrs.{
  csr_number, lowest_mode, access_bits, csr_field, csr_result, IsCsrInstruction,
  csr_value-csr_result, csr_address-csr_number, read_csr-csr_field, not_read_only, of_supervisor,
  IsCsrWritten, write_csr-IsCsrWritten,
}
use riscv32_emulator.Hart.Trap.Return.{returned, IsReturned, bit, bit-eq, returned-IsReturned}
use riscv32_emulator.Prelude.{
  ◌≢◌, IsU32, ◌==◌, ℕ, ◌≡◌, ◌∙◌, ap, ap₂, refl, true, false, not, ◌&&◌, ◌||◌, arith, if◌then◌else◌,
  if_true, if_false,
}
use riscv32_emulator.Outcome.{Result, Outcome, done, M, lift, modify, ◌>>=◌, ◌>>◌}
use riscv32_emulator.Instruction.{rd, rs1, imm_11_0}
use riscv32_emulator.Instruction.Formats.{i_type-ReadsI}
use riscv32_emulator.Csr.{Csrs}
use riscv32_emulator.Csr.Address.{
  CsrAddress, CsrAccessType, access_type, csr_address, read_csr, write_csr,
}
use riscv32_emulator.Decoder.Types.{system, Opcode, csrrw}
use riscv32_emulator.Decoder.Encode.{i, word_of, Operands, IsOperands, fields_of, assemble}
use riscv32_emulator.Decoder.RoundTrip.{decode_opcode-assemble, fields_of-IsFields, imm_fits}
use riscv32_emulator.Hart.State.{Hart, instr_illegal, get_register, set_register}
use riscv32_emulator.Hart.Trap
use riscv32_emulator.Hart.Trap.{handle_exception}
use riscv32_emulator.Hart.LoadStore.{raise}
use riscv32_emulator.Hart.System.{
  is_srw, is_uro, counter_hidden, csr_value, write_refused, store_csr, exec_csr_at, exec_csr,
  system_case, exec_system,
}
use riscv32_emulator.Hart.Assembled.{exec-of, decoded}
use riscv32_emulator.Hart.Step.{exec_type, exec}

system_case-csr : (o : Opcode) (w : ℕ) → IsCsrInstruction o → system_case o w ≡ exec_csr o w
unfolding system_case
system_case-csr csrrw w c = refl
system_case-csr _ w c = ground (arith, c.is_system, c.has_immediate)

-- What the source does with the register and the field in the place of `rs1`.
abbrev csr_at : Opcode → ℕ → CsrAddress → ℕ → ℕ → ℕ → M Hart (Unit {0})
csr_at o instr a d source v h =
    (if not h.supervisor_mode && (counter_hidden h a || is_srw (access_type a))
        then raise instr_illegal instr
        else (modify (set_register d (read_csr a h.csr))
            >> (if write_refused o (access_type a) v
                then raise instr_illegal instr
                else modify (store_csr a (csr_value o (read_csr a h.csr) v source)))))
      h

not_refused :
    (o : Opcode) (t : CsrAccessType) (v : ℕ)
    → is_uro t ≡ false
    → IsCsrInstruction o
    → write_refused o t v ≡ false
unfolding write_refused
not_refused csrrw t v e c = e
not_refused _ t v e c = ground (arith, c.is_system, c.has_immediate)

-- The write, after the register `d` has the old value.
abbrev write_at : Opcode → ℕ → CsrAddress → ℕ → ℕ → ℕ → M Hart (Unit {0})
write_at o instr a old v source =
    if write_refused o (access_type a) v
    then raise instr_illegal instr
    else modify (store_csr a (csr_value o old v source))

module _ (o : Opcode) (x : Operands) (c : IsCsrInstruction o) (fits : IsOperands o x)
    (a : CsrAddress) (number : x.imm ≡ csr_number a) (fuel : ℕ) (h : Hart) where
  exec-csr_at :
      exec fuel (assemble o x) h ≡ csr_at o (assemble o x) a x.d x.s1 (get_register x.s1 h) h
  unfolding exec_type exec_system exec_csr exec_csr_at
  exec-csr_at =
      let w = assemble o x in
      let e = decode_opcode-assemble o x fits in
      let is_i = ap (λ fm. word_of fm (fields_of o x)) c.has_immediate in
      let reads =
        i_type-ReadsI (fields_of o x) (fields_of-IsFields o x fits)
          (imm_fits o x fits i c.has_immediate) in
      exec-of w o e fuel system h c.is_system
      ∙ decoded w o e (λ o'. system_case o' w) h
      ∙ ap (λ (m : M Hart (Unit {0})). m h) (system_case-csr o w c)
      ∙ ap (λ (r : Result CsrAddress). (lift r >>= λ a'. exec_csr_at o a' w) h)
          (ap csr_address (ap imm_11_0 is_i ∙ reads.field_eq ∙ number) ∙ csr_address-csr_number a)
      ∙ ap₂ (λ d source. csr_at o w a d source (get_register source h) h) (ap rd is_i ∙ reads.rd_eq)
          (ap rs1 is_i ∙ reads.rs1_eq)

  -- An assembled CSR instruction in supervisor mode, at the number of a register that the emulator has
  -- and that is not read-only: the register gets the value of the manual for its old value, the
  -- register `s1` and the field of that register, every other CSR stays, the register `d` gets the old
  -- value, and nothing else changes.
  pub exec-csr :
      h.supervisor_mode ≡ true
      → access_bits (csr_number a) ≢ 3
      → (csrs' : Csrs) × (exec fuel (assemble o x) h
          ≡ done tt (record (with_rd x.d (csr_field a h.csr) h) { csr = csrs' }))
        × IsCsrWritten a (csr_result o (csr_field a h.csr) (h.gpr x.s1) x.s1) h.csr csrs'
  unfolding get_register
  exec-csr supervisor writable =
      let old = csr_field a h.csr in
      let v = h.gpr x.s1 in
      let new = csr_result o old v x.s1 in
      (
        write_csr a new h.csr,
        exec-csr_at
            ∙ ap (λ (m : M Hart (Unit {0})). m h)
                (if_false
                  {b = not h.supervisor_mode && (counter_hidden h a || is_srw (access_type a))} _
                  (ground arith))
            ∙ ap (λ n. write_at o (assemble o x) a n v x.s1 (set_register x.d n h))
                (read_csr-csr_field a h.csr)
            ∙ ap (write_at o (assemble o x) a old v x.s1) (set_register-with_rd x.d old h)
            ∙ ap (λ (m : M Hart (Unit {0})). m (with_rd x.d old h))
                (if_false _ (not_refused o (access_type a) v (not_read_only a writable) c))
            ∙ ap (λ n. Outcome.done tt (store_csr a n (with_rd x.d old h)))
                (csr_value-csr_result o old v x.s1 c),
        write_csr-IsCsrWritten a new h.csr,
      )

  -- An assembled CSR instruction in user mode, at the number of a register that the emulator has and
  -- whose lowest mode is the supervisor's, raises an illegal instruction exception with the word in
  -- `stval`, and does nothing else.
  pub exec-csr-user :
      h.supervisor_mode ≡ false
      → lowest_mode (csr_number a) ≡ 1
      → exec fuel (assemble o x) h ≡ done tt (handle_exception instr_illegal (assemble o x) h)
  exec-csr-user user supervisors =
      exec-csr_at
      ∙ ap (λ (m : M Hart (Unit {0})). m h)
          (if_true {b = not h.supervisor_mode && (counter_hidden h a || is_srw (access_type a))} _
            (ground (arith, of_supervisor a supervisors)))

-- An assembled SRET in every mode, user mode included, with a word in `sstatus`: the mode becomes
-- what bit 8 of `sstatus` says, `pc` becomes `sepc` and does not move on, `sstatus` becomes one with
-- `spp` clear, `spie` set, `sie` as `spie` was and every other bit the same, and nothing else changes.
pub exec-sret :
    (x : Operands) (fuel : ℕ) (h : Hart)
    → IsOperands Opcode.sret x
    → IsU32 h.csr.sstatus
    → (s : ℕ) × (exec fuel (assemble Opcode.sret x) h
        ≡ done tt (record h {
          supervisor_mode = bit 8 h.csr.sstatus == 1;
          csr = record h.csr { sstatus = s };
          pc = h.csr.sepc;
          should_increment_pc = false;
        }))
      × IsReturned h.csr.sstatus s
unfolding exec_type exec_system system_case Trap.sret
exec-sret x fuel h fits word =
    let w = assemble Opcode.sret x in
    let e = decode_opcode-assemble Opcode.sret x fits in
    (
      returned h.csr.sstatus,
      exec-of w Opcode.sret e fuel system h refl
          ∙ decoded w Opcode.sret e (λ o'. system_case o' w) h
          ∙ ap
              (λ m. Outcome.done tt (record h {
                supervisor_mode = m;
                csr = record h.csr { sstatus = returned h.csr.sstatus };
                pc = h.csr.sepc;
                should_increment_pc = false;
              }))
              (ground (arith, bit-eq 8 h.csr.sstatus)),
      returned-IsReturned h.csr.sstatus word,
    )
