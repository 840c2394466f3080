-- ===== src/Hart/System.antt =====
-- The case SYSTEM of `stepInstruction` in src/rv32/hart.cpp: SRET, ECALL with the calls of the
-- supervisor binary interface, and the CSR instructions.
use riscv32_emulator.Prelude.{
  ℕ, ◌+◌, ◌-◌, ◌^◌, bit_and, bit_or, Bool, true, false, not, ◌&&◌, ◌||◌, ltb, ◌==◌, if◌then◌else◌,
  switch, [], ◌∷◌, u8, u64, ◌<<<◌, complement, Option, some, none,
}
use riscv32_emulator.Outcome.{
  M, done, fail, pure, lift, modify, ◌>>=◌, ◌>>◌, throws, unknown_sbi_call,
}
use riscv32_emulator.Instruction.{rd, rs1, imm_11_0}
use riscv32_emulator.Decoder.{decode_opcode}
use riscv32_emulator.Decoder.Types.{
  Opcode, ecall, sfence_vma, sfence_inval_ir, sfence_w_inval, wfi, csrrw, csrrs, csrrc, csrrwi,
  csrrsi, csrrci,
}
use riscv32_emulator.Csr.{scounteren_cy, scounteren_tm, scounteren_ir, set_stip}
use riscv32_emulator.Csr.Address.{
  CsrAddress, cycle, cycleh, time, timeh, instret, instreth, csr_address, read_csr, write_csr,
  CsrAccessType, urw, uro, srw, access_type,
}
use riscv32_emulator.Memory.Basic.{update}
use riscv32_emulator.Hart.State.{Hart, instr_illegal, u_ecall, get, get_register, set_register}
use riscv32_emulator.Hart.Trap.{sret}
use riscv32_emulator.Hart.LoadStore.{raise}

-- `static_cast<uint32_t>` of a `char`, which has 8 bits and is signed on x86.
abbrev pub char_to_u32 : ℕ → ℕ
char_to_u32 c = if ltb (u8 c) 128 then u8 c else u8 c + (2 ^ 32 - 256)

-- The registers by the names of the union.
abbrev pub a0 : ℕ
a0 = 10

abbrev pub a1 : ℕ
a1 = 11

abbrev pub a7 : ℕ
a7 = 17

abbrev pub set_a0 : ℕ → Hart → Hart
set_a0 v h = record h { gpr = update h.gpr a0 v }

-- The four calls, by the value of a7.
unfoldable pub sbi_set_timer : Hart → Hart
sbi_set_timer h = record h {
  time_compare = bit_or (u64 (h.gpr a1 <<< 32)) (h.gpr a0);
  csr = set_stip 0 h.csr;
}

unfoldable pub sbi_console_putchar : Hart → Hart
sbi_console_putchar h = record h { world = h.hart_config.put_char_callback (u8 (h.gpr a0)) h.world }

unfoldable pub sbi_console_getchar : Hart → Hart
sbi_console_getchar h =
    let (c, world) = h.hart_config.get_char_callback h.world in
    set_a0 (char_to_u32 c) (record h { world = world })

unfoldable pub sbi_shutdown : Hart → Hart
sbi_shutdown h = set_a0 0 (record h { world = h.hart_config.shutdown_callback h.world })

unfoldable pub sbi_call : M Hart (Unit {0})
sbi_call h =
    switch (h.gpr a7)
      ((0, done tt (sbi_set_timer h))
        ∷ (1, done tt (sbi_console_putchar h))
        ∷ (2, done tt (sbi_console_getchar h))
        ∷ (8, done tt (sbi_shutdown h))
        ∷ [])
      (fail (throws (unknown_sbi_call (h.gpr a7))) h)

unfoldable pub exec_ecall : M Hart (Unit {0})
unfolding sbi_call
exec_ecall h = if h.supervisor_mode then sbi_call h else raise u_ecall 0 h

abbrev pub is_srw : CsrAccessType → Bool
is_srw srw = true
is_srw uro = false
is_srw urw = false

abbrev pub is_uro : CsrAccessType → Bool
is_uro uro = true
is_uro srw = false
is_uro urw = false

-- SCOUNTEREN hides the counter from user mode.
unfoldable pub counter_hidden : Hart → CsrAddress → Bool
counter_hidden h cycle = scounteren_cy h.csr == 0
counter_hidden h cycleh = scounteren_cy h.csr == 0
counter_hidden h time = scounteren_tm h.csr == 0
counter_hidden h timeh = scounteren_tm h.csr == 0
counter_hidden h instret = scounteren_ir h.csr == 0
counter_hidden h instreth = scounteren_ir h.csr == 0
counter_hidden h _ = false

-- The value that a CSR instruction stores, from the old value, the value of `rs1` and the field.
unfoldable pub csr_value : Opcode → ℕ → ℕ → ℕ → Option ℕ
csr_value csrrw old rs1_value field = some rs1_value
csr_value csrrs old rs1_value field = some (bit_or old rs1_value)
csr_value csrrc old rs1_value field = some (bit_and old (complement 32 rs1_value))
csr_value csrrwi old rs1_value field = some field
csr_value csrrsi old rs1_value field = some (bit_or old field)
csr_value csrrci old rs1_value field = some (bit_and old (complement 32 field))
csr_value _ old rs1_value field = none

-- `permissionCheck1` for the forms that always write, `permissionCheck2` for the others.
unfoldable pub write_refused : Opcode → CsrAccessType → ℕ → Bool
write_refused csrrw t rs1_value = is_uro t
write_refused csrrwi t rs1_value = is_uro t
write_refused _ t rs1_value = not (rs1_value == 0) && is_uro t

abbrev pub store_csr : CsrAddress → Option ℕ → Hart → Hart
store_csr a (some v) h = record h { csr = write_csr a v h.csr }
store_csr a none h = h

-- `rd` is written before the permission to write is checked.
unfoldable pub exec_csr_at : Opcode → CsrAddress → ℕ → M Hart (Unit {0})
unfolding counter_hidden csr_value write_refused
exec_csr_at o a instr = do
  h ← get
  let rs1_value = get_register (rs1 instr) h
  if not h.supervisor_mode && (counter_hidden h a || is_srw (access_type a))
      then raise instr_illegal instr
      else (do
        modify (set_register (rd instr) (read_csr a h.csr))
        if write_refused o (access_type a) rs1_value
            then raise instr_illegal instr
            else modify (store_csr a (csr_value o (read_csr a h.csr) rs1_value (rs1 instr))))

-- An unknown address throws in `getAccessType`, before anything is written.
unfoldable pub exec_csr : Opcode → ℕ → M Hart (Unit {0})
unfolding exec_csr_at
exec_csr o instr = do a ← lift (csr_address (imm_11_0 instr)); exec_csr_at o a instr

-- The cases with `skip = true`; all others, EBREAK among them, go on to the CSR code.
unfoldable pub system_case : Opcode → ℕ → M Hart (Unit {0})
unfolding exec_csr exec_ecall
system_case Opcode.sret instr = modify sret
system_case ecall instr = exec_ecall
system_case sfence_vma instr = pure tt
system_case sfence_inval_ir instr = pure tt
system_case sfence_w_inval instr = pure tt
system_case wfi instr = pure tt
system_case o instr = exec_csr o instr

unfoldable pub exec_system : ℕ → M Hart (Unit {0})
unfolding system_case
exec_system instr = do o ← lift (decode_opcode instr); system_case o instr
