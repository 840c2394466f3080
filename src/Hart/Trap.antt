-- ===== src/Hart/Trap.antt =====
-- `handleException`, `handleInterrupts` and the `SRET` of src/rv32/hart.cpp.
pub mod Return
pub mod Timer
use riscv32_emulator.Prelude.{
  ℕ, ◌+◌, ◌*◌, ◌%◌, ◌^◌, Bool, true, false, not, ◌&&◌, ◌||◌, bit_and, ◌==◌, if◌then◌else◌, u32,
  ◌<<<◌, Option, some, none,
}
use riscv32_emulator.Csr.{
  Csrs, set_spp, set_spie, set_sie, sstatus_sie, sstatus_spp, sstatus_spie, set_exception_code,
  set_interrupt, stvec_base, stvec_mode, sip_ssip, sie_ssie, sip_stip, sie_stie, sip_seip, sie_seie,
  scause_exception_code,
}
use riscv32_emulator.Hart.State.{Hart, ExceptionCode, code_number}

abbrev pub of_bool : Bool → ℕ
of_bool b = if b then 1 else 0

-- What both handlers do to `sstatus`: `spp` and `spie` keep the mode and `sie`, and `sie` is
-- cleared.
unfoldable pub push_status : Bool → Csrs → Csrs
push_status mode c =
    let c₁ = set_spp (of_bool mode) c in let c₂ = set_spie (sstatus_sie c₁) c₁ in set_sie 0 c₂

unfoldable pub handle_exception : ExceptionCode → ℕ → Hart → Hart
unfolding push_status code_number
handle_exception code stval h =
    let c = push_status h.supervisor_mode h.csr in
    let c' = set_interrupt 0 (set_exception_code (code_number code) (record c { sepc = h.pc })) in
    record h {
      csr = record c' { stval = stval };
      supervisor_mode = true;
      pc = u32 (stvec_base c' <<< 2);
      should_increment_pc = false;
    }

-- The number of the interrupt that is served, if a pending one is enabled.
unfoldable pub pending_interrupt : Csrs → Option ℕ
pending_interrupt c =
    if not (bit_and (sip_ssip c) (sie_ssie c) == 0)
    then some 1
    else if not (bit_and (sip_stip c) (sie_stie c) == 0)
    then some 5
    else if not (bit_and (sip_seip c) (sie_seie c) == 0)
    then some 9
    else none

unfoldable pub take_interrupt : ℕ → Hart → Hart
unfolding push_status
take_interrupt cause h =
    let c = push_status h.supervisor_mode (set_exception_code cause h.csr) in
    let c' = set_interrupt 1 (record c { sepc = h.pc }) in
    let base = u32 (stvec_base c' <<< 2) in
    record h {
      csr = record c' { stval = 0 };
      supervisor_mode = true;
      pc = if stvec_mode c' == 1 then u32 (base + u32 (4 * scause_exception_code c')) else base;
      should_increment_pc = false;
    }

unfoldable pub handle_interrupts : Hart → Hart
unfolding pending_interrupt take_interrupt
handle_interrupts h =
    if not h.supervisor_mode || (h.supervisor_mode && sstatus_sie h.csr == 1)
    then (elim (pending_interrupt h.csr) [ some cause ↦ take_interrupt cause h | none ↦ h ])
    else h

-- The case SRET of `stepInstruction`.
unfoldable pub sret : Hart → Hart
sret h =
    let c₁ = set_sie (sstatus_spie h.csr) h.csr in
    let c₂ = set_spp 0 (set_spie 1 c₁) in
    record h {
      supervisor_mode = not (sstatus_spp h.csr == 0);
      csr = c₂;
      pc = c₂.sepc;
      should_increment_pc = false;
    }
