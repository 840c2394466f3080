-- ===== src/Hart/Invariant/Traps.antt =====
-- The handlers of exceptions and interrupts, SRET and the counters keep the hart well-formed.
use riscv32_emulator.Prelude.{
  ℕ, ◌+◌, Bool, true, false, leb, not, ◌&&◌, ◌||◌, ◌==◌, if◌then◌else◌, IsU32, u32, arith, bit_and,
  Option, some, none, if_cases,
}
use riscv32_emulator.Prelude.Bits.{bit_and_mask}
use riscv32_emulator.Csr.{Csrs, sstatus_sie, set_exception_code, set_stip}
use riscv32_emulator.Hart.State.{Hart, ExceptionCode, code_number}
use riscv32_emulator.Hart.Trap
use riscv32_emulator.Hart.Trap.{
  push_status, handle_exception, take_interrupt, handle_interrupts, pending_interrupt,
}
use riscv32_emulator.Hart.Counters.{
  advance_timer, count_instruction, increment_counters, timer_value, elapsed,
}
use riscv32_emulator.Hart.Step.{check_alignment, advance_pc}
use riscv32_emulator.Hart.State.{instr_misaligned}
use riscv32_emulator.BitField.Bounds.{set_field-lt}
use riscv32_emulator.Hart.WellFormed.{AreWords, IsWellFormed, write_csr-AreWords}
use riscv32_emulator.Csr.Address.{sstatus, scause, stval, sepc, time, timeh, sip, write_csr}

-- The same hart with other CSRs, another `pc`, and changes that the invariant does not see.
module _ (c : Csrs) (pc last : ℕ) (mode inc : Bool) (h : Hart) where
  abbrev moved : Hart
  moved = record h {
    csr = c;
    pc = pc;
    last_time = last;
    supervisor_mode = mode;
    should_increment_pc = inc;
  }

  moved-IsWellFormed : AreWords c → IsU32 pc → IsWellFormed h → IsWellFormed moved
  moved-IsWellFormed hc hp w = record {
    zero_reads = w.zero_reads;
    registers = w.registers;
    csrs = hc;
    pc_word = hp;
    bytes = w.bytes;
  }

push_status-AreWords : (b : Bool) {c : Csrs} → AreWords c → AreWords (push_status b c)
unfolding push_status write_csr
push_status-AreWords b {c} w =
    write_csr-AreWords sstatus _
      (set_field-lt 32 1 1 _ 0 (set_field-lt 32 5 5 _ _ (set_field-lt 32 8 8 _ _ w.sstatus_word))) w

pub handle_exception-IsWellFormed :
    (code : ExceptionCode) (stval : ℕ) {h : Hart}
    → IsU32 stval
    → IsWellFormed h
    → IsWellFormed (handle_exception code stval h)
unfolding handle_exception write_csr
handle_exception-IsWellFormed code v {h} hv w =
    moved-IsWellFormed _ _ h.last_time true false h
      (write_csr-AreWords stval v hv (
        write_csr-AreWords scause _
          (set_field-lt 32 31 31 _ 0
            (set_field-lt 32 0 30 _ (code_number code) (pushed.scause_word)))
          (write_csr-AreWords sepc h.pc w.pc_word pushed)))
      (omega arith) w
  where
    pushed : AreWords (push_status h.supervisor_mode h.csr)
    pushed = push_status-AreWords h.supervisor_mode w.csrs

pub take_interrupt-IsWellFormed :
    (cause : ℕ) {h : Hart} → IsWellFormed h → IsWellFormed (take_interrupt cause h)
unfolding take_interrupt write_csr
take_interrupt-IsWellFormed cause {h} w =
    moved-IsWellFormed _ _ h.last_time true false h
      (write_csr-AreWords stval 0 (omega arith) (
        write_csr-AreWords scause _ (set_field-lt 32 31 31 _ 1 pushed.scause_word)
          (write_csr-AreWords sepc h.pc w.pc_word pushed)))
      (ground arith) w
  where
    pushed : AreWords (push_status h.supervisor_mode (set_exception_code cause h.csr))
    pushed =
        push_status-AreWords h.supervisor_mode
          (write_csr-AreWords scause _ (set_field-lt 32 0 30 _ cause (w.csrs).scause_word) w.csrs)

pub handle_interrupts-IsWellFormed :
    {h : Hart} → IsWellFormed h → IsWellFormed (handle_interrupts h)
unfolding handle_interrupts
handle_interrupts-IsWellFormed {h} w =
    if_cases IsWellFormed (not h.supervisor_mode || (h.supervisor_mode && sstatus_sie h.csr == 1))
      (served (pending_interrupt h.csr)) w
  where
    served :
        (o : Option ℕ) → IsWellFormed (elim o [ some cause ↦ take_interrupt cause h | none ↦ h ])
    served none = w
    served (some cause) = take_interrupt-IsWellFormed cause w

pub sret-IsWellFormed : {h : Hart} → IsWellFormed h → IsWellFormed (Trap.sret h)
unfolding Trap.sret write_csr
sret-IsWellFormed {h} w =
    moved-IsWellFormed _ _ h.last_time _ false h
      (write_csr-AreWords sstatus _
        (set_field-lt 32 8 8 _ 0
          (set_field-lt 32 5 5 _ 1 (set_field-lt 32 1 1 _ _ (w.csrs).sstatus_word)))
        w.csrs)
      (w.csrs).sepc_word w

advance_timer-IsWellFormed :
    (now : ℕ) {h : Hart} → IsWellFormed h → IsWellFormed (advance_timer now h)
unfolding advance_timer write_csr
advance_timer-IsWellFormed now {h} w =
    if_cases IsWellFormed (leb h.timebase_period (elapsed now h))
      (moved-IsWellFormed _ h.pc now h.supervisor_mode h.should_increment_pc h
        (write_csr-AreWords timeh _ (omega arith)
          (write_csr-AreWords time _ (rw (bit_and_mask 32) (omega arith)) ticked))
        w.pc_word w)
      w
  where
    ticked : AreWords (if leb h.time_compare (timer_value now h) then set_stip 1 h.csr else h.csr)
    ticked =
        if_cases AreWords (leb h.time_compare (timer_value now h))
          (write_csr-AreWords sip _ (set_field-lt 32 5 5 _ 1 (w.csrs).sip_word) w.csrs) w.csrs

pub increment_counters-IsWellFormed :
    (now : ℕ) {h : Hart} → IsWellFormed h → IsWellFormed (increment_counters now h)
unfolding increment_counters count_instruction
increment_counters-IsWellFormed now {h} w =
    moved-IsWellFormed (count_instruction h'.csr) h'.pc h'.last_time h'.supervisor_mode
      h'.should_increment_pc h' counted w'.pc_word w'
  where
    h' : Hart
    h' = advance_timer now h

    w' : IsWellFormed h'
    w' = advance_timer-IsWellFormed now w

    counted : AreWords (count_instruction h'.csr)
    counted = ground (arith, w'.csrs)

pub check_alignment-IsWellFormed : {h : Hart} → IsWellFormed h → IsWellFormed (check_alignment h)
unfolding check_alignment
check_alignment-IsWellFormed {h} w =
    if_cases IsWellFormed (not (bit_and h.pc 0b11 == 0))
      (handle_exception-IsWellFormed instr_misaligned h.pc w.pc_word w) w

pub advance_pc-IsWellFormed : {h : Hart} → IsWellFormed h → IsWellFormed (advance_pc h)
unfolding advance_pc
advance_pc-IsWellFormed {h} w =
    if_cases IsWellFormed h.should_increment_pc
      (moved-IsWellFormed h.csr (u32 (h.pc + 4)) h.last_time h.supervisor_mode h.should_increment_pc
        h w.csrs (omega arith) w)
      w
