-- ===== src/Hart/Trap/Timer.antt =====
-- The timer of src/rv32/hart.cpp and its interrupt: `incrementCounters` and `handleInterrupts`.
use riscv32_emulator.Hart.Counters.Clock.{wide, timer_value-lem, elapsed-lem}
use riscv32_emulator.Prelude.{
  ◌+◌, ◌-◌, ◌/◌, ◌%◌, ◌^◌, IsU64, u64, subst, sym, ℕ, ◌≤◌, ◌<◌, ◌≡◌, ◌∙◌, ap, refl, false, not,
  ◌&&◌, ◌||◌, ◌==◌, leb, bit_and, arith, u32, ◌>>>◌, ◌⊎◌, Option, some, none, if_true, if_false,
}
use riscv32_emulator.BitField.Fields.{get_field-set_field_self, get_field-set_field_below}
use riscv32_emulator.Csr.{Csrs, set_stip, sip_ssip, sip_stip, sie_ssie, sie_stie, sstatus_sie}
use riscv32_emulator.Hart.State.{Hart}
use riscv32_emulator.Hart.WellFormed.{AreWords}
use riscv32_emulator.Hart.Trap.{handle_interrupts, pending_interrupt, take_interrupt}
use riscv32_emulator.Hart.Counters.{
  advance_timer, count_instruction, increment_counters, elapsed, timer_value,
}

-- At the clock `now`, which is not behind `lastTime`, a period of the timer is over, and the 64-bit
-- timer that the whole periods give has reached `timeCompare`. The period is above zero.
pub record IsDue (now : ℕ) (h : Hart) : Type 0 where
  pub clock_word : IsU64 now
  pub not_behind : h.last_time ≤ now
  pub has_period : 0 < h.timebase_period
  pub period_over : h.timebase_period ≤ now - h.last_time
  pub reached :
      h.time_compare
      ≤ (wide h.csr.timeh h.csr.time + (now - h.last_time) / h.timebase_period) % 2 ^ 64

-- The hart takes a timer interrupt when there is one: it is in user mode or has interrupts enabled,
-- the timer's are enabled, and no software interrupt goes first.
pub record TakesTimer (h : Hart) : Type 0 where
  pub open_mode : (h.supervisor_mode ≡ false) ⊎ (sstatus_sie h.csr ≡ 1)
  pub enabled : sie_stie h.csr ≡ 1
  pub no_software : bit_and (sip_ssip h.csr) (sie_ssie h.csr) ≡ 0

-- The CSRs after a step at which the timer is due.
abbrev pub due_csrs : ℕ → Hart → Csrs
due_csrs now h = record (set_stip 1 h.csr) {
  time = bit_and (timer_value now h) 0xffffffff;
  timeh = u32 (timer_value now h >>> 32);
}

module _ (now : ℕ) (h : Hart) (w : AreWords h.csr) where
  elapsed-due : IsDue now h → h.timebase_period ≤ elapsed now h
  elapsed-due due = omega (arith, elapsed-lem now h due.clock_word due.not_behind, due.period_over)

  timer-due : IsDue now h → h.time_compare ≤ timer_value now h
  timer-due due =
      subst (λ t. h.time_compare ≤ t)
        (sym (
          timer_value-lem now h w
          ∙ ap (λ e. u64 (wide h.csr.timeh h.csr.time + e / h.timebase_period))
              (elapsed-lem now h due.clock_word due.not_behind)))
        due.reached

  pub due-eq :
      IsDue now h
      → increment_counters now h
        ≡ record h { csr = count_instruction (due_csrs now h); last_time = now }
  unfolding increment_counters advance_timer
  due-eq due =
      ap (λ (h' : Hart). record h' { csr = count_instruction h'.csr })
        (if_true {b = leb h.timebase_period (elapsed now h)} _ (ground (arith, elapsed-due due))
          ∙ ap
              (λ (c : Csrs). record h {
                csr = record c {
                  time = bit_and (timer_value now h) 0xffffffff;
                  timeh = u32 (timer_value now h >>> 32);
                };
                last_time = now;
              })
              (if_true {b = leb h.time_compare (timer_value now h)} _
                (ground (arith, timer-due due))))

  pending-timer : TakesTimer h → pending_interrupt (count_instruction (due_csrs now h)) ≡ some 5
  unfolding pending_interrupt count_instruction
  pending-timer t =
      if_false {b = not (bit_and (sip_ssip (due_csrs now h)) (sie_ssie h.csr) == 0)} _
        (rw (software, t.no_software) refl)
      ∙ if_true {b = not (bit_and (sip_stip (due_csrs now h)) (sie_stie h.csr) == 0)} _
          (rw (timer, t.enabled) refl)
    where
      software : sip_ssip (due_csrs now h) ≡ sip_ssip h.csr
      software =
          get_field-set_field_below 32 5 5 h.csr.sip 1 (omega arith) (omega arith) w.sip_word 1 1
            (omega arith) (omega arith)

      timer : sip_stip (due_csrs now h) ≡ 1
      timer = get_field-set_field_self 32 5 5 h.csr.sip 1 (omega arith) (omega arith) w.sip_word

  takes :
      (h' : Hart)
      → (h'.supervisor_mode ≡ false) ⊎ (sstatus_sie h'.csr ≡ 1)
      → pending_interrupt h'.csr ≡ some 5
      → handle_interrupts h' ≡ take_interrupt 5 h'
  unfolding handle_interrupts
  takes h' o e =
      if_true {b = not h'.supervisor_mode || (h'.supervisor_mode && sstatus_sie h'.csr == 1)} _
        (ground arith)
      ∙ ap (λ (c : Option ℕ). elim c [ some cause ↦ take_interrupt cause h' | none ↦ h' ]) e

  counted-sie :
      (h.supervisor_mode ≡ false) ⊎ (sstatus_sie h.csr ≡ 1)
      → (h.supervisor_mode ≡ false) ⊎ (sstatus_sie (count_instruction (due_csrs now h)) ≡ 1)
  unfolding count_instruction
  counted-sie o = o

  pub handle_interrupts-increment_counters :
      IsDue now h
      → TakesTimer h
      → handle_interrupts (increment_counters now h) ≡ take_interrupt 5 (increment_counters now h)
  handle_interrupts-increment_counters due t = rw (due-eq due) (
      takes (record h { csr = count_instruction (due_csrs now h); last_time = now })
        (counted-sie t.open_mode) (pending-timer t))
