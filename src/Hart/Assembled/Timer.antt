-- ===== src/Hart/Assembled/Timer.antt =====
-- The step after the one in which the timer of src/rv32/hart.cpp has become due.
use riscv32_emulator.Prelude.{
  ℕ, ◌+◌, ◌*◌, ◌/◌, ◌%◌, ◌^◌, ◌≡◌, ◌∙◌, ap, refl, true, ◌==◌, if◌then◌else◌, arith, IsU32, subst,
  sym,
}
use riscv32_emulator.BitField.{set_field, get_field_lem, set_field_lem}
use riscv32_emulator.Hart.State.{Hart}
use riscv32_emulator.Hart.WellFormed.{AreWords}
use riscv32_emulator.Hart.Trap.{handle_interrupts, take_interrupt}
use riscv32_emulator.Hart.Trap.Return.{IsPushed, take_interrupt-IsPushed}
use riscv32_emulator.Hart.Trap.Timer.{
  IsDue, TakesTimer, due_csrs, due-eq, handle_interrupts-increment_counters,
}
use riscv32_emulator.Hart.Counters.{increment_counters, count_instruction}
use riscv32_emulator.Hart.Step.{exec, step_instruction}
use riscv32_emulator.Hart.Assembled.Fetch.{
  HasWord, executing, finish, step-word, check_alignment-aligned,
}

-- The hart `h'` serves the timer interrupt that `h` was interrupted by.
pub record ServesTimer (h h' : Hart) : Type 0 where
  pub mode : h'.supervisor_mode ≡ true
  pub cause : h'.csr.scause ≡ 2 ^ 31 + 5
  pub value : h'.csr.stval ≡ 0
  pub interrupted : h'.csr.sepc ≡ h.pc
  pub status : IsPushed h.supervisor_mode h.csr.sstatus h'.csr.sstatus
  pub registers : h'.gpr ≡ h.gpr
  pub memory : h'.mem ≡ h.mem
  pub handler :
      h'.pc
      ≡ (if h.csr.stvec % 4 == 1 then (h.csr.stvec / 4 * 4 + 20) % 2 ^ 32 else h.csr.stvec / 4 * 4)

timer_cause : (x : ℕ) → IsU32 x → set_field 32 31 31 (set_field 32 0 30 x 5) 1 ≡ 2 ^ 31 + 5
timer_cause x word =
    set_field_lem 32 31 31 _ 1 (omega arith) (omega arith) (omega (arith, code))
    ∙ omega (arith, code)
  where
    code : set_field 32 0 30 x 5 ≡ (x / 2 ^ 0 / 2 ^ 31 * 2 ^ 31 + 5 % 2 ^ 31) * 2 ^ 0 + x % 2 ^ 0
    code = set_field_lem 32 0 30 x 5 (omega arith) (omega arith) word

-- The hart before the interrupt, with its words.
module _ (h : Hart) (cause_word : IsU32 h.csr.scause) (status_word : IsU32 h.csr.sstatus)
    (vector_word : IsU32 h.csr.stvec) where
  take_interrupt-ServesTimer : ServesTimer h (take_interrupt 5 h)
  unfolding take_interrupt
  take_interrupt-ServesTimer = record {
    mode = refl;
    cause = timer_cause h.csr.scause cause_word;
    value = refl;
    registers = refl;
    memory = refl;
    interrupted = refl;
    status = take_interrupt-IsPushed 5 h status_word;
    handler = ground (
      arith,
      get_field_lem 0 1 h.csr.stvec,
      get_field_lem 2 31 h.csr.stvec,
      get_field_lem 0 30 (set_field 32 31 31 (set_field 32 0 30 h.csr.scause 5) 1),
      timer_cause h.csr.scause cause_word,
    );
  }

module _ (now : ℕ) (h : Hart) (words : AreWords h.csr) where
  due-ServesTimer : IsDue now h → ServesTimer h (take_interrupt 5 (increment_counters now h))
  unfolding count_instruction
  due-ServesTimer due =
      subst (λ s. ServesTimer h (take_interrupt 5 s)) (sym (due-eq now h words due))
        record {
          mode = k.mode;
          cause = k.cause;
          value = k.value;
          interrupted = k.interrupted;
          status = k.status;
          registers = k.registers;
          memory = k.memory;
          handler = k.handler;
        }
    where
      counted : Hart
      counted = record h { csr = count_instruction (due_csrs now h); last_time = now }

      k : ServesTimer counted (take_interrupt 5 counted)
      k = take_interrupt-ServesTimer counted words.scause_word words.sstatus_word words.stvec_word

  due-pc : IsDue now h → (increment_counters now h).pc ≡ h.pc
  due-pc due = ap (λ (s : Hart). s.pc) (due-eq now h words due)

  -- The step after the timer of a hart with words in its CSRs has become due, at an aligned `pc`, in
  -- user mode or with interrupts enabled, where the timer's interrupt is enabled, no enabled software
  -- interrupt is pending, and the address of the handler has a word: the timer's interrupt is served,
  -- with its cause, the interrupted `pc`, the saved mode and enable bit, and `pc` at the handler that
  -- `stvec` gives, and the step executes the word of the handler. The timer is due where the clock is
  -- not behind `lastTime`, at least one period is over, and the 64-bit timer that the whole periods
  -- give has reached `timeCompare`.
  pub step-timer :
      (fuel now' w : ℕ)
      → h.pc % 4 ≡ 0
      → IsDue now h
      → TakesTimer h
      → HasWord fuel (take_interrupt 5 (increment_counters now h)) w
      → ServesTimer h (take_interrupt 5 (increment_counters now h))
        × (step_instruction fuel now' (increment_counters now h)
            ≡ finish now' (exec fuel w (executing (take_interrupt 5 (increment_counters now h)))))
  step-timer fuel now' w aligned due t f =
      let s = increment_counters now h in
      (
        due-ServesTimer due,
        step-word fuel now' s (take_interrupt 5 s) w
            (ap handle_interrupts
                (check_alignment-aligned s (ap (λ p. p % 4) (due-pc due) ∙ aligned))
              ∙ handle_interrupts-increment_counters now h words due t)
            f,
      )
