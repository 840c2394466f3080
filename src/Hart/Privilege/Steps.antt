-- ===== src/Hart/Privilege/Steps.antt =====
-- `stepInstruction` of src/rv32/hart.cpp and the mode of the hart.
use riscv32_emulator.Prelude.{
  ℕ, ◌≡◌, refl, ap, ◌∙◌, true, false, not, ◌&&◌, ◌||◌, Bool-cases, inl, inr, if_cases, IsU32, ◌==◌,
  u32, ◌>>>◌, leb, Option, some, none, bit_and,
}
use riscv32_emulator.Outcome.{
  Result, ok, err, Outcome, fail, M, lift, modify, pure, ◌>>=◌, ◌>>◌, Ends, returns, fails, Any,
  Ensures, bind-Ensures, both-Ends, throws, handler_page_fault,
}
use riscv32_emulator.BitField.{get_field}
use riscv32_emulator.Csr.{Csrs, sstatus_spp, sstatus_sie}
use riscv32_emulator.Hart.State.{Hart, instr_misaligned, instr_page_fault, execute, get, read_word}
use riscv32_emulator.Hart.Trap.{
  handle_exception, handle_interrupts, take_interrupt, pending_interrupt,
}
use riscv32_emulator.Hart.Translate.{translate_address}
use riscv32_emulator.Hart.LoadStore.{raise}
use riscv32_emulator.Hart.Counters.{
  advance_timer, count_instruction, increment_counters, elapsed, timer_value,
}
use riscv32_emulator.Hart.Step.{check_alignment, fetch_address, exec, advance_pc, step_instruction}
use riscv32_emulator.Hart.WellFormed.{IsWellFormed}
use riscv32_emulator.Hart.Invariant.Traps.{
  check_alignment-IsWellFormed, handle_interrupts-IsWellFormed, advance_pc-IsWellFormed,
  increment_counters-IsWellFormed,
}
use riscv32_emulator.Hart.Invariant.Memory.{Gives, modify-Keeps, read_word-Gives}
use riscv32_emulator.Hart.Invariant.Control.{increment-Keeps}
use riscv32_emulator.Hart.Invariant.Step.{exec-Keeps, fetch_address-Gives}
use riscv32_emulator.Hart.Privilege.Contained.{Contained, stays, traps}
use riscv32_emulator.Hart.Privilege.User.{exec-Contained}
use riscv32_emulator.Hart.Privilege.Confined.{
  IsConfined, in_supervisor, spp_clear, handle_exception-IsConfined, exec_supervisor-IsConfined,
}

Contained-IsConfined :
    {h : Hart} {o : Outcome Hart (Unit {0})} → Ends (Contained h) Any o → Ends IsConfined Any o
Contained-IsConfined (returns a (stays s)) = returns a (spp_clear s.spp)
Contained-IsConfined (returns a (traps t)) = returns a (in_supervisor t.mode)
Contained-IsConfined (fails (stays s)) = fails (spp_clear s.spp)
Contained-IsConfined (fails (traps t)) = fails (in_supervisor t.mode)

exec-IsConfined :
    (fuel instr : ℕ) (h : Hart)
    → IsU32 h.csr.sstatus
    → IsConfined h
    → Ends IsConfined Any (exec fuel instr h)
exec-IsConfined fuel instr h w k = elim (Bool-cases h.supervisor_mode) [
  | inl supervisor ↦ exec_supervisor-IsConfined h supervisor fuel instr w
  | inr user ↦ Contained-IsConfined (exec-Contained fuel instr h user (clear user k) w)
]
  where
    clear : h.supervisor_mode ≡ false → IsConfined h → sstatus_spp h.csr ≡ 0
    clear user (in_supervisor e) = absurd (both e user)
      where
        both : h.supervisor_mode ≡ true → ¬ h.supervisor_mode ≡ false
        both e u = cc
    clear user (spp_clear e) = e

-- What leaves the mode and `sstatus` alone.
pub same-IsConfined :
    {h : Hart} (h' : Hart)
    → h'.supervisor_mode ≡ h.supervisor_mode
    → h'.csr.sstatus ≡ h.csr.sstatus
    → IsConfined h
    → IsConfined h'
same-IsConfined h' m e (in_supervisor s) = in_supervisor (m ∙ s)
same-IsConfined h' m e (spp_clear s) = spp_clear (ap sstatus_spp_of e ∙ s)
  where
    sstatus_spp_of : ℕ → ℕ
    sstatus_spp_of t = get_field 8 8 t

check_alignment-IsConfined : (h : Hart) → IsConfined h → IsConfined (check_alignment h)
unfolding check_alignment
check_alignment-IsConfined h k =
    if_cases IsConfined (not (bit_and h.pc 0b11 == 0))
      (handle_exception-IsConfined instr_misaligned h.pc h) k

taken-IsConfined :
    (c : Option ℕ) (h : Hart)
    → IsConfined h
    → IsConfined (elim c [ some cause ↦ take_interrupt cause h | none ↦ h ])
unfolding take_interrupt
taken-IsConfined (some cause) h k = in_supervisor refl
taken-IsConfined none h k = k

handle_interrupts-IsConfined : (h : Hart) → IsConfined h → IsConfined (handle_interrupts h)
unfolding handle_interrupts
handle_interrupts-IsConfined h k =
    if_cases IsConfined (not h.supervisor_mode || (h.supervisor_mode && sstatus_sie h.csr == 1))
      (taken-IsConfined (pending_interrupt h.csr) h k) k

advance_pc-IsConfined : (h : Hart) → IsConfined h → IsConfined (advance_pc h)
unfolding advance_pc
advance_pc-IsConfined h k =
    if_cases IsConfined h.should_increment_pc (same-IsConfined _ refl refl k) k

increment_counters-IsConfined :
    (now : ℕ) (h : Hart) → IsConfined h → IsConfined (increment_counters now h)
unfolding increment_counters advance_timer count_instruction
increment_counters-IsConfined now h k =
    if_cases (λ (h' : Hart). IsConfined (record h' { csr = count_instruction h'.csr }))
      (leb h.timebase_period (elapsed now h))
      (if_cases
        (λ (c : Csrs). IsConfined (record h {
          csr = count_instruction (record c {
            time = bit_and (timer_value now h) 0xffffffff;
            timeh = u32 (timer_value now h >>> 32);
          });
          last_time = now;
        }))
        (leb h.time_compare (timer_value now h)) (same-IsConfined _ refl refl k)
        (same-IsConfined _ refl refl k))
      (same-IsConfined _ refl refl k)

lift-IsConfined :
    {A : Type 0} (r : Result A) (h : Hart) → IsConfined h → Ends {A = A} IsConfined Any (lift r h)
lift-IsConfined (ok a) h k = returns tt k
lift-IsConfined (err e) h k = fails k

second_try-IsConfined :
    (t : Option ℕ)
    → Ensures {A = ℕ} IsConfined Any
        (elim t [ some at ↦ pure at | none ↦ λ h''. fail (throws handler_page_fault) h'' ])
second_try-IsConfined (some at) h k = returns tt k
second_try-IsConfined none h k = fails k

first_try-IsConfined :
    (fuel : ℕ) (h : Hart) (t : Option ℕ)
    → Ensures {A = ℕ} IsConfined Any (elim t [
      | some at ↦ pure at
      | none ↦ do
        raise instr_page_fault h.pc
        h' ← get
        t' ← lift (translate_address fuel h'.pc execute h')
        elim t' [ some at ↦ pure at | none ↦ λ h''. fail (throws handler_page_fault) h'' ]
    ])
first_try-IsConfined fuel h (some at) s k = returns tt k
first_try-IsConfined fuel h none s k =
    let s' = handle_exception instr_page_fault h.pc s in
    bind-Ensures (lift (translate_address fuel s'.pc execute s')) _
      (lift-IsConfined (translate_address fuel s'.pc execute s')) (λ t' _. second_try-IsConfined t')
      s' (handle_exception-IsConfined instr_page_fault h.pc s)

fetch_address-IsConfined : (fuel : ℕ) → Ensures IsConfined Any (fetch_address fuel)
unfolding fetch_address
fetch_address-IsConfined fuel h k =
    bind-Ensures (lift (translate_address fuel h.pc execute h)) _
      (lift-IsConfined (translate_address fuel h.pc execute h))
      (λ t _. first_try-IsConfined fuel h t) h k

-- What a step starts from, and keeps.
abbrev pub IsSafe : Hart → Type 0
IsSafe h = IsWellFormed h × IsConfined h

both :
    {A : Type 0} {Q : A → Type 0} (m : M Hart A)
    → Gives Q m
    → ((h : Hart) → IsWellFormed h → IsConfined h → Ends IsConfined Any (m h))
    → Ensures IsSafe Q m
both m g k h (w, c) = both-Ends (g h w) (k h w c)

pub step_instruction-Safe : (fuel now : ℕ) → Ensures IsSafe Any (step_instruction fuel now)
unfolding step_instruction
step_instruction-Safe fuel now =
    bind-Ensures (modify check_alignment) _
      (both _ (modify-Keeps check_alignment (λ h w. check_alignment-IsWellFormed w))
        (λ h w k. returns tt (check_alignment-IsConfined h k)))
      λ _ _.
        bind-Ensures (modify handle_interrupts) _
          (both _ (modify-Keeps handle_interrupts (λ h w. handle_interrupts-IsWellFormed w))
            (λ h w k. returns tt (handle_interrupts-IsConfined h k)))
          λ _ _.
            bind-Ensures (fetch_address fuel) _
              (both _ (fetch_address-Gives fuel) (λ h w k. fetch_address-IsConfined fuel h k))
              λ at _.
                bind-Ensures (read_word at) _
                  (both _ (read_word-Gives at) (λ h w k. lift-IsConfined _ h k))
                  λ instr hi.
                    bind-Ensures (modify (λ h. record h { should_increment_pc = true })) _
                      (both _ (increment-Keeps true)
                        (λ h w k. returns tt (same-IsConfined _ refl refl k)))
                      λ _ _.
                        bind-Ensures (exec fuel instr) _
                          (both _ (exec-Keeps fuel instr hi)
                            (λ h w k. exec-IsConfined fuel instr h w.csrs.sstatus_word k))
                          λ _ _.
                            bind-Ensures (modify advance_pc) _
                              (both _ (modify-Keeps advance_pc (λ h w. advance_pc-IsWellFormed w))
                                (λ h w k. returns tt (advance_pc-IsConfined h k)))
                              λ _ _.
                                both _
                                  (modify-Keeps (increment_counters now)
                                    (λ h w. increment_counters-IsWellFormed now w))
                                  (λ h w k. returns tt (increment_counters-IsConfined now h k))
