-- ===== src/Hart/Invariant/Step.antt =====
-- `stepInstruction` of src/rv32/hart.cpp keeps the hart well-formed.
use riscv32_emulator.Prelude.{ℕ, IsU32, true, Option, some, none}
use riscv32_emulator.Outcome.{
  throws, handler_page_fault, fail, pure, lift, modify, ◌>>=◌, ◌>>◌, returns, fails, Any,
  bind-Ensures, final, Ends-final,
}
use riscv32_emulator.Decoder.{decode_instruction_type}
use riscv32_emulator.Decoder.Types.{
  InstructionType, load, store, branch, jump, amo, op_imm, op, system, op_ui, op_fence,
}
use riscv32_emulator.Hart.State.{Hart, read_word, execute, instr_page_fault, get}
use riscv32_emulator.Hart.Trap.{handle_interrupts}
use riscv32_emulator.Hart.Translate.{translate_address}
use riscv32_emulator.Hart.LoadStore.{raise}
use riscv32_emulator.Hart.Counters.{increment_counters}
use riscv32_emulator.Hart.Step.{
  check_alignment, fetch_address, exec_type, exec, advance_pc, step_instruction,
}
use riscv32_emulator.Hart.WellFormed.{IsWellFormed}
use riscv32_emulator.Hart.Invariant.Traps.{
  check_alignment-IsWellFormed, handle_interrupts-IsWellFormed, advance_pc-IsWellFormed,
  increment_counters-IsWellFormed,
}
use riscv32_emulator.Hart.Invariant.Memory.{
  Keeps, Gives, pure-Keeps, modify-Keeps, raise-Keeps, lift-Gives, read_word-Gives, exec_load-Keeps,
  exec_store-Keeps,
}
use riscv32_emulator.Hart.Invariant.Atomics.{exec_amo-Keeps}
use riscv32_emulator.Hart.Invariant.Control.{
  exec_branch-Keeps, exec_jump-Keeps, exec_op-Keeps, exec_op_imm-Keeps, exec_op_ui-Keeps,
  increment-Keeps,
}
use riscv32_emulator.Hart.Invariant.System.{exec_system-Keeps}

exec_type-Keeps :
    (fuel : ℕ) (t : InstructionType) (instr : ℕ) → IsU32 instr → Keeps (exec_type fuel t instr)
unfolding exec_type
exec_type-Keeps fuel load instr hi = exec_load-Keeps fuel instr
exec_type-Keeps fuel store instr hi = exec_store-Keeps fuel instr
exec_type-Keeps fuel branch instr hi = exec_branch-Keeps instr
exec_type-Keeps fuel jump instr hi = exec_jump-Keeps instr
exec_type-Keeps fuel amo instr hi = exec_amo-Keeps fuel instr
exec_type-Keeps fuel op_imm instr hi = exec_op_imm-Keeps instr
exec_type-Keeps fuel op instr hi = exec_op-Keeps instr
exec_type-Keeps fuel system instr hi = exec_system-Keeps instr hi
exec_type-Keeps fuel op_ui instr hi = exec_op_ui-Keeps instr
exec_type-Keeps fuel op_fence instr hi = pure-Keeps

pub exec-Keeps : (fuel instr : ℕ) → IsU32 instr → Keeps (exec fuel instr)
unfolding exec
exec-Keeps fuel instr hi =
    bind-Ensures (lift (decode_instruction_type instr)) (λ t. exec_type fuel t instr)
      (lift-Gives {Q = Any} (decode_instruction_type instr) (λ _ _. tt))
      (λ t _. exec_type-Keeps fuel t instr hi)

second_try-Gives :
    (t : Option ℕ)
    → Gives {A = ℕ} Any
        (elim t [ some at ↦ pure at | none ↦ λ h''. fail (throws handler_page_fault) h'' ])
second_try-Gives (some at) h w = returns tt w
second_try-Gives none h w = fails w

first_try-Gives :
    (fuel : ℕ) (h : Hart) (t : Option ℕ)
    → IsWellFormed h
    → Gives {A = ℕ} Any (elim t [
      | some at ↦ pure at
      | none ↦ do
        raise instr_page_fault h.pc
        h' ← get
        t' ← lift (translate_address fuel h'.pc execute h')
        elim t' [ some at ↦ pure at | none ↦ λ h''. fail (throws handler_page_fault) h'' ]
    ])
first_try-Gives fuel h (some at) w = λ h' w'. returns tt w'
first_try-Gives fuel h none w =
    bind-Ensures (raise instr_page_fault h.pc) _ (raise-Keeps instr_page_fault h.pc w.pc_word)
      λ _ _ h' w'.
        bind-Ensures (lift (translate_address fuel h'.pc execute h')) _
          (lift-Gives {Q = Any} (translate_address fuel h'.pc execute h') (λ _ _. tt))
          (λ t' _. second_try-Gives t') h' w'

pub fetch_address-Gives : (fuel : ℕ) → Gives Any (fetch_address fuel)
unfolding fetch_address
fetch_address-Gives fuel h w =
    bind-Ensures (lift (translate_address fuel h.pc execute h)) _
      (lift-Gives {Q = Any} (translate_address fuel h.pc execute h) (λ _ _. tt))
      (λ t _. first_try-Gives fuel h t w) h w

pub step_instruction-Keeps : (fuel now : ℕ) → Keeps (step_instruction fuel now)
unfolding step_instruction
step_instruction-Keeps fuel now =
    bind-Ensures (modify check_alignment) _
      (modify-Keeps check_alignment (λ h w. check_alignment-IsWellFormed w))
      λ _ _.
        bind-Ensures (modify handle_interrupts) _
          (modify-Keeps handle_interrupts (λ h w. handle_interrupts-IsWellFormed w))
          λ _ _. bind-Ensures (fetch_address fuel) _ (fetch_address-Gives fuel) λ at _.
            bind-Ensures (read_word at) _ (read_word-Gives at) λ instr hi.
              bind-Ensures (modify (λ h. record h { should_increment_pc = true })) _
                (increment-Keeps true)
                λ _ _. bind-Ensures (exec fuel instr) _ (exec-Keeps fuel instr hi) λ _ _.
                  bind-Ensures (modify advance_pc) _
                    (modify-Keeps advance_pc (λ h w. advance_pc-IsWellFormed w))
                    λ _ _.
                      modify-Keeps (increment_counters now)
                        (λ h w. increment_counters-IsWellFormed now w)

-- A step of a well-formed hart ends in a well-formed hart, also where it throws an exception:
-- register 0 reads as zero, `pc`, every register and every CSR are below 2 ^ 32, and every byte
-- that a read of memory returns is below 2 ^ 8.
pub step_instruction-IsWellFormed :
    (fuel now : ℕ) (h : Hart) → IsWellFormed h → IsWellFormed (final (step_instruction fuel now h))
step_instruction-IsWellFormed fuel now h w = Ends-final (step_instruction-Keeps fuel now h w)
