-- ===== src/Tests/Privileges.antt =====
-- The theorems about modes, CSR instructions and the timer, at the machine of Tests.Demo.
use riscv32_emulator.Prelude.{ℕ, ◌≡◌, refl, false, inr, arith}
use riscv32_emulator.BitField.Defs.{get_field, set_field}
use riscv32_emulator.Outcome.{done, Ends, Any}
use riscv32_emulator.Csr.Address.{sscratch}
use riscv32_emulator.Decoder.Types.{csrrw, sret}
use riscv32_emulator.Decoder.Encode.{Operands, assemble}
use riscv32_emulator.Hart.State.{Hart, instr_illegal}
use riscv32_emulator.Hart.Trap.{take_interrupt, handle_exception}
use riscv32_emulator.Hart.Trap.Timer.{IsDue, TakesTimer}
use riscv32_emulator.Hart.Trap.Return.{IsReturned}
use riscv32_emulator.Hart.Assembled.Timer.{ServesTimer, step-timer}
use riscv32_emulator.Hart.Assembled.Fetch.{HasWord, executing, finish}
use riscv32_emulator.Hart.Translate.{
  translate_address, pte_addr, is_invalid, is_leaf, next_base, decrement, leaf_refused,
  leaf_address,
}
use riscv32_emulator.Memory.Basic
use riscv32_emulator.Memory.Manager
use riscv32_emulator.Memory.Manager.{get_handler}
use riscv32_emulator.Csr.{Csrs}
use riscv32_emulator.Hart.Manual.{with_rd}
use riscv32_emulator.Hart.Manual.Csrs.{IsCsrInstruction, IsCsrWritten}
use riscv32_emulator.Hart.Counters.{increment_counters}
use riscv32_emulator.Hart.Step.{exec, step_instruction}
use riscv32_emulator.Hart.Privilege.Contained.{Contained}
use riscv32_emulator.Hart.Privilege.User.{exec-Contained}
use riscv32_emulator.Hart.Assembled.System.{exec-csr, exec-csr-user, exec-sret}
use riscv32_emulator.Tests.Demo.{machine, csrs, csrs-AreWords}

abbrev user_machine : Hart
user_machine = record machine { supervisor_mode = false; gpr = λ _. 7 }

-- `csrrw x6, sscratch, x1`
abbrev csr_operands : Operands
csr_operands = record { d = 6; s1 = 1; s2 = 0; imm = 0x140; aqrl = 0 }

csrrw-IsCsrInstruction : IsCsrInstruction csrrw
csrrw-IsCsrInstruction = record { is_system = refl; has_immediate = refl }

exec-csr_example :
    (csrs' : Csrs) × (exec 0 (assemble csrrw csr_operands) machine
      ≡ done tt (record (with_rd 6 0 machine) { csr = csrs' }))
    × IsCsrWritten sscratch 0 csrs csrs'
exec-csr_example =
    exec-csr csrrw csr_operands csrrw-IsCsrInstruction (omega arith) sscratch refl 0 machine refl
      (omega arith)

exec-csr-user_example :
    exec 0 (assemble csrrw csr_operands) user_machine
    ≡ done tt (handle_exception instr_illegal (assemble csrrw csr_operands) user_machine)
exec-csr-user_example =
    exec-csr-user csrrw csr_operands csrrw-IsCsrInstruction (omega arith) sscratch refl 0
      user_machine refl refl

abbrev sret_operands : Operands
sret_operands = record { d = 0; s1 = 0; s2 = 0; imm = 0; aqrl = 0 }

exec-sret_example :
    (s : ℕ) × (exec 0 (assemble sret sret_operands) user_machine
      ≡ done tt (record user_machine {
        supervisor_mode = false;
        csr = record csrs { sstatus = s };
        pc = 0;
        should_increment_pc = false;
      }))
    × IsReturned 0x100022 s
exec-sret_example = exec-sret sret_operands 0 user_machine (omega arith) (omega arith)

exec-Contained_example :
    Ends (Contained user_machine) Any (exec 0 (assemble csrrw csr_operands) user_machine)
unfolding get_field
exec-Contained_example =
    exec-Contained 0 (assemble csrrw csr_operands) user_machine refl refl (omega arith)

-- The timer is at 0xffffffff, and two periods go by.
machine-IsDue : IsDue 1250 machine
machine-IsDue = omega arith

machine-TakesTimer : TakesTimer machine
unfolding get_field
machine-TakesTimer = record { open_mode = inr refl; enabled = refl; no_software = refl }

handler-HasWord : HasWord 2 (take_interrupt 5 (increment_counters 1250 machine)) 0x500513
unfolding take_interrupt increment_counters translate_address pte_addr is_invalid is_leaf next_base
    decrement leaf_refused leaf_address get_field set_field Manager.read_word Manager.read_halfword
    Manager.read_byte get_handler Basic.read_byte
handler-HasWord = record { at = 0x3000; address = refl; word = refl }

step-timer_example :
    ServesTimer machine (take_interrupt 5 (increment_counters 1250 machine))
    × (step_instruction 2 1300 (increment_counters 1250 machine)
        ≡ finish 1300
            (exec 2 0x500513 (executing (take_interrupt 5 (increment_counters 1250 machine)))))
step-timer_example =
    step-timer 1250 machine csrs-AreWords 2 1300 0x500513 refl machine-IsDue machine-TakesTimer
      handler-HasWord
