-- ===== src/Tests/Faults.antt =====
-- The theorem about a page fault of a fetch, at the machine of Tests.Demo: nothing is mapped at 0x9000,
-- and the handler at 0x5000 begins with `addi a0, zero, 5`.
use riscv32_emulator.Prelude.{◌≡◌, refl}
use riscv32_emulator.BitField.Defs.{get_field, set_field}
use riscv32_emulator.Memory.Basic
use riscv32_emulator.Memory.Manager
use riscv32_emulator.Memory.Manager.{get_handler}
use riscv32_emulator.Hart.State.{Hart, instr_page_fault}
use riscv32_emulator.Hart.Trap.{handle_exception, pending_interrupt, push_status}
use riscv32_emulator.Hart.Translate.{
  pte_addr, is_invalid, is_leaf, next_base, decrement, leaf_refused, leaf_address, check_result,
  root_base, walk, translate_address,
}
use riscv32_emulator.Hart.Step.{exec, step_instruction}
use riscv32_emulator.Hart.Assembled.Fetch.{BeginsAtPc, HasWord, executing, finish, step-fault}
use riscv32_emulator.Tests.Demo.{machine}

abbrev astray : Hart
astray = record machine { pc = 0x9000 }

astray-BeginsAtPc : BeginsAtPc astray
unfolding pending_interrupt get_field
astray-BeginsAtPc = record { aligned_pc = refl; no_interrupt = refl }

handler-HasWord : HasWord 2 (handle_exception instr_page_fault 0x9000 astray) 0x500513
unfolding translate_address get_field Manager.read_word Manager.read_halfword Manager.read_byte
    get_handler pte_addr Basic.read_byte is_invalid is_leaf next_base decrement leaf_refused
    leaf_address set_field walk check_result root_base handle_exception push_status
handler-HasWord = record { at = 0x3000; address = refl; word = refl }

step-fault_example :
    step_instruction 2 1050 astray
    ≡ finish 1050 (exec 2 0x500513 (executing (handle_exception instr_page_fault 0x9000 astray)))
unfolding translate_address get_field Manager.read_word Manager.read_halfword Manager.read_byte
    get_handler pte_addr Basic.read_byte is_invalid is_leaf next_base decrement leaf_refused
    leaf_address set_field walk check_result root_base
step-fault_example = step-fault 2 1050 astray astray-BeginsAtPc 0x500513 refl handler-HasWord
