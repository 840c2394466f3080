-- ===== src/Tests/Harts.antt =====
-- The theorems about the hart, at the machine of Tests.Demo.
use riscv32_emulator.Prelude.{ℕ, ◌≡◌, ◌∙◌, ap, refl, sym, false, [], ◌∷◌, arith, some}
use riscv32_emulator.BitField.Defs.{get_field}
use riscv32_emulator.Outcome.{
  Result, ok, err, fail, final, throws, out_of_fuel, no_registered_handler,
}
use riscv32_emulator.Console.{print, message}
use riscv32_emulator.Memory.Basic
use riscv32_emulator.Memory.Basic.{basic_memory_handler}
use riscv32_emulator.Memory.Manager
use riscv32_emulator.Memory.Manager.{get_handler}
use riscv32_emulator.Hart.State.{Hart, read, load_page_fault}
use riscv32_emulator.Hart.WellFormed.{IsWellFormed}
use riscv32_emulator.Hart.Step.{check_alignment, fetch_address, step_instruction}
use riscv32_emulator.Hart.Trap.{
  handle_interrupts, pending_interrupt, handle_exception, take_interrupt, sret,
}
use riscv32_emulator.Hart.Trap.Return.{IsRestored, sret-handle_exception, sret-take_interrupt}
use riscv32_emulator.Hart.Translate.{walk, pte_addr, next_base, translate_address}
use riscv32_emulator.Hart.Translate.Sv32.{first_entry, second_entry}
use riscv32_emulator.Hart.Translate.Correct.{walk-cycle}
use riscv32_emulator.Hart.Translate.Whole.{root, HasTables, translate_address-lookup}
use riscv32_emulator.Hart.Invariant.Step.{step_instruction-IsWellFormed}
use riscv32_emulator.Main.{stopped, run}
use riscv32_emulator.Main.Loop.{run-throws}
use riscv32_emulator.Tests.Demo.{machine, csrs, quiet, machine-IsWellFormed}

step_instruction-IsWellFormed_example : IsWellFormed (final (step_instruction 2 2000 machine))
step_instruction-IsWellFormed_example =
    step_instruction-IsWellFormed 2 2000 machine machine-IsWellFormed

sret-handle_exception_example :
    IsRestored machine (sret (handle_exception load_page_fault 0x123 machine))
sret-handle_exception_example = sret-handle_exception load_page_fault 0x123 machine (omega arith)

sret-take_interrupt_example : IsRestored machine (sret (take_interrupt 5 machine))
sret-take_interrupt_example = sret-take_interrupt 5 machine (omega arith)

value_of : Result ℕ → ℕ
value_of (ok a) = a
value_of (err e) = 0

-- The entries that the walk for 0x5abc reads.
first_read : first_entry machine (root machine) 0x5abc ≡ ok 0x801
unfolding Manager.read_word Manager.read_halfword Manager.read_byte get_handler Basic.read_byte
first_read = refl

second_read : second_entry machine 0x801 0x5abc ≡ ok 0xccf
unfolding Manager.read_word Manager.read_halfword Manager.read_byte get_handler Basic.read_byte
second_read = refl

first_eq : (pte : ℕ) → first_entry machine (root machine) 0x5abc ≡ ok pte → pte ≡ 0x801
unfolding value_of
first_eq pte e = ap value_of (sym e ∙ first_read)

second_eq :
    (pte pte' : ℕ)
    → first_entry machine (root machine) 0x5abc ≡ ok pte
    → second_entry machine pte 0x5abc ≡ ok pte'
    → pte' ≡ 0xccf
unfolding value_of
second_eq pte pte' e e' =
    ap value_of (sym e' ∙ ap (λ t. second_entry machine t 0x5abc) (first_eq pte e) ∙ second_read)

machine-HasTables : HasTables machine 0x5abc
machine-HasTables = record {
  low_root = omega arith;
  low_table = λ pte e p. omega (arith, first_eq pte e);
  two_levels = λ pte pte' e e' p. rw (second_eq pte pte' e e') refl;
}

translate_address-lookup_example : translate_address 2 0x5abc read machine ≡ ok (some 0x3abc)
unfolding Manager.read_word Manager.read_halfword Manager.read_byte get_handler Basic.read_byte
translate_address-lookup_example =
    translate_address-lookup 0 machine read 0x5abc (omega arith) machine-HasTables

walk-cycle_example : walk 100 machine read 0 1 0 ≡ err out_of_fuel
unfolding Manager.read_word Manager.read_halfword Manager.read_byte get_handler Basic.read_byte
    pte_addr next_base get_field
walk-cycle_example = walk-cycle 100 machine read 0 1 0 1 refl refl refl refl

-- Without translation, at an address that no memory covers.
abbrev lost : Hart
lost = record machine { csr = record csrs { satp = 0 }; pc = 0x9000 }

lost_throws : step_instruction 2 2000 lost ≡ fail (throws no_registered_handler) lost
unfolding step_instruction check_alignment handle_interrupts pending_interrupt fetch_address
    translate_address get_field Manager.read_word Manager.read_halfword Manager.read_byte
    get_handler
lost_throws = refl

run-throws_example :
    run 2 (2000 ∷ 3000 ∷ []) lost
    ≡ stopped (record lost {
      world = record (print (message (throws no_registered_handler)) quiet) { is_running = false };
    })
run-throws_example = run-throws 2 2000 (3000 ∷ []) lost lost no_registered_handler refl lost_throws
