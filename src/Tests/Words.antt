-- ===== src/Tests/Words.antt =====
-- The theorems about words, at numbers.
use riscv32_emulator.Prelude.{◌+◌, ◌*◌, ◌≡◌, arith, u32}
use riscv32_emulator.BitField.{set_field, set_field_lem}
use riscv32_emulator.Hart.Alu.{divide, remainder}
use riscv32_emulator.Hart.Alu.Divide.{divide-remainder}
use riscv32_emulator.Hart.Alu.Multiply.{IsProduct, op_value-IsProduct}
use riscv32_emulator.Hart.Alu.Signed.{IsSignedProduct, op_value-IsSignedProduct}
use riscv32_emulator.Hart.Counters.{count_instruction, advance_timer}
use riscv32_emulator.Hart.Counters.Clock.{
  IsCounted, count_instruction-IsCounted, IsAdvanced, advance_timer-IsAdvanced,
}
use riscv32_emulator.Prelude.{refl, false}
use riscv32_emulator.Hart.State.{read}
use riscv32_emulator.Hart.Translate.{leaf_refused}
use riscv32_emulator.Hart.Translate.Leaf.{leaf_refused-eq}
use riscv32_emulator.Tests.Demo.{machine, csrs, csrs-AreWords}

-- -7 / 2
divide-remainder_example : u32 (divide 0xfffffff9 2 * 2 + remainder 0xfffffff9 2) ≡ 0xfffffff9
divide-remainder_example = divide-remainder 0xfffffff9 2 (omega arith) (omega arith)

op_value-IsProduct_example : IsProduct 0xffffffff 0xfffffffe
op_value-IsProduct_example = op_value-IsProduct 0xffffffff 0xfffffffe (omega arith) (omega arith)

-- -2 * -3 and -2 * 0xfffffffd
op_value-IsSignedProduct_example : IsSignedProduct 0xfffffffe 0xfffffffd
op_value-IsSignedProduct_example =
    op_value-IsSignedProduct 0xfffffffe 0xfffffffd (omega arith) (omega arith)

count_instruction-IsCounted_example : IsCounted csrs (count_instruction csrs)
count_instruction-IsCounted_example = count_instruction-IsCounted csrs csrs-AreWords

advance_timer-IsAdvanced_example : IsAdvanced 1250 machine (advance_timer 1250 machine)
advance_timer-IsAdvanced_example =
    advance_timer-IsAdvanced 1250 machine csrs-AreWords (omega arith) (omega arith) (omega arith)

set_field_lem_example : set_field 32 8 8 0x22 3 ≡ 0x122
set_field_lem_example = set_field_lem 32 8 8 0x22 3 (omega arith) (omega arith) (omega arith)

-- The leaf of Tests.Demo.
leaf_refused-eq_example : leaf_refused machine read 0 0xccf ≡ false
leaf_refused-eq_example = leaf_refused-eq machine read 0 0xccf refl
