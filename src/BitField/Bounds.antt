-- ===== src/BitField/Bounds.antt =====
-- The widths of what src/bit_field.hpp reads and writes.
use riscv32_emulator.Prelude.{ℕ, ◌+◌, ◌-◌, ◌^◌, ◌%◌, ◌/◌, ◌<◌, complement, ◌<<<◌}
use riscv32_emulator.Prelude.Bits.{bit_and-lt, bit_or-lt}
use riscv32_emulator.BitField.Defs.{mask, get_field, set_field}
use riscv32_emulator.BitField.Laws.{get_field_lem, mod-lt_two_pow}

pub get_field-lt : (begin end x : ℕ) → get_field begin end x < 2 ^ (end - begin + 1)
get_field-lt begin end x = rw get_field_lem (mod-lt_two_pow (end - begin + 1) (x / 2 ^ begin))

-- An assignment to a bit field keeps the width of the word.
pub set_field-lt : (w begin end x v : ℕ) → x < 2 ^ w → set_field w begin end x v < 2 ^ w
unfolding set_field
set_field-lt w begin end x v h =
    bit_or-lt w _ _ (bit_and-lt w x (complement w (mask w begin end)) h)
      (bit_and-lt w (v <<< begin % 2 ^ w) (mask w begin end) (mod-lt_two_pow w (v <<< begin)))
