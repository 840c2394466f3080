-- ===== src/BitField/Defs.antt =====
-- src/bit_field.hpp: reading and writing the bits BEGIN to END of a word.
use riscv32_emulator.Prelude.{ℕ, ◌+◌, ◌-◌, ◌%◌, ◌^◌, bit_and, bit_or, ◌<<<◌, ◌>>>◌, complement}

-- `SIZE`
abbrev pub size : ℕ → ℕ → ℕ
size begin end = end - begin + 1

-- `operator T() const`
unfoldable pub get_field : ℕ → ℕ → ℕ → ℕ
get_field begin end bits = bit_and (bits >>> begin) (1 <<< size begin end - 1)

-- `T mask`, at `w` bits
abbrev pub mask : ℕ → ℕ → ℕ → ℕ
mask w begin end = ((1 <<< size begin end - 1) <<< begin) % 2 ^ w

-- `operator=(T other)`
unfoldable pub set_field : ℕ → ℕ → ℕ → ℕ → ℕ → ℕ
set_field w begin end bits other =
    bit_or (bit_and bits (complement w (mask w begin end)))
      (bit_and (other <<< begin % 2 ^ w) (mask w begin end))
