-- ===== src/Hart/Alu/Multiply.antt =====
-- The multiplications of the case OP of src/rv32/hart.cpp.
use riscv32_emulator.Prelude.{
  ℕ, ◌+◌, ◌*◌, ◌/◌, ◌%◌, ◌^◌, ◌<◌, ◌≡◌, ap, bit_and, IsU32, u32, arith, some,
}
use riscv32_emulator.Prelude.Bits.{bit_and_mask}
use riscv32_emulator.Decoder.Types.{mul, mulhu}
use riscv32_emulator.Hart.Alu.{high_word, op_value}

product-lt : (a b : ℕ) → IsU32 a → IsU32 b → a * b < 2 ^ 64
product-lt a b ha hb = grind arith

high_word-lem : (n : ℕ) → n < 2 ^ 64 → high_word n ≡ n / 2 ^ 32
high_word-lem n h = omega (arith, bit_and_mask 32 (n % 2 ^ 64 / 2 ^ 32))

low_word-lem : (n : ℕ) → bit_and (u32 n) 0xffffffff ≡ n % 2 ^ 32
low_word-lem n = omega (arith, bit_and_mask 32 (n % 2 ^ 32))

-- The two words of a product.
pub record IsProduct (a b : ℕ) : Type 0 where
  pub high : ℕ
  pub low : ℕ
  pub high_value : op_value mulhu a b ≡ some high
  pub low_value : op_value mul a b ≡ some low
  pub product : high * 2 ^ 32 + low ≡ a * b

-- For two words the results of MULHU and MUL are the high and the low word of the 64-bit product.
pub op_value-IsProduct : (a b : ℕ) → IsU32 a → IsU32 b → IsProduct a b
unfolding op_value
op_value-IsProduct a b ha hb = record {
  high = a * b / 2 ^ 32;
  low = a * b % 2 ^ 32;
  high_value = ap some (high_word-lem (a * b) (product-lt a b ha hb));
  low_value = ap some (low_word-lem (a * b));
  product = omega arith;
}
