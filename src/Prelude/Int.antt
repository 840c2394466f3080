-- ===== src/Prelude/Int.antt =====
-- Signed integers over the native numbers; an `int32_t` is a bit pattern and the integer it means.
use Prim.Native.Nat.{ℕ, zero, suc, ◌-◌, ◌*◌, ◌/◌, ◌%◌, ◌^◌}
use mathlib.Core.Bool.{Bool, true, false}
use riscv32_emulator.Prelude.Tests.{ltb, if◌then◌else◌}

-- `negsuc n` is -(n + 1).
pub data ℤ : Type 0 where
  pos : ℕ → ℤ
  negsuc : ℕ → ℤ

abbrev pub neg : ℕ → ℤ
neg zero = pos 0
neg (suc n) = negsuc n

abbrev pub ltb_ℤ : ℤ → ℤ → Bool
ltb_ℤ (pos a) (pos b) = ltb a b
ltb_ℤ (pos a) (negsuc b) = false
ltb_ℤ (negsuc a) (pos b) = true
ltb_ℤ (negsuc a) (negsuc b) = ltb b a

-- `static_cast<int32_t>` of a pattern, and the conversion of an integer back to `uint32_t`.
abbrev pub to_signed : ℕ → ℤ
to_signed x = if ltb x (2 ^ 31) then pos x else negsuc (2 ^ 32 - 1 - x)

abbrev pub of_signed : ℤ → ℕ
of_signed (pos n) = n % 2 ^ 32
of_signed (negsuc n) = 2 ^ 32 - 1 - n % 2 ^ 32

-- `>>` of a signed integer (towards minus infinity), `/` and `%` (towards zero).
abbrev pub shr_ℤ : ℤ → ℕ → ℤ
shr_ℤ (pos n) k = pos (n / 2 ^ k)
shr_ℤ (negsuc n) k = negsuc (n / 2 ^ k)

abbrev pub div_ℤ : ℤ → ℤ → ℤ
div_ℤ (pos a) (pos b) = pos (a / b)
div_ℤ (pos a) (negsuc b) = neg (a / suc b)
div_ℤ (negsuc a) (pos b) = neg (suc a / b)
div_ℤ (negsuc a) (negsuc b) = pos (suc a / suc b)

abbrev pub mod_ℤ : ℤ → ℤ → ℤ
mod_ℤ (pos a) (pos b) = pos (a % b)
mod_ℤ (pos a) (negsuc b) = pos (a % suc b)
mod_ℤ (negsuc a) (pos b) = neg (suc a % b)
mod_ℤ (negsuc a) (negsuc b) = neg (suc a % suc b)

abbrev pub mul_ℤ : ℤ → ℤ → ℤ
mul_ℤ (pos a) (pos b) = pos (a * b)
mul_ℤ (pos a) (negsuc b) = neg (a * suc b)
mul_ℤ (negsuc a) (pos b) = neg (suc a * b)
mul_ℤ (negsuc a) (negsuc b) = pos (suc a * suc b)

-- The conversion to `uint64_t`.
abbrev pub of_signed_64 : ℤ → ℕ
of_signed_64 (pos n) = n % 2 ^ 64
of_signed_64 (negsuc n) = 2 ^ 64 - 1 - n % 2 ^ 64
