-- ===== src/Prelude/Bits/Step.antt =====
-- The native operations mean a recursion on binary digits with fuel; the fuel is dropped here.
use Prim.Native.Nat.{
  ℕ, zero, suc, ◌+◌, ◌*◌, ◌/◌, ◌%◌, ◌≤◌, min, max, digits, bitwise, differ, bit_and, bit_or,
  bit_xor, bit_and-bitwise, bit_or-bitwise, bit_xor-bitwise,
}
use mathlib.Core.Path.{◌≡◌, refl}
use native.Mathlib.Nat.{le_refl}
use native.Mathlib.Omega.{arith}

module _ (first : ℕ → ℕ) (combine : ℕ → ℕ → ℕ) where
  -- Two amounts of fuel, each no less than the number, give the same digits.
  digits-enough :
      (x y fuel more : ℕ)
      → x ≤ more
      → x ≤ fuel
      → digits first combine fuel x y ≡ digits first combine more x y
  digits-enough zero y (suc fuel) (suc more) hm hf = refl
  digits-enough zero y (suc fuel) zero hm hf = refl
  digits-enough zero y zero (suc more) hm hf = refl
  digits-enough zero y zero zero hm hf = refl
  digits-enough (suc x) y (suc fuel) (suc more) hm hf =
      let halved = digits-enough (suc x / 2) (y / 2) fuel more (omega arith) (omega arith) in
      rw halved
  digits-enough (suc x) y zero more hm hf = absurd (omega arith)
  digits-enough (suc x) y (suc fuel) zero hm hf = absurd (omega arith)

  lowest_digit :
      (x y : ℕ)
      → bitwise first combine (suc x) y
        ≡ combine (suc x % 2) (y % 2) + 2 * bitwise first combine (suc x / 2) (y / 2)
  lowest_digit x y =
      omega (arith, digits-enough (suc x / 2) (y / 2) x (suc x / 2) (le_refl _) (omega arith))

-- A number by its lowest digit.
halve : (y : ℕ) → y ≡ y % 2 + 2 * (y / 2)
halve y = omega arith

pub bit_xor_step : (x y : ℕ) → bit_xor x y ≡ differ (x % 2) (y % 2) + 2 * bit_xor (x / 2) (y / 2)
bit_xor_step (suc x) y = simp bit_xor-bitwise (lowest_digit (λ d. d) differ x y)
bit_xor_step zero y = simp bit_xor-bitwise (halve y)

pub bit_or_step : (x y : ℕ) → bit_or x y ≡ max (x % 2) (y % 2) + 2 * bit_or (x / 2) (y / 2)
bit_or_step (suc x) y = simp bit_or-bitwise (lowest_digit (λ d. d) max x y)
bit_or_step zero y = simp bit_or-bitwise (omega arith)

pub bit_and_step : (x y : ℕ) → bit_and x y ≡ min (x % 2) (y % 2) + 2 * bit_and (x / 2) (y / 2)
bit_and_step (suc x) y = simp bit_and-bitwise (lowest_digit (λ _. 0) min x y)
bit_and_step zero y = simp bit_and-bitwise (omega arith)
