-- ===== src/Instruction/SignExtend.antt =====
-- What the macro SIGN_EXTEND of src/rv32/instruction.hpp computes.
use native.Mathlib.Nat.{
  one-le-pow, mod-eq_of_lt, div-eq_of_lt, div-eq_of_lt-le, pow-suc, sub-zero, mod_self, zero-mul,
  zero-mod, mul-add-mod_self_right,
}
use native.Mathlib.Numerals.{sub-one}
use riscv32_emulator.Prelude.{
  ℕ, zero, suc, ◌+◌, ◌-◌, ◌*◌, ◌/◌, ◌%◌, ◌^◌, ◌≤◌, ◌<◌, ◌≡◌, ap, ◌∙◌, bit_or, arith,
}
use riscv32_emulator.Prelude.Bits.{zero-bit_or, bit_or_fields}
use riscv32_emulator.Prelude.Bits.Power.{pow-add}
use riscv32_emulator.Instruction.{sign_extend}

-- SIGN_EXTEND of a `b`-bit number with a clear sign bit is the number.
pub sign_extend_nonneg : (w n b : ℕ) → n < 2 ^ (b - 1) → sign_extend w n b ≡ n
unfolding sign_extend
sign_extend_nonneg w n b h = rw (div-eq_of_lt h) (ap (λ t. bit_or t n) vanishes ∙ zero-bit_or n)
  where
    vanishes : (2 ^ w - 0) % 2 ^ w * 2 ^ b % 2 ^ w ≡ 0
    vanishes = rw (sub-zero, mod_self, zero-mul) (zero-mod (2 ^ w))

shifted_ones : (c b : ℕ) → 0 < c → 0 < b → (c * b - 1) * b % (c * b) ≡ (c - 1) * b
shifted_ones zero b hc hb = absurd (omega arith)
shifted_ones (suc c) zero hc hb = absurd (omega arith)
shifted_ones (suc c) (suc b) hc hb = rw regroup (
    mul-add-mod_self_right b (suc c * suc b) ((suc c - 1) * suc b)
    ∙ mod-eq_of_lt {m = suc c * suc b} below)
  where
    less : suc c * suc b - 1 ≡ c * b + c + b
    less = omega arith

    regroup : (suc c * suc b - 1) * suc b ≡ b * (suc c * suc b) + (suc c - 1) * suc b
    regroup = ap (λ (t : ℕ). t * suc b) less ∙ rw sub-one (omega arith)

    below : (suc c - 1) * suc b < suc c * suc b
    below = rw sub-one (grind arith)

pred-mul : (q p n : ℕ) → 0 < q → (q - 1) * p + n ≡ n + (q * p - p)
pred-mul zero p n h = absurd (omega arith)
pred-mul (suc q) p n h = rw sub-one (omega arith)

-- SIGN_EXTEND to `w` bits of a `b`-bit number with its sign bit set, for `b` from 1 to `w`, adds
-- 2 ^ w - 2 ^ b: all bits above become ones.
pub sign_extend_neg :
    (w n b : ℕ)
    → 0 < b
    → b ≤ w
    → 2 ^ (b - 1) ≤ n
    → n < 2 ^ b
    → sign_extend w n b ≡ n + (2 ^ w - 2 ^ b)
unfolding sign_extend
sign_extend_neg w n b hb hw lo hi =
    rw sign_bit (ap (λ t. bit_or t n) ones ∙ bit_or_fields b (2 ^ (w - b) - 1) n hi ∙ top)
  where
    wide : 2 ^ w ≡ 2 ^ (w - b) * 2 ^ b
    wide = rw (← pow-add) (ap (λ t. 2 ^ t) (omega arith))

    half : 2 ^ b ≡ (1 + 1) * 2 ^ (b - 1)
    half = ap (λ t. 2 ^ t) at_one ∙ pow-suc 2 (b - 1) ∙ omega arith
      where
        at_one : b ≡ suc (b - 1)
        at_one = omega arith

    all-ones-lt : 2 ^ w - 1 < 2 ^ w
    all-ones-lt = omega (arith, one-le-pow w 2)

    sign_bit : n / 2 ^ (b - 1) ≡ 1
    sign_bit = div-eq_of_lt-le {k = 1} (2 ^ (b - 1)) (omega arith) (rw half at hi)

    ones : (2 ^ w - 1) % 2 ^ w * 2 ^ b % 2 ^ w ≡ (2 ^ (w - b) - 1) * 2 ^ b
    ones =
        rw (mod-eq_of_lt all-ones-lt, wide)
          (shifted_ones (2 ^ (w - b)) (2 ^ b) (one-le-pow (w - b) 2 (omega arith))
            (one-le-pow b 2 (omega arith)))

    top : (2 ^ (w - b) - 1) * 2 ^ b + n ≡ n + (2 ^ w - 2 ^ b)
    top = rw wide (pred-mul (2 ^ (w - b)) (2 ^ b) n (one-le-pow (w - b) 2 (omega arith)))
