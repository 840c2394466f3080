-- ===== src/Hart/Alu/Divide.antt =====
-- DIV and REM of src/rv32/hart.cpp.
use riscv32_emulator.Prelude.{
  ℕ, zero, suc, ◌+◌, ◌-◌, ◌*◌, ◌/◌, ◌%◌, ◌^◌, ◌≤◌, ◌≡◌, ◌&&◌, true, false, ◌==◌, ltb, IsU32, u32,
  arith, Bool-cases, inl, inr, refl, ◌∙◌, ap,
}
use riscv32_emulator.Prelude.Int.{pos, negsuc, neg, to_signed, of_signed, div_ℤ, mod_ℤ}
use riscv32_emulator.Hart.Alu.{divide, remainder}

-- A negative number, as a word.
of_neg : (n : ℕ) → n ≤ 2 ^ 32 → of_signed (neg n) ≡ u32 (2 ^ 32 - n)
of_neg zero h = omega arith
of_neg (suc n) h = omega arith

over_sum : (q r y : ℕ) → (q * 2 ^ 32 + r) * y ≡ q * y * 2 ^ 32 + r * y
over_sum q r y = grind arith

wrap_mul : (x y z : ℕ) → u32 (u32 x * y + z) ≡ u32 (x * y + z)
wrap_mul x y z = omega (arith, over_sum (x / 2 ^ 32) (x % 2 ^ 32) y, split)
  where
    split : x * y ≡ (x / 2 ^ 32 * 2 ^ 32 + x % 2 ^ 32) * y
    split = ap (λ t. t * y) (omega arith)

-- A negative quotient times a negative divisor, and times a positive one.
sum_over : (u v b : ℕ) → (u + v) * b ≡ u * b + v * b
sum_over u v b = grind arith

over_difference : (x b : ℕ) → b ≤ 2 ^ 32 → x * (2 ^ 32 - b) + x * b ≡ x * 2 ^ 32
over_difference x b h = grind (arith, sum_over (2 ^ 32 - b) b x, whole)
  where
    whole : (2 ^ 32 - b + b) * x ≡ 2 ^ 32 * x
    whole = ap (λ t. t * x) (omega arith)

difference_over : (q b : ℕ) → q ≤ 2 ^ 32 → (2 ^ 32 - q) * b + q * b ≡ 2 ^ 32 * b
difference_over q b h = omega (arith, sum_over (2 ^ 32 - q) q b, whole)
  where
    whole : (2 ^ 32 - q + q) * b ≡ 2 ^ 32 * b
    whole = ap (λ t. t * b) (omega arith)

neg_neg :
    (q b r : ℕ) → q ≤ 2 ^ 32 → b ≤ 2 ^ 32 → u32 ((2 ^ 32 - q) * (2 ^ 32 - b) + r) ≡ u32 (q * b + r)
neg_neg q b r hq hb = omega (arith, over_difference (2 ^ 32 - q) b hb, difference_over q b hq)

neg_pos :
    (q b r : ℕ)
    → q ≤ 2 ^ 32
    → q * b + r ≤ 2 ^ 32
    → u32 ((2 ^ 32 - q) * b + (2 ^ 32 - r)) ≡ u32 (2 ^ 32 - (q * b + r))
neg_pos q b r hq hb = grind arith

signed_small : (a : ℕ) → ltb a (2 ^ 31) ≡ true → to_signed a ≡ pos a
signed_small a h = rw h refl

signed_large : (a : ℕ) → ltb a (2 ^ 31) ≡ false → to_signed a ≡ negsuc (2 ^ 32 - 1 - a)
signed_large a h = rw h refl

-- The quotient and the remainder of magnitudes.
division : (a b : ℕ) → a / b * b + a % b ≡ a
division a b = grind arith

quotient-le : (a b : ℕ) → a / b ≤ a
quotient-le a b = grind arith

-- The dividend from a quotient `q` and a remainder `r` of magnitudes, by the signs of the operands.
negative_divisor :
    (q b r : ℕ)
    → q ≤ 2 ^ 32
    → b ≤ 2 ^ 32
    → u32 (of_signed (neg q) * (2 ^ 32 - b) + of_signed (pos r)) ≡ u32 (q * b + r)
negative_divisor q b r hq hb =
    rw (of_neg q hq)
      (wrap_mul (2 ^ 32 - q) (2 ^ 32 - b) (u32 r) ∙ omega (arith, neg_neg q b r hq hb))

negative_dividend :
    (q b r : ℕ)
    → q ≤ 2 ^ 32
    → q * b + r ≤ 2 ^ 32
    → u32 (of_signed (neg q) * b + of_signed (neg r)) ≡ u32 (2 ^ 32 - (q * b + r))
negative_dividend q b r hq h =
    rw (of_neg q hq, of_neg r (omega arith))
      (wrap_mul (2 ^ 32 - q) b (u32 (2 ^ 32 - r)) ∙ omega (arith, neg_pos q b r hq h))

both_negative :
    (q b r : ℕ)
    → b ≤ 2 ^ 32
    → q * b + r ≤ 2 ^ 32
    → u32 (of_signed (pos q) * (2 ^ 32 - b) + of_signed (neg r)) ≡ u32 (2 ^ 32 - (q * b + r))
both_negative q b r hb h =
    rw (of_neg r (omega arith))
      (wrap_mul q (2 ^ 32 - b) (u32 (2 ^ 32 - r)) ∙ omega (arith, over_difference q b hb))

-- The magnitude of a negative word.
abbrev magnitude : ℕ → ℕ
magnitude x = suc (2 ^ 32 - 1 - x)

abbrev SignedIdentity : ℕ → ℕ → Type 0
SignedIdentity a b =
    u32 (
      of_signed (div_ℤ (to_signed a) (to_signed b)) * b
      + of_signed (mod_ℤ (to_signed a) (to_signed b)))
    ≡ a

signed_cases : (a b : ℕ) → IsU32 a → IsU32 b → SignedIdentity a b
signed_cases a b ha hb = elim (Bool-cases (ltb a (2 ^ 31))) [
  | inl ea ↦ elim (Bool-cases (ltb b (2 ^ 31))) [
    | inl eb ↦ rw (ea, eb) (wrap_mul (a / b) b (u32 (a % b)) ∙ omega (arith, division a b))
    | inr eb ↦
        rw (ea, eb)
          (ap (λ t. u32 (of_signed (neg (a / magnitude b)) * t + u32 (a % magnitude b))) back
            ∙ negative_divisor (a / magnitude b) (magnitude b) (a % magnitude b)
                (omega (arith, quotient-le a (magnitude b))) (omega arith)
            ∙ omega (arith, division a (magnitude b)))
  ]
  | inr ea ↦ elim (Bool-cases (ltb b (2 ^ 31))) [
    | inl eb ↦
        rw (ea, eb)
          (negative_dividend (magnitude a / b) b (magnitude a % b)
              (omega (arith, quotient-le (magnitude a) b)) (omega (arith, division (magnitude a) b))
            ∙ omega (arith, division (magnitude a) b))
    | inr eb ↦
        rw (ea, eb)
          (ap
              (λ t. u32 (
                of_signed (pos (magnitude a / magnitude b)) * t
                + of_signed (neg (magnitude a % magnitude b))))
              back
            ∙ both_negative (magnitude a / magnitude b) (magnitude b) (magnitude a % magnitude b)
                (omega arith) (omega (arith, division (magnitude a) (magnitude b)))
            ∙ omega (arith, division (magnitude a) (magnitude b)))
  ]
]
  where
    back : b ≡ 2 ^ 32 - magnitude b
    back = omega arith

by_zero : (a b : ℕ) → IsU32 a → b ≡ 0 → u32 (4294967295 * b + a) ≡ a
by_zero a b ha h = omega arith

overflow : (a b : ℕ) → a ≡ 0x80000000 → b ≡ 0xffffffff → u32 (a * b + 0) ≡ a
overflow a b ea eb = rw (ea, eb) refl

-- For all words, also where the divisor is zero and where the quotient overflows, the results of DIV
-- and REM satisfy `dividend = quotient * divisor + remainder` modulo 2 ^ 32.
pub divide-remainder : (a b : ℕ) → IsU32 a → IsU32 b → u32 (divide a b * b + remainder a b) ≡ a
unfolding divide remainder
divide-remainder a b ha hb = elim (Bool-cases (a == 0x80000000 && b == 0xffffffff)) [
  | inl o ↦ rw o (overflow a b (ground arith) (ground arith))
  | inr o ↦ elim (Bool-cases (b == 0)) [
    | inl z ↦ rw (o, z) (by_zero a b ha (ground arith))
    | inr n ↦ rw (o, n) (signed_cases a b ha hb)
  ]
]
