-- ===== src/Hart/Alu/Signed.antt =====
-- MULH and MULHSU of src/rv32/hart.cpp and signed products.
use riscv32_emulator.Prelude.{
  ℕ, zero, suc, ◌+◌, ◌-◌, ◌*◌, ◌/◌, ◌%◌, ◌^◌, ◌≤◌, ◌≡◌, ◌∙◌, refl, sym, ap, bit_and, IsU32, u32,
  ltb, arith, some, Bool-cases, inl, inr,
}
use riscv32_emulator.Prelude.Bits.{bit_and_mask}
use riscv32_emulator.Prelude.Int.{ℤ, pos, negsuc, neg, to_signed, mul_ℤ, of_signed_64}
use riscv32_emulator.Instruction.SignExtend.{sign_extend_nonneg, sign_extend_neg}
use riscv32_emulator.Decoder.Types.{mul, mulh, mulhsu}
use riscv32_emulator.Hart.Alu.{extend_64, high_word, op_value}

-- A word as a signed number, and its 64 bits.
data Extends (a : ℕ) : Type 0 where
  nonneg : to_signed a ≡ pos a → extend_64 a ≡ a → Extends a
  negative :
      (n : ℕ)
      → a + suc n ≡ 2 ^ 32
      → to_signed a ≡ negsuc n
      → extend_64 a ≡ a + (2 ^ 64 - 2 ^ 32)
      → Extends a

Extends-all : (a : ℕ) → IsU32 a → Extends a
Extends-all a h = elim (Bool-cases (ltb a (2 ^ 31))) [
  | inl e ↦ nonneg (ground arith) (sign_extend_nonneg 64 a 32 (ground arith))
  | inr e ↦ negative (2 ^ 32 - 1 - a) (omega arith) (ground arith) (
      sign_extend_neg 64 a 32 (omega arith) (omega arith) (ground arith) (omega arith)
      ∙ omega arith)
]

neg-64 : (n : ℕ) → n ≤ 2 ^ 64 → of_signed_64 (neg n) ≡ (2 ^ 64 - n) % 2 ^ 64
neg-64 zero h = refl
neg-64 (suc n) h = omega arith

distrib : (a b c : ℕ) → (a + b) * c ≡ a * c + b * c
distrib a b c = grind arith

mul-add : (c a b : ℕ) → c * (a + b) ≡ c * a + c * b
mul-add c a b = grind arith

commute : (a b : ℕ) → a * b ≡ b * a
commute a b = grind arith

-- The high word and the low word of a product of patterns.
words_of :
    (n p z : ℕ)
    → n % 2 ^ 64 ≡ z
    → n % 2 ^ 32 ≡ p % 2 ^ 32
    → high_word n * 2 ^ 32 + bit_and (u32 p) 0xffffffff ≡ z
words_of n p z h l =
    omega (arith, bit_and_mask 32 (n % 2 ^ 64 / 2 ^ 32), bit_and_mask 32 (p % 2 ^ 32))

record IsPattern (a b : ℕ) (n : ℕ) (z : ℤ) : Type 0 where
  whole : n % 2 ^ 64 ≡ of_signed_64 z
  low : n % 2 ^ 32 ≡ a * b % 2 ^ 32

-- One negative factor.
negative-IsPattern :
    (a b n : ℕ)
    → a + suc n ≡ 2 ^ 32
    → IsU32 b
    → IsPattern a b ((a + (2 ^ 64 - 2 ^ 32)) * b) (neg (suc n * b))
negative-IsPattern a b n h hb = record {
  whole = omega (arith, expand, sum, neg-64 (suc n * b) small);
  low = omega (arith, expand);
}
  where
    expand : (a + (2 ^ 64 - 2 ^ 32)) * b ≡ a * b + (2 ^ 64 - 2 ^ 32) * b
    expand = distrib a (2 ^ 64 - 2 ^ 32) b

    sum : a * b + suc n * b ≡ 2 ^ 32 * b
    sum = sym (distrib a (suc n) b) ∙ ap (λ t. t * b) h

    small : suc n * b ≤ 2 ^ 64
    small = omega (arith, sum)

-- Two negative factors.
negatives-IsPattern :
    (a b n k : ℕ)
    → a + suc n ≡ 2 ^ 32
    → b + suc k ≡ 2 ^ 32
    → IsPattern a b ((a + (2 ^ 64 - 2 ^ 32)) * (b + (2 ^ 64 - 2 ^ 32))) (pos (suc n * suc k))
negatives-IsPattern a b n k h h' = record {
  whole = omega (arith, expand, inner, sum, sum', small);
  low = omega (arith, expand, inner);
}
  where
    expand :
        (a + (2 ^ 64 - 2 ^ 32)) * (b + (2 ^ 64 - 2 ^ 32))
        ≡ a * (b + (2 ^ 64 - 2 ^ 32)) + (2 ^ 64 - 2 ^ 32) * (b + (2 ^ 64 - 2 ^ 32))
    expand = distrib a (2 ^ 64 - 2 ^ 32) (b + (2 ^ 64 - 2 ^ 32))

    inner : a * (b + (2 ^ 64 - 2 ^ 32)) ≡ a * b + a * (2 ^ 64 - 2 ^ 32)
    inner = mul-add a b (2 ^ 64 - 2 ^ 32)

    sum : a * b + suc n * b ≡ 2 ^ 32 * b
    sum = sym (distrib a (suc n) b) ∙ ap (λ t. t * b) h

    sum' : suc n * b + suc n * suc k ≡ suc n * 2 ^ 32
    sum' = sym (mul-add (suc n) b (suc k)) ∙ ap (λ t. suc n * t) h'

    small : suc n * suc k ≤ 2 ^ 64
    small = omega (arith, sum')

swap-IsPattern :
    (a b k : ℕ)
    → IsPattern b a ((b + (2 ^ 64 - 2 ^ 32)) * a) (neg (suc k * a))
    → IsPattern a b (a * (b + (2 ^ 64 - 2 ^ 32))) (neg (a * suc k))
swap-IsPattern a b k p = record {
  whole =
      ap (λ t. t % 2 ^ 64) (commute a (b + (2 ^ 64 - 2 ^ 32)))
      ∙ p.whole
      ∙ ap (λ t. of_signed_64 (neg t)) (commute (suc k) a);
  low =
      ap (λ t. t % 2 ^ 32) (commute a (b + (2 ^ 64 - 2 ^ 32)))
      ∙ p.low
      ∙ ap (λ t. t % 2 ^ 32) (commute b a);
}

-- The 64-bit product of the values that MULH and MULHSU multiply.
mulh-IsPattern :
    (a b : ℕ)
    → Extends a
    → Extends b
    → IsU32 a
    → IsU32 b
    → IsPattern a b (extend_64 a * extend_64 b) (mul_ℤ (to_signed a) (to_signed b))
mulh-IsPattern a b (nonneg s e) (nonneg s' e') ha hb =
    rw (s, s', e, e') (record { whole = refl; low = refl })
mulh-IsPattern a b (nonneg s e) (negative k h' s' e') ha hb =
    rw (s, s', e, e') (swap-IsPattern a b k (negative-IsPattern b a k h' ha))
mulh-IsPattern a b (negative n h s e) (nonneg s' e') ha hb =
    rw (s, s', e, e') (negative-IsPattern a b n h hb)
mulh-IsPattern a b (negative n h s e) (negative k h' s' e') ha hb =
    rw (s, s', e, e') (negatives-IsPattern a b n k h h')

mulhsu-IsPattern :
    (a b : ℕ) → Extends a → IsU32 b → IsPattern a b (extend_64 a * b) (mul_ℤ (to_signed a) (pos b))
mulhsu-IsPattern a b (nonneg s e) hb = rw (s, e) (record { whole = refl; low = refl })
mulhsu-IsPattern a b (negative n h s e) hb = rw (s, e) (negative-IsPattern a b n h hb)

-- The results of the source as the two words of a signed product.
pub record IsSignedProduct (a b : ℕ) : Type 0 where
  pub high : ℕ
  pub high_unsigned : ℕ
  pub low : ℕ
  pub high_value : op_value mulh a b ≡ some high
  pub high_unsigned_value : op_value mulhsu a b ≡ some high_unsigned
  pub low_value : op_value mul a b ≡ some low
  pub product : high * 2 ^ 32 + low ≡ of_signed_64 (mul_ℤ (to_signed a) (to_signed b))
  pub product_unsigned : high_unsigned * 2 ^ 32 + low ≡ of_signed_64 (mul_ℤ (to_signed a) (pos b))

-- For two words the results of MULH and MUL are the high and the low word of the 64-bit pattern of
-- the product of the words as signed numbers, and those of MULHSU and MUL of the product of the first
-- as a signed and the second as an unsigned number.
pub op_value-IsSignedProduct : (a b : ℕ) → IsU32 a → IsU32 b → IsSignedProduct a b
unfolding op_value
op_value-IsSignedProduct a b ha hb =
    let signed = mulh-IsPattern a b (Extends-all a ha) (Extends-all b hb) ha hb in
    let mixed = mulhsu-IsPattern a b (Extends-all a ha) hb in
    record {
      high = high_word (extend_64 a * extend_64 b);
      high_unsigned = high_word (extend_64 a * b);
      low = bit_and (u32 (a * b)) 0xffffffff;
      high_value = refl;
      high_unsigned_value = refl;
      low_value = refl;
      product = words_of (extend_64 a * extend_64 b) (a * b) _ signed.whole signed.low;
      product_unsigned = words_of (extend_64 a * b) (a * b) _ mixed.whole mixed.low;
    }
