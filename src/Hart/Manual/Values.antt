-- ===== src/Hart/Manual/Values.antt =====
-- The values of src/rv32/hart.cpp against those of the manual.
use riscv32_emulator.Prelude.{
  ℕ, zero, suc, ◌+◌, ◌-◌, ◌*◌, ◌/◌, ◌%◌, ◌^◌, ◌<◌, ◌≤◌, ◌≡◌, ◌∙◌, refl, ap, true, false, not, ltb,
  ◌==◌, bit_and, u32, IsU32, some, if◌then◌else◌, arith, inl, inr, Bool-cases, fun_ext,
}
use native.Mathlib.Nat.{div-le_self, mod-le}
use riscv32_emulator.Prelude.Bits.{bit_and_mask}
use riscv32_emulator.Prelude.Int.{pos, negsuc, neg, to_signed, of_signed, div_ℤ, mod_ℤ}
use riscv32_emulator.Decoder.Types.{
  Opcode, op, op_imm, blt, bge, add, sub, sll, slt, sltu, xor, srl, sra, or, and, mul, mulh, mulhsu,
  mulhu, div, divu, rem, remu, addi, slti, sltiu, xori, ori, andi, slli, srli, srai,
}
use riscv32_emulator.Decoder.Classes.{type_of}
use riscv32_emulator.Hart.State.{Hart, set_register}
use riscv32_emulator.Hart.Alu.{
  signed_lt, shift_right_arithmetic, divide, remainder, op_value, op_imm_value,
}
use riscv32_emulator.Hart.Alu.Multiply.{op_value-IsProduct}
use riscv32_emulator.Hart.Alu.Signed.{op_value-IsSignedProduct}
use riscv32_emulator.Hart.Control.{branch_taken}
use riscv32_emulator.Hart.Manual.{
  with_rd, signed_less, is_negative, negated, number, shifted_right, quotient, rest, op_result,
  op_imm_result, branch_holds,
}

pub set_register-with_rd : (d v : ℕ) (h : Hart) → set_register d v h ≡ with_rd d v h
unfolding set_register
set_register-with_rd d v h = ap (λ (g : ℕ → ℕ). record h { gpr = g }) (fun_ext (λ j. ground arith))

pub signed_lt-less : (a b : ℕ) → IsU32 a → IsU32 b → signed_lt a b ≡ signed_less a b
signed_lt-less a b ha hb = ground arith

-- A word as a number with a sign.
data HasSign (a : ℕ) : Type 0 where
  plus : is_negative a ≡ false → to_signed a ≡ pos a → a < 2 ^ 31 → HasSign a
  minus :
      (n : ℕ)
      → is_negative a ≡ true
      → to_signed a ≡ negsuc n
      → 2 ^ 32 - a ≡ suc n
      → a + suc n ≡ 2 ^ 32
      → n < 2 ^ 31
      → HasSign a

HasSign-all : (a : ℕ) → IsU32 a → HasSign a
HasSign-all a h = elim (Bool-cases (ltb a (2 ^ 31))) [
  | inl e ↦ plus (ground arith) (ground arith) (ground arith)
  | inr e ↦
      minus (2 ^ 32 - 1 - a) (ground arith) (ground arith) (ground arith) (omega arith)
        (ground arith)
]

shift-eq : (a k : ℕ) → IsU32 a → shift_right_arithmetic a k ≡ shifted_right a k
unfolding shift_right_arithmetic
shift-eq a k ha = elim (HasSign-all a ha) [
  | plus n s l ↦ rw (n, s) (omega (arith, div-le_self a (2 ^ k)))
  | minus j n s m e l ↦ rw (n, s, complement e) (omega (arith, div-le_self j (2 ^ k)))
]
  where
    complement : {j : ℕ} → a + suc j ≡ 2 ^ 32 → 2 ^ 32 - 1 - a ≡ j
    complement e = omega arith

amount : (b : ℕ) → bit_and b 0x1f ≡ b % 32
amount b = bit_and_mask 5 b

of_signed-neg : (n : ℕ) → n ≤ 2 ^ 32 → of_signed (neg n) ≡ negated n
of_signed-neg zero h = refl
of_signed-neg (suc n) h = omega arith

quotient-eq :
    (a b : ℕ) → HasSign a → HasSign b → of_signed (div_ℤ (to_signed a) (to_signed b)) ≡ quotient a b
quotient-eq a b (plus n s l) (plus n' s' l') = rw (n, n', s, s') (omega (arith, div-le_self a b))
quotient-eq a b (plus n s l) (minus k n' s' m' e l') =
    rw (n, n', s, s', m') (of_signed-neg (a / suc k) (omega (arith, div-le_self a (suc k))))
quotient-eq a b (minus j n s m e l) (plus n' s' l') =
    rw (n, n', s, s', m) (of_signed-neg (suc j / b) (omega (arith, div-le_self (suc j) b)))
quotient-eq a b (minus j n s m e l) (minus k n' s' m' e' l') =
    rw (n, n', s, s', m, m') (omega (arith, div-le_self (suc j) (suc k)))

rest-eq :
    (a b : ℕ) → HasSign a → HasSign b → of_signed (mod_ℤ (to_signed a) (to_signed b)) ≡ rest a b
rest-eq a b (plus n s l) (plus n' s' l') = rw (n, n', s, s') (omega (arith, mod-le a b))
rest-eq a b (plus n s l) (minus k n' s' m' e l') =
    rw (n, n', s, s', m') (omega (arith, mod-le a (suc k)))
rest-eq a b (minus j n s m e l) (plus n' s' l') =
    rw (n, n', s, s', m) (of_signed-neg (suc j % b) (omega (arith, mod-le (suc j) b)))
rest-eq a b (minus j n s m e l) (minus k n' s' m' e' l') =
    rw (n, n', s, s', m, m') (of_signed-neg (suc j % suc k) (omega (arith, mod-le (suc j) (suc k))))

divide-eq :
    (a b : ℕ) → IsU32 a → IsU32 b → divide a b ≡ (if b == 0 then 2 ^ 32 - 1 else quotient a b)
unfolding divide
divide-eq a b ha hb = ground (arith, quotient-eq a b (HasSign-all a ha) (HasSign-all b hb), lowest)
  where
    lowest : quotient 0x80000000 0xffffffff ≡ 0x80000000
    lowest = refl

remainder-eq : (a b : ℕ) → IsU32 a → IsU32 b → remainder a b ≡ (if b == 0 then a else rest a b)
unfolding remainder
remainder-eq a b ha hb = ground (arith, rest-eq a b (HasSign-all a ha) (HasSign-all b hb), lowest)
  where
    lowest : rest 0x80000000 0xffffffff ≡ 0
    lowest = refl

quotient-lt : (p q z : ℕ) → p * 2 ^ 32 + q ≡ z → q < 2 ^ 32 → p ≡ z / 2 ^ 32
quotient-lt p q z e h = omega arith

low-lt : (a b low : ℕ) → op_value mul a b ≡ some low → low < 2 ^ 32
unfolding op_value
low-lt a b low e = ground (arith, bit_and_mask 32 (u32 (a * b)))

-- The value of the source is that of the manual.
pub op_value-op_result :
    (o : Opcode) (a b : ℕ)
    → type_of o ≡ op
    → IsU32 a
    → IsU32 b
    → op_value o a b ≡ some (op_result o a b)
unfolding op_value
op_value-op_result add a b t ha hb = refl
op_value-op_result sub a b t ha hb = ap some (omega arith)
op_value-op_result sll a b t ha hb = ap (λ k. some (a * 2 ^ k % 2 ^ 32)) (amount b)
op_value-op_result slt a b t ha hb = ap (λ l. some (number l)) (signed_lt-less a b ha hb)
op_value-op_result sltu a b t ha hb = refl
op_value-op_result xor a b t ha hb = refl
op_value-op_result srl a b t ha hb = ap (λ k. some (a / 2 ^ k)) (amount b)
op_value-op_result sra a b t ha hb =
    ap some (ap (shift_right_arithmetic a) (amount b) ∙ shift-eq a (b % 32) ha)
op_value-op_result or a b t ha hb = refl
op_value-op_result and a b t ha hb = refl
op_value-op_result mul a b t ha hb = ap some (omega (arith, bit_and_mask 32 (u32 (a * b))))
op_value-op_result mulh a b t ha hb =
    let p = op_value-IsSignedProduct a b ha hb in
    p.high_value ∙ ap some (quotient-lt p.high p.low _ p.product (low-lt a b p.low p.low_value))
op_value-op_result mulhu a b t ha hb =
    let p = op_value-IsProduct a b ha hb in
    p.high_value ∙ ap some (quotient-lt p.high p.low _ p.product (low-lt a b p.low p.low_value))
op_value-op_result mulhsu a b t ha hb =
    let p = op_value-IsSignedProduct a b ha hb in
    p.high_unsigned_value
    ∙ ap some
        (quotient-lt p.high_unsigned p.low _ p.product_unsigned (low-lt a b p.low p.low_value))
op_value-op_result div a b t ha hb = ap some (divide-eq a b ha hb)
op_value-op_result divu a b t ha hb = ground arith
op_value-op_result rem a b t ha hb = ap some (remainder-eq a b ha hb)
op_value-op_result remu a b t ha hb = ground arith
op_value-op_result _ a b t ha hb = ground arith

pub op_imm_value-op_imm_result :
    (o : Opcode) (a m k : ℕ)
    → type_of o ≡ op_imm
    → IsU32 a
    → IsU32 m
    → op_imm_value o a m k ≡ some (op_imm_result o a m k)
unfolding op_imm_value
op_imm_value-op_imm_result addi a m k t ha hm = refl
op_imm_value-op_imm_result slti a m k t ha hm = ap (λ l. some (number l)) (signed_lt-less a m ha hm)
op_imm_value-op_imm_result srai a m k t ha hm = ap some (shift-eq a k ha)
op_imm_value-op_imm_result sltiu a m k t ha hm = refl
op_imm_value-op_imm_result xori a m k t ha hm = refl
op_imm_value-op_imm_result ori a m k t ha hm = refl
op_imm_value-op_imm_result andi a m k t ha hm = refl
op_imm_value-op_imm_result slli a m k t ha hm = refl
op_imm_value-op_imm_result srli a m k t ha hm = refl
op_imm_value-op_imm_result _ a m k t ha hm = ground arith

pub branch_taken-holds :
    (o : Opcode) (a b : ℕ) → IsU32 a → IsU32 b → branch_taken o a b ≡ branch_holds o a b
unfolding branch_taken
branch_taken-holds blt a b ha hb = signed_lt-less a b ha hb
branch_taken-holds bge a b ha hb = ap not (signed_lt-less a b ha hb)
branch_taken-holds _ a b ha hb = refl
