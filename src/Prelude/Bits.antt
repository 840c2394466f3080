-- ===== src/Prelude/Bits.antt =====
-- `&`, `|` and `^` at variables: the lowest digit, splits at a bit position, masks and bounds.
mod Step
pub mod Power
use Step.{bit_and_step, bit_or_step, bit_xor_step}
use Prim.Native.Nat.{
  ℕ, zero, suc, ◌+◌, ◌-◌, ◌*◌, ◌/◌, ◌%◌, ◌^◌, ◌≤◌, ◌<◌, bit_and, bit_or, bit_xor, differ,
  bit_and-bitwise, bit_or-bitwise,
}
use mathlib.Core.Path.{◌≡◌, refl, ap, sym, ◌∙◌}
use native.Mathlib.Omega.{arith}
use native.Mathlib.Nat.{pow-suc, one-le-pow, zero-add, mul_assoc, mul_comm}

scale-suc : (q k : ℕ) → q * 2 ^ suc k ≡ 2 * (q * 2 ^ k)
scale-suc q k = omega (arith, ap (λ (t : ℕ). q * t) (pow-suc 2 k))

-- An operation acts on the digits above and below position `k` apart.
module _ (k p q r s : ℕ) where
  abbrev Splits : (ℕ → ℕ → ℕ) → Type 0
  Splits f = r < 2 ^ k → s < 2 ^ k → f (p * 2 ^ k + r) (q * 2 ^ k + s) ≡ f p q * 2 ^ k + f r s

pub bit_and_split : (k p q r s : ℕ) → Splits k p q r s bit_and
bit_and_split zero p q r s hr hs = ground arith
bit_and_split (suc k) p q r s hr hs = ground (
  arith,
  bit_and_step (p * 2 ^ suc k + r) (q * 2 ^ suc k + s),
  bit_and_step r s,
  scale-suc p k,
  scale-suc q k,
  scale-suc (bit_and p q) k,
  bit_and_split k p q (r / 2) (s / 2),
  pow-suc 2 k,
)

pub bit_or_split : (k p q r s : ℕ) → Splits k p q r s bit_or
bit_or_split zero p q r s hr hs = ground arith
bit_or_split (suc k) p q r s hr hs = ground (
  arith,
  bit_or_step (p * 2 ^ suc k + r) (q * 2 ^ suc k + s),
  bit_or_step r s,
  scale-suc p k,
  scale-suc q k,
  scale-suc (bit_or p q) k,
  bit_or_split k p q (r / 2) (s / 2),
  pow-suc 2 k,
)

-- A field beside zeros.
pub bit_or-zero : (a : ℕ) → bit_or a 0 ≡ a
bit_or-zero a = go a a (omega arith)
  where
    go : (n m : ℕ) → m ≤ n → bit_or m 0 ≡ m
    go n zero h = refl
    go zero (suc m) h = absurd (omega arith)
    go (suc n) (suc m) h = omega (arith, bit_or_step (suc m) 0, go n (suc m / 2) (omega arith))

pub bit_and-zero : (a : ℕ) → bit_and a 0 ≡ 0
bit_and-zero a = go a a (omega arith)
  where
    go : (n m : ℕ) → m ≤ n → bit_and m 0 ≡ 0
    go n zero h = refl
    go zero (suc m) h = absurd (omega arith)
    go (suc n) (suc m) h = omega (arith, bit_and_step (suc m) 0, go n (suc m / 2) (omega arith))

pub zero-bit_or : (a : ℕ) → bit_or 0 a ≡ a
zero-bit_or a = bit_or-bitwise 0 a

pub zero-bit_and : (a : ℕ) → bit_and 0 a ≡ 0
zero-bit_and a = bit_and-bitwise 0 a

pub bit_or_fields : (k q r : ℕ) → r < 2 ^ k → bit_or (q * 2 ^ k) r ≡ q * 2 ^ k + r
bit_or_fields k q r h =
    ground (arith, bit_or_split k q 0 0 r, bit_or-zero q, zero-bit_or r, one-le-pow k 2)

pub fields_bit_or : (k q r : ℕ) → r < 2 ^ k → bit_or r (q * 2 ^ k) ≡ q * 2 ^ k + r
fields_bit_or k q r h =
    ground (arith, bit_or_split k 0 q r 0, bit_or-zero r, zero-bit_or q, one-le-pow k 2)

-- Bits above position `k` beside bits below it.
pub bit_or_join : (k x y : ℕ) → x % 2 ^ k ≡ 0 → y < 2 ^ k → bit_or x y ≡ x + y
bit_or_join k x y hx hy =
    ap (λ (t : ℕ). bit_or t y) split
    ∙ bit_or_fields k (x / 2 ^ k) y hy
    ∙ ap (λ (t : ℕ). t + y) (sym split)
  where
    split : x ≡ x / 2 ^ k * 2 ^ k
    split = ground (arith, hx, one-le-pow k 2)

-- A mask of `k` ones is the remainder by `2 ^ k`.
bit_and_ones : (k r : ℕ) → r < 2 ^ k → bit_and r (2 ^ k - 1) ≡ r
bit_and_ones zero r h = ground (arith, bit_and-zero r)
bit_and_ones (suc k) r h =
    ground
      (arith, bit_and_step r (2 ^ suc k - 1), pow-suc 2 k, one-le-pow k 2, bit_and_ones k (r / 2))

pub bit_and_mask : (k a : ℕ) → bit_and a (2 ^ k - 1) ≡ a % 2 ^ k
bit_and_mask k a = ground (
  arith,
  one-le-pow k 2,
  bit_and_split k (a / 2 ^ k) 0 (a % 2 ^ k) (2 ^ k - 1),
  bit_and-zero (a / 2 ^ k),
  bit_and_ones k (a % 2 ^ k),
)

-- The operations stay within a width.
pub bit_and-lt : (k a b : ℕ) → a < 2 ^ k → bit_and a b < 2 ^ k
bit_and-lt zero a b ha = ground (arith, bit_and_step a b, zero-bit_and b)
bit_and-lt (suc k) a b ha = omega (
  arith,
  bit_and_step a b,
  pow-suc 2 k,
  bit_and-lt k (a / 2) (b / 2) (omega (arith, pow-suc 2 k)),
)

pub bit_or-lt : (k a b : ℕ) → a < 2 ^ k → b < 2 ^ k → bit_or a b < 2 ^ k
bit_or-lt zero a b ha hb = ground arith
bit_or-lt (suc k) a b ha hb = omega (
  arith,
  bit_or_step a b,
  pow-suc 2 k,
  bit_or-lt k (a / 2) (b / 2) (omega (arith, pow-suc 2 k)) (omega (arith, pow-suc 2 k)),
)

differ-lt : (a b : ℕ) → a < 2 → b < 2 → differ a b < 2
differ-lt zero b ha hb = hb
differ-lt (suc zero) zero ha hb = ha
differ-lt (suc zero) (suc zero) ha hb = omega arith
differ-lt (suc zero) (suc (suc b)) ha hb = absurd (omega arith)
differ-lt (suc (suc a)) b ha hb = absurd (omega arith)

pub bit_xor-lt : (k a b : ℕ) → a < 2 ^ k → b < 2 ^ k → bit_xor a b < 2 ^ k
bit_xor-lt zero a b ha hb = ground arith
bit_xor-lt (suc k) a b ha hb = omega (
  arith,
  bit_xor_step a b,
  differ-lt (a % 2) (b % 2) (omega arith) (omega arith),
  pow-suc 2 k,
  bit_xor-lt k (a / 2) (b / 2) (omega (arith, pow-suc 2 k)) (omega (arith, pow-suc 2 k)),
)
