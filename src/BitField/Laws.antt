-- ===== src/BitField/Laws.antt =====
-- What src/bit_field.hpp does, as arithmetic.
use native.Mathlib.Nat.{
  one-le-pow, div-add-mod', mod-eq_of_lt, div-lt_iff_lt-mul, mul_assoc, one-mul,
}
use native.Mathlib.Numerals.{sub-one}
use riscv32_emulator.Prelude.{
  ℕ, zero, suc, ◌+◌, ◌-◌, ◌*◌, ◌/◌, ◌%◌, ◌^◌, ◌≤◌, ◌<◌, ◌≡◌, ap, ◌∙◌, refl, bit_and, bit_or, arith,
  complement, ◌<<<◌,
}
use riscv32_emulator.Prelude.Bits.{
  bit_and_split, bit_or_split, bit_and_mask, bit_and-zero, bit_or-zero, zero-bit_or,
}
use riscv32_emulator.Prelude.Bits.Power.{pow-add}
use riscv32_emulator.BitField.Defs.{size, get_field, mask, set_field}

-- Reading a field is a shift and a remainder.
pub get_field_lem :
    (begin end bits : ℕ) → get_field begin end bits ≡ bits / 2 ^ begin % 2 ^ size begin end
unfolding get_field
get_field_lem begin end bits = ground (arith, bit_and_mask (size begin end) (bits / 2 ^ begin))

pub mod-lt_two_pow : (k x : ℕ) → x % 2 ^ k < 2 ^ k
mod-lt_two_pow k x = omega (arith, one-le-pow k 2)

ones-lt : (k : ℕ) → 2 ^ k - 1 < 2 ^ k
ones-lt k = omega (arith, one-le-pow k 2)

-- A word in three parts: `h` above a field, `m` in the field of `s` bits, `l` in the `b` bits
-- below it.
module _ (b s : ℕ) where
  abbrev word : ℕ → ℕ → ℕ → ℕ
  word h m l = (h * 2 ^ s + m) * 2 ^ b + l

  word-parts : (x : ℕ) → x ≡ word (x / 2 ^ b / 2 ^ s) (x / 2 ^ b % 2 ^ s) (x % 2 ^ b)
  word-parts x = omega (
    arith,
    div-add-mod' x (2 ^ b),
    div-add-mod' (x / 2 ^ b) (2 ^ s),
    ap (λ (t : ℕ). t * 2 ^ b) (div-add-mod' (x / 2 ^ b) (2 ^ s)),
  )

  module _ (h m l h' m' l' : ℕ) where
    abbrev Apart : (ℕ → ℕ → ℕ) → Type 0
    Apart f =
        m < 2 ^ s
        → m' < 2 ^ s
        → l < 2 ^ b
        → l' < 2 ^ b
        → f (word h m l) (word h' m' l') ≡ word (f h h') (f m m') (f l l')

    bit_and-word : Apart bit_and
    bit_and-word mh mh' lh lh' = rw (
      bit_and_split b (h * 2 ^ s + m) (h' * 2 ^ s + m') l l' lh lh',
      bit_and_split s h h' m m' mh mh',
    )

    bit_or-word : Apart bit_or
    bit_or-word mh mh' lh lh' = rw (
      bit_or_split b (h * 2 ^ s + m) (h' * 2 ^ s + m') l l' lh lh',
      bit_or_split s h h' m m' mh mh',
    )

  shifted-word : (v : ℕ) → v * 2 ^ b ≡ word (v / 2 ^ s) (v % 2 ^ s) 0
  shifted-word v = omega (arith, ap (λ (t : ℕ). t * 2 ^ b) (div-add-mod' v (2 ^ s)))

-- A mask below 2 ^ w does not see a reduction modulo 2 ^ w.
bit_and-mod : (w x m : ℕ) → m < 2 ^ w → bit_and (x % 2 ^ w) m ≡ bit_and x m
bit_and-mod w x m h =
    ground
      (arith, one-le-pow w 2, bit_and_split w (x / 2 ^ w) 0 (x % 2 ^ w) m, bit_and-zero (x / 2 ^ w))

-- Products of three positive widths.
field-lt : (p s c : ℕ) → 0 < p → 0 < s → 0 < c → (s - 1) * p < c * (s * p)
field-lt zero s c hp hs hc = absurd (omega arith)
field-lt (suc p) zero c hp hs hc = absurd (omega arith)
field-lt (suc p) (suc s) zero hp hs hc = absurd (omega arith)
field-lt (suc p) (suc s) (suc c) hp hs hc = rw sub-one (grind arith)

field-complement :
    (p s c : ℕ)
    → 0 < p
    → 0 < s
    → 0 < c
    → c * (s * p) - 1 - ((0 * s + (s - 1)) * p + 0) ≡ ((c - 1) * s + 0) * p + (p - 1)
field-complement zero s c hp hs hc = absurd (omega arith)
field-complement (suc p) zero c hp hs hc = absurd (omega arith)
field-complement (suc p) (suc s) zero hp hs hc = absurd (omega arith)
field-complement (suc p) (suc s) (suc c) hp hs hc = simp sub-one (omega arith)

-- The widths of a field that fits a word of `w` bits.
module _ (w b s c : ℕ) (e : w ≡ c + (s + b)) where
  two-pow : 2 ^ w ≡ 2 ^ c * (2 ^ s * 2 ^ b)
  two-pow = rw (e, pow-add c (s + b), pow-add s b)

  field_mask-lt : (2 ^ s - 1) * 2 ^ b < 2 ^ w
  field_mask-lt = rw two-pow (
      field-lt (2 ^ b) (2 ^ s) (2 ^ c) (one-le-pow b 2 (omega arith)) (one-le-pow s 2 (omega arith))
        (one-le-pow c 2 (omega arith)))

  mask-word : (((1 <<< s - 1) <<< b) % 2 ^ w) ≡ word b s 0 (2 ^ s - 1) 0
  mask-word = rw (one-mul, mod-eq_of_lt field_mask-lt) (omega arith)

  complement-word : complement w (word b s 0 (2 ^ s - 1) 0) ≡ word b s (2 ^ c - 1) 0 (2 ^ b - 1)
  complement-word = rw two-pow (
      field-complement (2 ^ b) (2 ^ s) (2 ^ c) (one-le-pow b 2 (omega arith))
        (one-le-pow s 2 (omega arith)) (one-le-pow c 2 (omega arith)))

  top-lt : (x : ℕ) → x < 2 ^ w → x / 2 ^ b / 2 ^ s < 2 ^ c
  top-lt x h =
      (div-lt_iff_lt-mul (one-le-pow s 2 (omega arith))).1
        ((div-lt_iff_lt-mul (one-le-pow b 2 (omega arith))).1 (rw (mul_assoc, ← two-pow) h))

  -- What the mask keeps of the old word, and what it takes of the new value.
  kept :
      (x : ℕ)
      → x < 2 ^ w
      → bit_and x (word b s (2 ^ c - 1) 0 (2 ^ b - 1)) ≡ word b s (x / 2 ^ b / 2 ^ s) 0 (x % 2 ^ b)
  kept x h =
      let high : ℕ = x / 2 ^ b / 2 ^ s in
      let middle : ℕ = x / 2 ^ b % 2 ^ s in
      let low : ℕ = x % 2 ^ b in
      ap (λ t. bit_and t (word b s (2 ^ c - 1) 0 (2 ^ b - 1))) (word-parts b s x)
      ∙ bit_and-word b s high middle low (2 ^ c - 1) 0 (2 ^ b - 1) (mod-lt_two_pow s (x / 2 ^ b))
          (one-le-pow s 2 (omega arith)) (mod-lt_two_pow b x) (ones-lt b)
      ∙ rw
          (
            bit_and_mask c high,
            bit_and-zero middle,
            bit_and_mask b low,
            mod-eq_of_lt (top-lt x h),
            mod-eq_of_lt (mod-lt_two_pow b x),
          )
          refl

  put : (v : ℕ) → bit_and (v * 2 ^ b) (word b s 0 (2 ^ s - 1) 0) ≡ word b s 0 (v % 2 ^ s) 0
  put v =
      ap (λ t. bit_and t (word b s 0 (2 ^ s - 1) 0)) (shifted-word b s v)
      ∙ bit_and-word b s (v / 2 ^ s) (v % 2 ^ s) 0 0 (2 ^ s - 1) 0 (mod-lt_two_pow s v) (ones-lt s)
          (one-le-pow b 2 (omega arith)) (one-le-pow b 2 (omega arith))
      ∙ rw (bit_and-zero (v / 2 ^ s), bit_and_mask s (v % 2 ^ s), mod-eq_of_lt (mod-lt_two_pow s v))
          refl

  set_field-word :
      (x v : ℕ)
      → x < 2 ^ w
      → bit_or
          (bit_and x (complement w (word b s 0 (2 ^ s - 1) 0)))
          (bit_and (v * 2 ^ b) (word b s 0 (2 ^ s - 1) 0))
        ≡ word b s (x / 2 ^ b / 2 ^ s) (v % 2 ^ s) (x % 2 ^ b)
  set_field-word x v h =
      rw (complement-word, kept x h, put v)
        (bit_or-word b s (x / 2 ^ b / 2 ^ s) 0 (x % 2 ^ b) 0 (v % 2 ^ s) 0
            (one-le-pow s 2 (omega arith)) (mod-lt_two_pow s v) (mod-lt_two_pow b x)
            (one-le-pow b 2 (omega arith))
          ∙ rw (bit_or-zero (x / 2 ^ b / 2 ^ s), zero-bit_or (v % 2 ^ s), bit_or-zero (x % 2 ^ b))
              refl)

-- For a field that lies inside a word of `w` bits, an assignment replaces the bits BEGIN to END by
-- the low bits of the value and keeps the bits above and below.
pub set_field_lem :
    (w begin end x v : ℕ)
    → begin ≤ end
    → end < w
    → x < 2 ^ w
    → set_field w begin end x v
      ≡ (x / 2 ^ begin / 2 ^ size begin end * 2 ^ size begin end + v % 2 ^ size begin end)
          * 2 ^ begin
        + x % 2 ^ begin
unfolding set_field
set_field_lem w begin end x v h1 h2 h3 =
    let s : ℕ = size begin end in
    let e : w ≡ (w - end - 1) + (s + begin) = omega arith in
    rw
      (
        bit_and-mod w (v <<< begin) (mask w begin end) (mod-lt_two_pow w _),
        mask-word w begin s (w - end - 1) e,
      )
      (set_field-word w begin s (w - end - 1) e x v h3)
