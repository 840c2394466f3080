-- ===== src/BitField/Fields.antt =====
-- A field read back after a write to it, or to a field apart from it.
use native.Mathlib.Nat.{
  one-le-pow, div-div-eq-div-mul, add-mul-div_right, add-mul-mod_self_right, div-add-mod',
}
use riscv32_emulator.Prelude.{ℕ, ◌+◌, ◌-◌, ◌*◌, ◌/◌, ◌%◌, ◌^◌, ◌≤◌, ◌<◌, ◌≡◌, ap, ◌∙◌, sym, arith}
use riscv32_emulator.Prelude.Bits.Power.{pow-add}
use riscv32_emulator.BitField.Defs.{size, get_field, set_field}
use riscv32_emulator.BitField.Laws.{get_field_lem, set_field_lem, mod-lt_two_pow}

div-fields : (p q l : ℕ) → l < p → (q * p + l) / p ≡ q
div-fields p q l h = grind arith

mod-fields : (p q l : ℕ) → l < p → (q * p + l) % p ≡ l
mod-fields p q l h = grind arith

-- Digits above a field do not reach it.
low-field : (d s b q l : ℕ) → 0 < b → (q * (d * (s * b)) + l) / b % s ≡ l / b % s
low-field d s b q l hb =
    rw (regroup, add-mul-div_right l (q * d * s) hb) (add-mul-mod_self_right (l / b) (q * d) s)
  where
    regroup : q * (d * (s * b)) + l ≡ l + q * d * s * b
    regroup = omega arith

module _ (w : ℕ) (begin end x v : ℕ) (ordered : begin ≤ end) (fits : end < w)
    (is_word : x < 2 ^ w) where
  high-set :
      set_field w begin end x v / 2 ^ begin
      ≡ x / 2 ^ begin / 2 ^ size begin end * 2 ^ size begin end + v % 2 ^ size begin end
  high-set =
      rw (set_field_lem w begin end x v ordered fits is_word)
        (div-fields (2 ^ begin) _ (x % 2 ^ begin) (mod-lt_two_pow begin x))

  low-set : set_field w begin end x v % 2 ^ begin ≡ x % 2 ^ begin
  low-set =
      rw (set_field_lem w begin end x v ordered fits is_word)
        (mod-fields (2 ^ begin) _ (x % 2 ^ begin) (mod-lt_two_pow begin x))

  -- A field BEGIN to END that lies inside a word of `w` bits holds, after an assignment to it, the low
  -- bits of what was assigned.
  pub get_field-set_field_self :
      get_field begin end (set_field w begin end x v) ≡ v % 2 ^ size begin end
  get_field-set_field_self =
      rw (get_field_lem begin end (set_field w begin end x v), high-set)
        (mod-fields (2 ^ size begin end) _ (v % 2 ^ size begin end)
          (mod-lt_two_pow (size begin end) v))

  -- After an assignment to a field that lies inside a word, a field that ends below it reads as before.
  pub get_field-set_field_below :
      (first last : ℕ)
      → first ≤ last
      → last < begin
      → get_field first last (set_field w begin end x v) ≡ get_field first last x
  get_field-set_field_below first last p q =
      rw (get_field_lem first last (set_field w begin end x v), get_field_lem first last x)
        (same (set_field w begin end x v)
          ∙ ap (λ t. t / 2 ^ first % 2 ^ size first last) low-set
          ∙ sym (same x))
    where
      gap : 2 ^ begin ≡ 2 ^ (begin - last - 1) * (2 ^ size first last * 2 ^ first)
      gap = rw (← pow-add, ← pow-add) (ap (λ t. 2 ^ t) (omega arith))

      same :
          (y : ℕ)
          → y / 2 ^ first % 2 ^ size first last ≡ y % 2 ^ begin / 2 ^ first % 2 ^ size first last
      same y =
          ap (λ t. t / 2 ^ first % 2 ^ size first last)
            (sym (div-add-mod' y (2 ^ begin)) ∙ ap (λ t. y / 2 ^ begin * t + y % 2 ^ begin) gap)
          ∙ low-field (2 ^ (begin - last - 1)) (2 ^ size first last) (2 ^ first) (y / 2 ^ begin)
              (y % 2 ^ begin) (one-le-pow first 2 (omega arith))

  -- After an assignment to a field that lies inside a word, a field that begins above it reads as
  -- before.
  pub get_field-set_field_above :
      (first last : ℕ)
      → end < first
      → get_field first last (set_field w begin end x v) ≡ get_field first last x
  get_field-set_field_above first last q =
      rw (get_field_lem first last (set_field w begin end x v), get_field_lem first last x)
        (ap (λ t. t % 2 ^ size first last)
          (deep (set_field w begin end x v)
            ∙ ap (λ t. t / 2 ^ (first - end - 1)) same
            ∙ sym (deep x)))
    where
      gap : 2 ^ first ≡ 2 ^ begin * (2 ^ size begin end * 2 ^ (first - end - 1))
      gap = rw (← pow-add, ← pow-add) (ap (λ t. 2 ^ t) (omega arith))

      deep : (y : ℕ) → y / 2 ^ first ≡ y / 2 ^ begin / 2 ^ size begin end / 2 ^ (first - end - 1)
      deep y = rw gap (sym (div-div-eq-div-mul (y / 2 ^ begin) _ _ ∙ div-div-eq-div-mul y _ _))

      same :
          set_field w begin end x v / 2 ^ begin / 2 ^ size begin end
          ≡ x / 2 ^ begin / 2 ^ size begin end
      same = rw high-set (div-fields (2 ^ size begin end) _ _ (mod-lt_two_pow (size begin end) v))
