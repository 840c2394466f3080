-- ===== src/Hart/Trap/Return.antt =====
-- SRET undoes `handleException` and `handleInterrupts` of src/rv32/hart.cpp.
use native.Mathlib.Nat.{mod-eq_of_lt}
use riscv32_emulator.Prelude.{
  if◌then◌else◌, ℕ, ◌+◌, ◌-◌, ◌^◌, ◌%◌, ◌<◌, ◌≡◌, ◌≢◌, ◌/◌, sym, Bool-cases, ltb, Bool, true, false,
  refl, ◌∙◌, ap, arith, IsU32, not, ◌==◌, ◌⊎◌, inl, inr,
}
use riscv32_emulator.BitField.{get_field, set_field, get_field_lem}
use riscv32_emulator.BitField.Fields.{
  get_field-set_field_self, get_field-set_field_below, get_field-set_field_above,
}
use riscv32_emulator.Csr.{sstatus_sie}
use riscv32_emulator.Hart.State.{Hart, ExceptionCode}
use riscv32_emulator.Hart.Trap.{handle_exception, take_interrupt, sret, of_bool}
use riscv32_emulator.BitField.Bounds.{get_field-lt, set_field-lt}

-- One-bit fields of a word: a write to one leaves every other.
module _ (i x v : ℕ) (is_word : IsU32 x) (fits : i < 32) where
  bit-set_self : get_field i i (set_field 32 i i x v) ≡ v % 2
  bit-set_self =
      get_field-set_field_self 32 i i x v (omega arith) fits is_word ∙ ap (λ t. v % 2 ^ t) one_bit
    where
      one_bit : i - i + 1 ≡ 1
      one_bit = omega arith

  bit-set_other :
      (j : ℕ) → (j < i) ⊎ (i < j) → get_field j j (set_field 32 i i x v) ≡ get_field j j x
  bit-set_other j (inl lt) =
      get_field-set_field_below 32 i i x v (omega arith) fits is_word j j (omega arith) lt
  bit-set_other j (inr lt) = get_field-set_field_above 32 i i x v (omega arith) fits is_word j j lt

apart : (j i : ℕ) → j ≢ i → (j < i) ⊎ (i < j)
apart j i n = elim (Bool-cases (ltb j i)) [
  | inl l ↦ inl (ground arith)
  | inr g ↦ inr (ground arith)
]

-- The bits of `sstatus` that a trap saves and that SRET restores, by position.
module _ (x mode : ℕ) (is_word : IsU32 x) where
  pushed : ℕ
  pushed =
      set_field 32 1 1
        (set_field 32 5 5 (set_field 32 8 8 x mode) (get_field 1 1 (set_field 32 8 8 x mode))) 0

  spp-lt : IsU32 (set_field 32 8 8 x mode)
  spp-lt = set_field-lt 32 8 8 x mode is_word

  spie-lt : (v : ℕ) → IsU32 (set_field 32 5 5 (set_field 32 8 8 x mode) v)
  spie-lt v = set_field-lt 32 5 5 _ v spp-lt

  pushed-lt : IsU32 pushed
  unfolding pushed
  pushed-lt = set_field-lt 32 1 1 _ 0 (spie-lt _)

  get_field-pushed_spp : get_field 8 8 pushed ≡ mode % 2
  unfolding pushed
  get_field-pushed_spp =
      bit-set_other 1 _ 0 (spie-lt _) (omega arith) 8 (inr (omega arith))
      ∙ bit-set_other 5 _ _ spp-lt (omega arith) 8 (inr (omega arith))
      ∙ bit-set_self 8 x mode is_word (omega arith)

  get_field-pushed_spie : get_field 5 5 pushed ≡ get_field 1 1 x
  unfolding pushed
  get_field-pushed_spie =
      bit-set_other 1 _ 0 (spie-lt _) (omega arith) 5 (inr (omega arith))
      ∙ bit-set_self 5 _ _ spp-lt (omega arith)
      ∙ mod-eq_of_lt (get_field-lt 1 1 (set_field 32 8 8 x mode))
      ∙ bit-set_other 8 x mode is_word (omega arith) 1 (inl (omega arith))

-- `sstatus` after SRET.
abbrev pub returned : ℕ → ℕ
returned x = set_field 32 8 8 (set_field 32 5 5 (set_field 32 1 1 x (get_field 5 5 x)) 1) 0

module _ (x : ℕ) (is_word : IsU32 x) where
  sie-lt : IsU32 (set_field 32 1 1 x (get_field 5 5 x))
  sie-lt = set_field-lt 32 1 1 x _ is_word

  set_spie-lt : IsU32 (set_field 32 5 5 (set_field 32 1 1 x (get_field 5 5 x)) 1)
  set_spie-lt = set_field-lt 32 5 5 _ 1 sie-lt

  returned_spp : get_field 8 8 (returned x) ≡ 0
  returned_spp = bit-set_self 8 _ 0 set_spie-lt (omega arith)

  returned_spie : get_field 5 5 (returned x) ≡ 1
  returned_spie =
      bit-set_other 8 _ 0 set_spie-lt (omega arith) 5 (inl (omega arith))
      ∙ bit-set_self 5 _ 1 sie-lt (omega arith)

  -- `sie` after SRET is the `spie` before it.
  popped_sie : get_field 1 1 (returned x) ≡ get_field 5 5 x
  popped_sie =
      bit-set_other 8 _ 0 set_spie-lt (omega arith) 1 (inl (omega arith))
      ∙ bit-set_other 5 _ 1 sie-lt (omega arith) 1 (inl (omega arith))
      ∙ bit-set_self 1 x (get_field 5 5 x) is_word (omega arith)
      ∙ mod-eq_of_lt (get_field-lt 5 5 x)

  returned_other : (j : ℕ) → j ≢ 1 → j ≢ 5 → j ≢ 8 → get_field j j (returned x) ≡ get_field j j x
  returned_other j n₁ n₅ n₈ =
      bit-set_other 8 _ 0 set_spie-lt (omega arith) j (apart j 8 n₈)
      ∙ bit-set_other 5 _ 1 sie-lt (omega arith) j (apart j 5 n₅)
      ∙ bit-set_other 1 x _ is_word (omega arith) j (apart j 1 n₁)

-- Bit `j` of a word.
abbrev pub bit : ℕ → ℕ → ℕ
bit j x = x / 2 ^ j % 2

-- The word `sstatus` after an SRET: `spp` (8) is clear, `spie` (5) set, `sie` (1) is what `spie` was,
-- and every other bit stays.
pub record IsReturned (x x' : ℕ) : Type 0 where
  pub spp : bit 8 x' ≡ 0
  pub spie : bit 5 x' ≡ 1
  pub sie : bit 1 x' ≡ bit 5 x
  pub others : (j : ℕ) → j ≢ 1 → j ≢ 5 → j ≢ 8 → bit j x' ≡ bit j x

pub bit-eq : (j x : ℕ) → bit j x ≡ get_field j j x
bit-eq j x = sym (get_field_lem j j x ∙ ap (λ k. x / 2 ^ j % 2 ^ k) one)
  where
    one : j - j + 1 ≡ 1
    one = omega arith

pub returned-IsReturned : (x : ℕ) → IsU32 x → IsReturned x (returned x)
returned-IsReturned x word = record {
  spp = bit-eq 8 _ ∙ returned_spp x word;
  spie = bit-eq 5 _ ∙ returned_spie x word;
  sie = bit-eq 1 _ ∙ popped_sie x word ∙ sym (bit-eq 5 _);
  others = λ j n₁ n₅ n₈. bit-eq j _ ∙ returned_other x word j n₁ n₅ n₈ ∙ sym (bit-eq j _);
}

mode-of_bool : (b : Bool) → not (of_bool b % 2 == 0) ≡ b
mode-of_bool true = refl
mode-of_bool false = refl

-- The word `sstatus` after a trap: `spp` (8) is the mode, `spie` (5) is what `sie` was, and `sie` (1)
-- is clear.
pub record IsPushed (mode : Bool) (x x' : ℕ) : Type 0 where
  pub spp : bit 8 x' ≡ (if mode then 1 else 0)
  pub spie : bit 5 x' ≡ bit 1 x
  pub sie : bit 1 x' ≡ 0

of_bool-lt : (b : Bool) → of_bool b % 2 ≡ (if b then 1 else 0)
of_bool-lt true = refl
of_bool-lt false = refl

pub take_interrupt-IsPushed :
    (cause : ℕ) (h : Hart)
    → IsU32 h.csr.sstatus
    → IsPushed h.supervisor_mode h.csr.sstatus (take_interrupt cause h).csr.sstatus
unfolding take_interrupt pushed
take_interrupt-IsPushed cause h word = record {
  spp =
      bit-eq 8 _
      ∙ get_field-pushed_spp h.csr.sstatus (of_bool h.supervisor_mode) word
      ∙ of_bool-lt h.supervisor_mode;
  spie =
      bit-eq 5 _
      ∙ get_field-pushed_spie h.csr.sstatus (of_bool h.supervisor_mode) word
      ∙ sym (bit-eq 1 _);
  sie =
      bit-eq 1 _
      ∙ bit-set_self 1 _ 0 (spie-lt h.csr.sstatus (of_bool h.supervisor_mode) word _) (omega arith);
}

-- What a return from a trap gives back: mode, interrupt enable and `pc`.
pub record IsRestored (h h' : Hart) : Type 0 where
  pub mode : h'.supervisor_mode ≡ h.supervisor_mode
  pub interrupts : sstatus_sie h'.csr ≡ sstatus_sie h.csr
  pub resumes : h'.pc ≡ h.pc

-- An SRET directly after `handleException` returns to the `pc` of the trap, in the privilege mode
-- and with the interrupt enable bit that the hart had then, if `sstatus` is a 32-bit word.
pub sret-handle_exception :
    (code : ExceptionCode) (stval : ℕ) (h : Hart)
    → IsU32 h.csr.sstatus
    → IsRestored h (sret (handle_exception code stval h))
unfolding sret handle_exception pushed
sret-handle_exception code stval h is_word = record {
  mode =
      ap (λ t. not (t == 0))
        (get_field-pushed_spp h.csr.sstatus (of_bool h.supervisor_mode) is_word)
      ∙ mode-of_bool h.supervisor_mode;
  interrupts =
      popped_sie _ (pushed-lt h.csr.sstatus (of_bool h.supervisor_mode) is_word)
      ∙ get_field-pushed_spie h.csr.sstatus (of_bool h.supervisor_mode) is_word;
  resumes = refl;
}

-- An SRET directly after an interrupt is taken returns to the `pc` of the interrupt, in the privilege
-- mode and with the interrupt enable bit that the hart had then, if `sstatus` is a 32-bit word.
pub sret-take_interrupt :
    (cause : ℕ) (h : Hart) → IsU32 h.csr.sstatus → IsRestored h (sret (take_interrupt cause h))
unfolding sret take_interrupt pushed
sret-take_interrupt cause h is_word = record {
  mode =
      ap (λ t. not (t == 0))
        (get_field-pushed_spp h.csr.sstatus (of_bool h.supervisor_mode) is_word)
      ∙ mode-of_bool h.supervisor_mode;
  interrupts =
      popped_sie _ (pushed-lt h.csr.sstatus (of_bool h.supervisor_mode) is_word)
      ∙ get_field-pushed_spie h.csr.sstatus (of_bool h.supervisor_mode) is_word;
  resumes = refl;
}
