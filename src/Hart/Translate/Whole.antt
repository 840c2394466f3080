-- ===== src/Hart/Translate/Whole.antt =====
-- The whole of `translateAddress` of src/rv32/hart.cpp, from `satp` to the result.
use riscv32_emulator.Prelude.{
  ℕ, sym, true, false, Bool-cases, inl, inr, ◌<◌, suc, ◌+◌, ◌*◌, ◌/◌, ◌%◌, ◌^◌, ◌≡◌, ◌∙◌, ap, refl,
  not, ◌==◌, if◌then◌else◌, u32, arith, IsU32, Option, some, none, bit_and, fun_ext,
}
use riscv32_emulator.Prelude.Bits.{bit_and_mask, bit_and_split, bit_and-zero}
use riscv32_emulator.BitField.{get_field_lem}
use riscv32_emulator.Outcome.{Result, ok, err, result_bind, throws, beyond_32_bits}
use riscv32_emulator.Csr.{satp_mode}
use riscv32_emulator.Hart.State.{Hart, MemoryAccessType}
use riscv32_emulator.Hart.Translate.{walk, check_result, root_base, translate_address}
use riscv32_emulator.Hart.Translate.Sv32
use riscv32_emulator.Hart.Translate.Correct.{
  is_pointer, bind-agree, first_read, second_read, levels, IsShallowWalk, walk-lookup,
}

-- What the emulator makes of a physical address of 34 bits: zero counts as a page fault, and an
-- address beyond 32 bits ends the emulator.
abbrev pub narrow : Option ℕ → Result (Option ℕ)
narrow none = ok none
narrow (some a) =
    if a == 0
    then ok none
    else if a / 2 ^ 32 % 2 ^ 2 == 0
    then ok (some (u32 a))
    else err (throws beyond_32_bits)

-- The base of the root table.
abbrev pub root : Hart → ℕ
root h = h.csr.satp % 2 ^ 22 * 2 ^ 12

-- The tables for the address lie in the first 2 ^ 32 bytes, and no entry of the second level points to
-- a further table.
pub record HasTables (h : Hart) (vaddr : ℕ) : Type 0 where
  pub low_root : h.csr.satp % 2 ^ 22 < 2 ^ 20
  pub low_table :
      (pte : ℕ)
      → Sv32.first_entry h (root h) vaddr ≡ ok pte
      → is_pointer pte ≡ true
      → Sv32.page_number pte < 2 ^ 20
  pub two_levels :
      (pte pte' : ℕ)
      → Sv32.first_entry h (root h) vaddr ≡ ok pte
      → Sv32.second_entry h pte vaddr ≡ ok pte'
      → is_pointer pte ≡ true
      → is_pointer pte' ≡ false

-- Of tables in the first 2 ^ 32 bytes nothing is cut.
module _ (h : Hart) (access : MemoryAccessType) (vaddr : ℕ) (hv : IsU32 vaddr)
    (t : HasTables h vaddr) where
  first-eq : first_read h (root h) vaddr ≡ Sv32.first_entry h (root h) vaddr
  first-eq = ap (Sv32.entry h) (omega (arith, t.low_root))

  second-eq :
      (pte : ℕ)
      → Sv32.page_number pte < 2 ^ 20
      → second_read h pte vaddr ≡ Sv32.second_entry h pte vaddr
  second-eq pte low = ap (Sv32.entry h) (omega arith)

  uncut_levels : ℕ → Result (Option ℕ)
  uncut_levels pte =
      if not (Sv32.is_valid pte)
      then ok none
      else if Sv32.is_leaf pte
      then ok (Sv32.superpage_leaf h access vaddr pte)
      else result_bind (Sv32.second_entry h pte vaddr)
          (λ pte'. ok (Sv32.second_level h access vaddr pte'))

  levels-eq :
      (pte : ℕ)
      → Sv32.first_entry h (root h) vaddr ≡ ok pte
      → levels h access vaddr pte ≡ uncut_levels pte
  unfolding uncut_levels
  levels-eq pte e = elim (Bool-cases (Sv32.is_valid pte)) [
    | inr v ↦ rw v refl
    | inl v ↦ elim (Bool-cases (Sv32.is_leaf pte)) [
      | inl l ↦ rw (v, l) refl
      | inr l ↦
          rw (v, l)
            (ap (λ r. result_bind r (λ pte'. Result.ok (Sv32.second_level h access vaddr pte')))
              (second-eq pte (t.low_table pte e (rw (v, l) refl))))
    ]
  ]

  lookup-eq :
      result_bind (first_read h (root h) vaddr) (levels h access vaddr)
      ≡ Sv32.lookup h access vaddr (root h)
  unfolding uncut_levels
  lookup-eq =
      ap (λ r. result_bind r (levels h access vaddr)) first-eq
      ∙ bind-agree (Sv32.first_entry h (root h) vaddr) levels-eq

  shallow : IsShallowWalk h vaddr (root h)
  shallow pte pte' e e' p =
      t.two_levels pte pte' (sym first-eq ∙ e)
        (sym (second-eq pte (t.low_table pte (sym first-eq ∙ e) p)) ∙ e') p

high_bits : (a : ℕ) → bit_and a 0x300000000 ≡ a / 2 ^ 32 % 2 ^ 2 * 2 ^ 32
high_bits a =
    ap (λ t. bit_and t 0x300000000) split
    ∙ bit_and_split 32 (a / 2 ^ 32) 3 (a % 2 ^ 32) 0 (omega arith) (omega arith)
    ∙ omega (arith, bit_and_mask 2 (a / 2 ^ 32), bit_and-zero (a % 2 ^ 32))
  where
    split : a ≡ a / 2 ^ 32 * 2 ^ 32 + a % 2 ^ 32
    split = omega arith

check_result-narrow : (r : Option ℕ) → check_result r ≡ narrow r
unfolding check_result
check_result-narrow none = refl
check_result-narrow (some a) = ground (arith, high_bits a, bit_and_mask 32 a)

root_base-eq : (h : Hart) → h.csr.satp % 2 ^ 22 < 2 ^ 20 → root_base h ≡ root h
unfolding root_base
root_base-eq h low = omega (arith, get_field_lem 0 21 h.csr.satp)

mode-eq : (h : Hart) → (satp_mode h.csr == 0) ≡ not (Sv32.has_bit 31 h.csr.satp)
mode-eq h = ground (arith, get_field_lem 31 31 h.csr.satp)

-- With fuel for two rounds or more `translateAddress` gives back the address where the mode bit of
-- `satp` is clear, and otherwise what the two-level lookup of Sv32 from the root table gives, with
-- the address 0 turned into a page fault and an address beyond 32 bits into an exception. This holds
-- for every 32-bit address whose tables lie in the first 2 ^ 32 bytes of memory and for which no entry
-- of the second level points to a further table.
pub translate_address-lookup :
    (fuel : ℕ) (h : Hart) (access : MemoryAccessType) (vaddr : ℕ)
    → IsU32 vaddr
    → HasTables h vaddr
    → translate_address (suc (suc fuel)) vaddr access h ≡ (
        if not (Sv32.has_bit 31 h.csr.satp)
        then ok (some vaddr)
        else result_bind (Sv32.lookup h access vaddr (root h)) narrow)
unfolding translate_address
translate_address-lookup fuel h access vaddr hv t =
    ap
      (λ b.
        if b
        then ok (some vaddr)
        else result_bind (walk (suc (suc fuel)) h access vaddr 1 (root_base h)) check_result)
      (mode-eq h)
    ∙ ap (λ r. if not (Sv32.has_bit 31 h.csr.satp) then ok (some vaddr) else r)
        (ap (λ base. result_bind (walk (suc (suc fuel)) h access vaddr 1 base) check_result)
            (root_base-eq h t.low_root)
          ∙ ap (λ r. result_bind r check_result)
              (walk-lookup fuel h access vaddr (root h) hv (shallow h access vaddr hv t)
                ∙ lookup-eq h access vaddr hv t)
          ∙ ap (result_bind (Sv32.lookup h access vaddr (root h))) (fun_ext check_result-narrow))
