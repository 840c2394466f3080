-- ===== src/Hart/Translate/Leaf.antt =====
-- The checks and the address of a leaf, in `translateAddress` of src/rv32/hart.cpp and in Sv32.
use riscv32_emulator.Prelude.{
  ℕ, ◌+◌, ◌-◌, ◌*◌, ◌/◌, ◌%◌, ◌^◌, ◌<◌, ◌≡◌, ◌∙◌, ap, Bool, true, false, not, ◌&&◌, ◌||◌, ◌==◌,
  if◌then◌else◌, arith, IsU32,
}
use riscv32_emulator.BitField.Bounds.{get_field-lt}
use riscv32_emulator.BitField.{get_field, set_field, get_field_lem, set_field_lem}
use riscv32_emulator.Prelude.Bits.{bit_or_fields}
use riscv32_emulator.Vmem.{page_offset, vpn0, pte_ppn0, pte_ppn1}
use riscv32_emulator.Hart.State.{Hart, MemoryAccessType, read, write, execute}
use riscv32_emulator.Hart.Translate.{is_invalid, is_leaf, leaf_refused, leaf_address, next_base}
use riscv32_emulator.Hart.Translate.Sv32

pub is_invalid-eq : (pte : ℕ) → is_invalid pte ≡ not (Sv32.is_valid pte)
unfolding is_invalid
is_invalid-eq pte =
    ground (arith, get_field_lem 0 0 pte, get_field_lem 1 1 pte, get_field_lem 2 2 pte)

pub is_leaf-eq : (pte : ℕ) → is_leaf pte ≡ Sv32.is_leaf pte
unfolding is_leaf
is_leaf-eq pte = ground (arith, get_field_lem 1 1 pte, get_field_lem 3 3 pte)

-- One bit, by the conversion of its field and by arithmetic.
bit-lem : (k x : ℕ) → get_field k k x ≡ x / 2 ^ k % 2
bit-lem k x = get_field_lem k k x ∙ ap (λ t. x / 2 ^ k % 2 ^ t) one_bit
  where
    one_bit : k - k + 1 ≡ 1
    one_bit = omega arith

bit_clear : (k x : ℕ) → (get_field k k x == 0) ≡ not (Sv32.has_bit k x)
bit_clear k x = ground (arith, bit-lem k x)

bit_set : (k x : ℕ) → (get_field k k x == 1) ≡ Sv32.has_bit k x
bit_set k x = ground (arith, bit-lem k x)

-- The tests of a leaf over Booleans: `s` supervisor mode, `u r w x a d` bits of the entry, `m` MXR,
-- `o` SUM, `b` a misaligned superpage.
module _ (s u r w x a d m o b : Bool) where
  read_tests :
      (r || x) ≡ true
      → (not s && not u
          || (not w && false)
          || (not x && false)
          || (true && ((not m && not r) || (not r && not x)))
          || (false && s && u)
          || (true && s && u && not o)
          || b
          || (not a || (false && not d)))
        ≡ not ((r || (m && x)) && (if s then not u || o else u) && a && not b)
  read_tests h = ground arith

  write_tests :
      (not s && not u
        || (not w && true)
        || (not x && false)
        || (false && ((not m && not r) || (not r && not x)))
        || (false && s && u)
        || (true && s && u && not o)
        || b
        || (not a || (true && not d)))
      ≡ not (w && (if s then not u || o else u) && (a && d) && not b)
  write_tests = ground arith

  execute_tests :
      (not s && not u
        || (not w && false)
        || (not x && true)
        || (false && ((not m && not r) || (not r && not x)))
        || (true && s && u)
        || (false && s && u && not o)
        || b
        || (not a || (false && not d)))
      ≡ not (x && (if s then not u else u) && a && not b)
  execute_tests = ground arith

-- A superpage whose number is no multiple of 2 ^ 10, in round 1.
abbrev pub misaligned : ℕ → ℕ → Bool
misaligned i pte = i == 1 && not (pte_ppn0 pte == 0)

-- For a leaf entry the checks of the source refuse an access exactly where Sv32 does not permit it,
-- by the R, W, X and U bits with SUM and MXR and by the A and D bits, or where a superpage is
-- misaligned.
pub leaf_refused-eq :
    (h : Hart) (access : MemoryAccessType) (i pte : ℕ)
    → Sv32.is_leaf pte ≡ true
    → leaf_refused h access i pte ≡ not (Sv32.permits h access pte && not (misaligned i pte))
unfolding leaf_refused
leaf_refused-eq h read i pte leaf =
    simp (bit_clear, bit_set)
      (read_tests h.supervisor_mode (Sv32.has_bit 4 pte) (Sv32.has_bit 1 pte) (Sv32.has_bit 2 pte)
        (Sv32.has_bit 3 pte) (Sv32.has_bit 6 pte) (Sv32.has_bit 7 pte)
        (Sv32.has_bit 19 h.csr.sstatus) (Sv32.has_bit 18 h.csr.sstatus) (misaligned i pte) leaf)
leaf_refused-eq h write i pte leaf =
    simp (bit_clear, bit_set)
      (write_tests h.supervisor_mode (Sv32.has_bit 4 pte) (Sv32.has_bit 1 pte) (Sv32.has_bit 2 pte)
        (Sv32.has_bit 3 pte) (Sv32.has_bit 6 pte) (Sv32.has_bit 7 pte)
        (Sv32.has_bit 19 h.csr.sstatus) (Sv32.has_bit 18 h.csr.sstatus) (misaligned i pte))
leaf_refused-eq h execute i pte leaf =
    simp (bit_clear, bit_set)
      (execute_tests h.supervisor_mode (Sv32.has_bit 4 pte) (Sv32.has_bit 1 pte)
        (Sv32.has_bit 2 pte) (Sv32.has_bit 3 pte) (Sv32.has_bit 6 pte) (Sv32.has_bit 7 pte)
        (Sv32.has_bit 19 h.csr.sstatus) (Sv32.has_bit 18 h.csr.sstatus) (misaligned i pte))

-- The fields of a physical address, written in the order of the source.
offset-lem : (v : ℕ) → set_field 64 0 11 0 v ≡ v % 2 ^ 12
offset-lem v = omega (arith, set_field_lem 64 0 11 0 v (omega arith) (omega arith) (omega arith))

ppn0-lem :
    (x v : ℕ)
    → x < 2 ^ 34
    → set_field 64 12 21 x v ≡ x / 2 ^ 22 * 2 ^ 22 + v % 2 ^ 10 * 2 ^ 12 + x % 2 ^ 12
ppn0-lem x v h = omega (arith, set_field_lem 64 12 21 x v (omega arith) (omega arith) (omega arith))

ppn1-lem : (x v : ℕ) → x < 2 ^ 22 → set_field 64 22 33 x v ≡ v % 2 ^ 12 * 2 ^ 22 + x
ppn1-lem x v h = omega (arith, set_field_lem 64 22 33 x v (omega arith) (omega arith) (omega arith))

physical : (offset low high : ℕ) → ℕ
physical offset low high =
    set_field 64 22 33 (set_field 64 12 21 (set_field 64 0 11 0 offset) low) high

physical-lem :
    (offset low high : ℕ)
    → physical offset low high ≡ high % 2 ^ 12 * 2 ^ 22 + low % 2 ^ 10 * 2 ^ 12 + offset % 2 ^ 12
unfolding physical
physical-lem offset low high =
    rw
      (
        offset-lem offset,
        ppn0-lem (offset % 2 ^ 12) low (omega arith),
        ppn1-lem
            (offset % 2 ^ 12 / 2 ^ 22 * 2 ^ 22 + low % 2 ^ 10 * 2 ^ 12 + offset % 2 ^ 12 % 2 ^ 12)
            high (omega arith),
      )
      (omega arith)

-- The address of a page.
pub page_address :
    (i pte vaddr : ℕ)
    → IsU32 pte
    → (i == 1) ≡ false
    → leaf_address i pte vaddr ≡ Sv32.page_number pte * 2 ^ 12 + vaddr % 2 ^ 12
unfolding leaf_address physical
page_address i pte vaddr hp hi = rw hi (
    physical-lem (page_offset vaddr) (pte_ppn0 pte) (pte_ppn1 pte)
    ∙ omega (arith, get_field_lem 0 11 vaddr, get_field_lem 10 19 pte, get_field_lem 20 31 pte))

-- The address of a superpage, whose low page number comes from the virtual address.
pub superpage_address :
    (pte vaddr : ℕ)
    → IsU32 pte
    → Sv32.page_number pte % 2 ^ 10 ≡ 0
    → leaf_address 1 pte vaddr ≡ Sv32.page_number pte * 2 ^ 12 + vaddr % 2 ^ 22
unfolding leaf_address physical
superpage_address pte vaddr hp hz =
    ap (λ t. set_field 64 12 21 t (vpn0 vaddr))
      (physical-lem (page_offset vaddr) (pte_ppn0 pte) (pte_ppn1 pte))
    ∙ ppn0-lem _ (vpn0 vaddr) (omega arith)
    ∙ omega (
      arith,
      get_field_lem 0 11 vaddr,
      get_field_lem 12 21 vaddr,
      get_field_lem 10 19 pte,
      get_field_lem 20 31 pte,
    )

-- The base of the next table.
pub next_base-eq : (pte : ℕ) → IsU32 pte → next_base pte ≡ Sv32.page_number pte * 2 ^ 12
unfolding next_base
next_base-eq pte hp =
    rw (bit_or_fields 10 (pte_ppn1 pte) (pte_ppn0 pte) (get_field-lt 10 19 pte))
      (omega (arith, get_field_lem 10 19 pte, get_field_lem 20 31 pte))

pub misaligned-eq :
    (pte : ℕ) → IsU32 pte → misaligned 1 pte ≡ not (Sv32.page_number pte % 2 ^ 10 == 0)
misaligned-eq pte hp = ground (arith, get_field_lem 10 19 pte)
