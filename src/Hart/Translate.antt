-- ===== src/Hart/Translate.antt =====
-- `Hart::translateAddress` of src/rv32/hart.cpp.
pub mod Sv32
pub mod Leaf
pub mod Correct
pub mod Whole
use riscv32_emulator.Prelude.{
  ℕ, zero, suc, ◌+◌, ◌-◌, ◌*◌, ◌%◌, ◌^◌, Bool, true, false, not, ◌&&◌, ◌||◌, bit_and, bit_or, ◌==◌,
  if◌then◌else◌, u32, u64, ◌<<<◌, Option, some, none,
}
use riscv32_emulator.Outcome.{
  Result, ok, err, out_of_fuel, throws, beyond_32_bits, result_bind, M, lift,
}
use riscv32_emulator.Csr.{sstatus_mxr, sstatus_sum, satp_mode, satp_ppn}
use riscv32_emulator.Vmem.{
  page_size, pte_size, page_offset, vpn0, vpn1, set_phys_page_offset, set_phys_ppn0, set_phys_ppn1,
  pte_v, pte_r, pte_w, pte_x, pte_u, pte_a, pte_d, pte_ppn0, pte_ppn1,
}
use riscv32_emulator.Memory.Basic.{basic_memory_handler}
use riscv32_emulator.Memory.Manager
use riscv32_emulator.Hart.State.{Hart, MemoryAccessType, read, write, execute}

-- `accessType == MemoryAccessType::READ` and so on.
abbrev pub is_read : MemoryAccessType → Bool
is_read read = true
is_read write = false
is_read execute = false

abbrev pub is_write : MemoryAccessType → Bool
is_write read = false
is_write write = true
is_write execute = false

abbrev pub is_execute : MemoryAccessType → Bool
is_execute read = false
is_execute write = false
is_execute execute = true

-- `pte.v == 0 || (pte.r == 0 && pte.w == 1)`
unfoldable pub is_invalid : ℕ → Bool
is_invalid pte = pte_v pte == 0 || (pte_r pte == 0 && pte_w pte == 1)

-- `pte.r == 1 || pte.x == 1`
unfoldable pub is_leaf : ℕ → Bool
is_leaf pte = pte_r pte == 1 || pte_x pte == 1

-- The checks of a leaf in round `i`, in order: true where the source returns false.
unfoldable pub leaf_refused : Hart → MemoryAccessType → ℕ → ℕ → Bool
leaf_refused h access i pte =
    not h.supervisor_mode && pte_u pte == 0
    || (pte_w pte == 0 && is_write access)
    || (pte_x pte == 0 && is_execute access)
    || (is_read access
        && ((sstatus_mxr h.csr == 0 && pte_r pte == 0) || (pte_r pte == 0 && pte_x pte == 0)))
    || (is_execute access && h.supervisor_mode && pte_u pte == 1)
    || (not (is_execute access) && h.supervisor_mode && pte_u pte == 1 && sstatus_sum h.csr == 0)
    || (i == 1 && not (pte_ppn0 pte == 0))
    || (pte_a pte == 0 || (is_write access && pte_d pte == 0))

-- `result.bits` from a leaf found in round `i`.
unfoldable pub leaf_address : ℕ → ℕ → ℕ → ℕ
leaf_address i pte vaddr =
    let r =
      set_phys_ppn1 (pte_ppn1 pte)
        (set_phys_ppn0 (pte_ppn0 pte) (set_phys_page_offset (page_offset vaddr) 0)) in
    if i == 1 then set_phys_ppn0 (vpn0 vaddr) r else r

-- `base` of the next table; `ppn1` and `ppn0` are 64-bit there, so nothing is cut off.
unfoldable pub next_base : ℕ → ℕ
next_base pte = bit_or (pte_ppn1 pte <<< 10) (pte_ppn0 pte) * page_size

-- `--i` of a `uint32_t`.
unfoldable pub decrement : ℕ → ℕ
decrement i = u32 (i + 2 ^ 32 - 1)

-- The address that round `i` reads, cut to the `uint32_t` that `readWord` takes.
unfoldable pub pte_addr : ℕ → ℕ → ℕ → ℕ
pte_addr i base vaddr = u32 (base + (if i == 0 then vpn0 vaddr else vpn1 vaddr) * pte_size)

-- The loop `for(uint32_t i = 1; i >= 0; --i)`, whose test always holds. `none` is `return false`,
-- `some` is `result.bits` at the `break`.
unfoldable pub walk : ℕ → Hart → MemoryAccessType → ℕ → ℕ → ℕ → Result (Option ℕ)
walk zero h access vaddr i base = err out_of_fuel
walk (suc fuel) h access vaddr i base =
    let deeper = λ (pte : ℕ). walk fuel h access vaddr (decrement i) (next_base pte) in
    result_bind (Manager.read_word basic_memory_handler h.mem (pte_addr i base vaddr)) λ pte.
      elim (is_invalid pte) [
        | true ↦ ok none
        | false ↦ elim (is_leaf pte) [
          | true ↦
              if leaf_refused h access i pte then ok none else ok (some (leaf_address i pte vaddr))
          | false ↦ deeper pte
        ]
      ]

-- What follows the loop.
unfoldable pub check_result : Option ℕ → Result (Option ℕ)
check_result none = ok none
check_result (some bits) =
    if bits == 0
    then ok none
    else if not (bit_and bits 0x300000000 == 0)
    then err (throws beyond_32_bits)
    else ok (some (bit_and bits 0xffffffff))

-- `uint64_t base = csr.satp.ppn * PAGE_SIZE`, a product of two `uint32_t`.
unfoldable pub root_base : Hart → ℕ
root_base h = u32 (satp_ppn h.csr * page_size)

-- `none` is a result of false, `some` the new value of `addr`.
unfoldable pub translate_address : ℕ → ℕ → MemoryAccessType → Hart → Result (Option ℕ)
unfolding walk check_result root_base
translate_address fuel addr access h =
    if satp_mode h.csr == 0
    then ok (some addr)
    else result_bind (walk fuel h access addr 1 (root_base h)) check_result
