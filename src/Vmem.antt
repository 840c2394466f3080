-- ===== src/Vmem.antt =====
-- src/rv32/vmem.hpp: page sizes, and the bit fields of virtual addresses, physical addresses and
-- page table entries of Sv32. Physical addresses and entries are held in 64 bits.
use riscv32_emulator.Prelude.{ℕ}
use riscv32_emulator.BitField.{get_field, set_field}

abbrev pub page_size : ℕ
page_size = 4096

abbrev pub pte_size : ℕ
pte_size = 4

-- `Sv32VirtualAddr`
abbrev pub page_offset : ℕ → ℕ
page_offset = get_field 0 11

abbrev pub vpn0 : ℕ → ℕ
vpn0 = get_field 12 21

abbrev pub vpn1 : ℕ → ℕ
vpn1 = get_field 22 31

-- `Sv32PhysAddr`, of which the source only writes the fields.
abbrev pub set_phys_page_offset : ℕ → ℕ → ℕ
set_phys_page_offset v bits = set_field 64 0 11 bits v

abbrev pub set_phys_ppn0 : ℕ → ℕ → ℕ
set_phys_ppn0 v bits = set_field 64 12 21 bits v

abbrev pub set_phys_ppn1 : ℕ → ℕ → ℕ
set_phys_ppn1 v bits = set_field 64 22 33 bits v

-- `Sv32PTE`
abbrev pub pte_v : ℕ → ℕ
pte_v = get_field 0 0

abbrev pub pte_r : ℕ → ℕ
pte_r = get_field 1 1

abbrev pub pte_w : ℕ → ℕ
pte_w = get_field 2 2

abbrev pub pte_x : ℕ → ℕ
pte_x = get_field 3 3

abbrev pub pte_u : ℕ → ℕ
pte_u = get_field 4 4

abbrev pub pte_a : ℕ → ℕ
pte_a = get_field 6 6

abbrev pub pte_d : ℕ → ℕ
pte_d = get_field 7 7

abbrev pub pte_ppn0 : ℕ → ℕ
pte_ppn0 = get_field 10 19

abbrev pub pte_ppn1 : ℕ → ℕ
pte_ppn1 = get_field 20 31
