-- ===== src/Hart/Translate/Sv32.antt =====
-- Sv32 as the privileged architecture describes it, against which `translateAddress` of
-- src/rv32/hart.cpp is held: two levels of tables, entries and addresses as plain arithmetic. Nothing
-- is cut: the addresses of tables have up to 34 bits.
use riscv32_emulator.Prelude.{
  ℕ, ◌+◌, ◌*◌, ◌/◌, ◌%◌, ◌^◌, Bool, not, ◌&&◌, ◌||◌, ◌==◌, if◌then◌else◌, Option, some, none,
}
use riscv32_emulator.Outcome.{Result, ok, result_bind}
use riscv32_emulator.Memory.Basic.{basic_memory_handler}
use riscv32_emulator.Memory.Manager
use riscv32_emulator.Hart.State.{Hart, MemoryAccessType, read, write, execute}

-- Bit `k` of a word is set.
abbrev pub has_bit : ℕ → ℕ → Bool
has_bit k x = x / 2 ^ k % 2 == 1

-- The permissions of the entry for an access, with MXR for reads.
abbrev pub allows : Hart → MemoryAccessType → ℕ → Bool
allows h read pte = has_bit 1 pte || (has_bit 19 h.csr.sstatus && has_bit 3 pte)
allows h write pte = has_bit 2 pte
allows h execute pte = has_bit 3 pte

-- The page is open to the mode: user mode needs a user page, and supervisor mode may reach one by
-- loads and stores only, with SUM.
abbrev pub open_to : Hart → MemoryAccessType → ℕ → Bool
open_to h execute pte = if h.supervisor_mode then not (has_bit 4 pte) else has_bit 4 pte
open_to h _ pte =
    if h.supervisor_mode then not (has_bit 4 pte) || has_bit 18 h.csr.sstatus else has_bit 4 pte

-- The A bit, and for a store the D bit, are set.
abbrev pub is_used : MemoryAccessType → ℕ → Bool
is_used write pte = has_bit 6 pte && has_bit 7 pte
is_used _ pte = has_bit 6 pte

abbrev pub permits : Hart → MemoryAccessType → ℕ → Bool
permits h access pte = allows h access pte && open_to h access pte && is_used access pte

abbrev pub is_valid : ℕ → Bool
is_valid pte = has_bit 0 pte && (has_bit 1 pte || not (has_bit 2 pte))

abbrev pub is_leaf : ℕ → Bool
is_leaf pte = has_bit 1 pte || has_bit 3 pte

-- The page number of an entry, and the base of the table that it points to.
abbrev pub page_number : ℕ → ℕ
page_number pte = pte / 2 ^ 10

-- A leaf of the second level maps a page of 2 ^ 12 bytes, one of the first a page of 2 ^ 22 bytes,
-- whose number must be a multiple of 2 ^ 10.
abbrev pub page_leaf : Hart → MemoryAccessType → ℕ → ℕ → Option ℕ
page_leaf h access vaddr pte =
    if permits h access pte then some (page_number pte * 2 ^ 12 + vaddr % 2 ^ 12) else none

abbrev pub superpage_leaf : Hart → MemoryAccessType → ℕ → ℕ → Option ℕ
superpage_leaf h access vaddr pte =
    if permits h access pte && page_number pte % 2 ^ 10 == 0
    then some (page_number pte * 2 ^ 12 + vaddr % 2 ^ 22)
    else none

abbrev pub entry : Hart → ℕ → Result ℕ
entry h addr = Manager.read_word basic_memory_handler h.mem addr

abbrev pub first_entry : Hart → ℕ → ℕ → Result ℕ
first_entry h base vaddr = entry h (base + vaddr / 2 ^ 22 * 4)

abbrev pub second_entry : Hart → ℕ → ℕ → Result ℕ
second_entry h pte vaddr = entry h (page_number pte * 2 ^ 12 + vaddr / 2 ^ 12 % 2 ^ 10 * 4)

-- At the second level every entry that is no leaf is a page fault.
abbrev pub second_level : Hart → MemoryAccessType → ℕ → ℕ → Option ℕ
second_level h access vaddr pte =
    if is_valid pte && is_leaf pte then page_leaf h access vaddr pte else none

abbrev pub lookup : Hart → MemoryAccessType → ℕ → ℕ → Result (Option ℕ)
lookup h access vaddr base = result_bind (first_entry h base vaddr) λ pte.
    if not (is_valid pte)
    then ok none
    else if is_leaf pte
    then ok (superpage_leaf h access vaddr pte)
    else result_bind (second_entry h pte vaddr) (λ pte'. ok (second_level h access vaddr pte'))
