-- ===== src/Hart/Assembled/Reserved.antt =====
-- An assembled SC.W of the case AMO of src/rv32/hart.cpp.
use riscv32_emulator.Prelude.{
  ℕ, ◌+◌, ◌%◌, ◌≡◌, ◌∙◌, refl, ap, ap₂, true, false, u32, IsU32, List, Bool-cases, inl, inr,
  if◌then◌else◌, if_true, if_false,
}
use riscv32_emulator.Outcome.{Result, ok, Outcome, done, M, lift, modify, ◌>>=◌, ◌>>◌, then-done}
use riscv32_emulator.Csr.{satp_mode}
use riscv32_emulator.Memory.Basic.{BasicMemory, basic_memory_handler}
use riscv32_emulator.Memory.Basic.Store.{basic_memory-IsByteStore}
use riscv32_emulator.Memory.Manager
use riscv32_emulator.Memory.Manager.Access.{is_mapped, map_of}
use riscv32_emulator.Memory.Manager.RoundTrip.{IsWordWritten, write_word-IsWordWritten}
use riscv32_emulator.Decoder.Types.{sc_w}
use riscv32_emulator.Decoder.Encode.{Operands, IsOperands, assemble}
use riscv32_emulator.Hart.State.{Hart, get_register, set_register, write_word}
use riscv32_emulator.Hart.LoadStore.{amo_case}
use riscv32_emulator.Hart.Assembled.Memory.{on_mem-done}
use riscv32_emulator.Hart.Assembled.Atomics.{exec-amo, amo-reads}
use riscv32_emulator.Hart.Step.{exec}

-- How a SC.W at `addr` ends: it stores the word, clears the flag and gives 0, or it gives 1.
pub data ScEnds (x : Operands) (h : Hart) (o : Outcome Hart (Unit {0})) : Type 0 where
  stored :
      (hs' : List BasicMemory)
      → h.reservation_set_valid ≡ true
      → o
        ≡ done tt
            (record (set_register x.d 0 (record h { mem = map_of basic_memory_handler hs' })) {
              reservation_set_valid = false;
            })
      → IsWordWritten basic_memory_handler basic_memory-IsByteStore h.mem.handlers hs'
          (get_register x.s1 h)
          (get_register x.s2 h)
      → ScEnds x h o
  refused : h.reservation_set_valid ≡ false → o ≡ done tt (set_register x.d 1 h) → ScEnds x h o

abbrev clear_reservation : Hart → Hart
clear_reservation h = record h { reservation_set_valid = false }

-- The case of the source, from the numbers of its registers.
abbrev store_conditional : ℕ → ℕ → ℕ → M Hart (Unit {0})
store_conditional addr p d h =
    (if h.reservation_set_valid
        then write_word addr (get_register p h)
          >> (modify (set_register d 0) >> modify clear_reservation)
        else modify (set_register d 1))
      h

-- An assembled SC.W, without translation, at an aligned address that is a word and whose four bytes
-- are mapped, where the register `s2` is a word: if the flag of LR.W is set, whatever address that has
-- read, then memory has the word at the address, no byte at another address has changed, the register
-- `d` is set to 0 and the flag is cleared; if it is not, the register `d` is set to 1 and nothing else
-- changes.
pub exec-sc :
    (x : Operands) (fuel : ℕ) (h : Hart) (old : ℕ)
    → IsOperands sc_w x
    → satp_mode h.csr ≡ 0
    → get_register x.s1 h % 4 ≡ 0
    → IsU32 (get_register x.s1 h)
    → IsU32 (get_register x.s2 h)
    → Manager.read_word basic_memory_handler h.mem (get_register x.s1 h) ≡ ok old
    → is_mapped basic_memory_handler h.mem.handlers (get_register x.s1 h) ≡ true
    → is_mapped basic_memory_handler h.mem.handlers (u32 (get_register x.s1 h + 1)) ≡ true
    → is_mapped basic_memory_handler h.mem.handlers (u32 (get_register x.s1 h + 2)) ≡ true
    → is_mapped basic_memory_handler h.mem.handlers (u32 (get_register x.s1 h + 3)) ≡ true
    → ScEnds x h (exec fuel (assemble sc_w x) h)
unfolding amo_case
exec-sc x fuel h old fits bare whole word value e_old m₀ m₁ m₂ m₃ =
    let w = assemble sc_w x in
    let addr = get_register x.s1 h in
    let (rs2_eq, rd_eq) = amo-reads sc_w x fuel h refl fits in
    let (hs', written) =
      write_word-IsWordWritten basic_memory_handler basic_memory-IsByteStore h.mem.handlers addr
        (get_register x.s2 h) word value m₀ m₁ m₂ m₃ in
    let executed =
      exec-amo sc_w x fuel h refl fits bare whole
      ∙ ap (λ (q : Result ℕ). (lift q >>= λ val. amo_case sc_w w addr val) h) e_old
      ∙ ap₂ (λ p d. store_conditional addr p d h) rs2_eq rd_eq in
    elim (Bool-cases h.reservation_set_valid) [
      | inl valid ↦
          stored hs' valid
            (executed
              ∙ ap (λ (m : M Hart (Unit {0})). m h) (if_true _ valid)
              ∙ then-done (write_word addr (get_register x.s2 h))
                  (modify (set_register x.d 0) >> modify clear_reservation)
                  (on_mem-done (Manager.write_word basic_memory_handler addr (get_register x.s2 h))
                    h _ written.returns))
            written
      | inr invalid ↦
          refused invalid (executed ∙ ap (λ (m : M Hart (Unit {0})). m h) (if_false _ invalid))
    ]
