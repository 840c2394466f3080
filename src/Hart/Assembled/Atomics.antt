-- ===== src/Hart/Assembled/Atomics.antt =====
-- Assembled atomic operations of the case AMO of src/rv32/hart.cpp.
use riscv32_emulator.Prelude.{
  ℕ, ◌+◌, ◌%◌, ◌≡◌, ◌≢◌, ◌∙◌, ap, ap₂, refl, subst, true, arith, u32, IsU32, Option, some, none,
  if◌then◌else◌, List,
}
use riscv32_emulator.Outcome.{
  Result, ok, Outcome, done, M, lift, modify, pure, ◌>>=◌, ◌>>◌, then-done,
}
use riscv32_emulator.Instruction.{rd, rs1, rs2}
use riscv32_emulator.Instruction.Formats.{r_type-ReadsR}
use riscv32_emulator.Csr.{satp_mode}
use riscv32_emulator.Memory.Basic.{BasicMemory, basic_memory_handler}
use riscv32_emulator.Memory.Basic.Store.{basic_memory-IsByteStore}
use riscv32_emulator.Memory.Manager
use riscv32_emulator.Memory.Manager.Access.{is_mapped, map_of}
use riscv32_emulator.Memory.Manager.RoundTrip.{IsWordWritten, write_word-IsWordWritten}
use riscv32_emulator.Decoder.Types.{amo, Opcode, add, lr_w, sc_w, amoswap_w}
use riscv32_emulator.Decoder.Classes.{type_of}
use riscv32_emulator.Decoder.Encode.{
  r, format_of, rs2_of, word_of, Operands, IsOperands, fields_of, assemble,
}
use riscv32_emulator.Decoder.RoundTrip.{decode_opcode-assemble, fields_of-IsFields}
use riscv32_emulator.Hart.State.{
  Hart, read, write, load_misaligned, str_amo_misaligned, load_page_fault, str_amo_page_fault,
  get_register, set_register, write_word, read_word,
}
use riscv32_emulator.Hart.Alu.{amo_value}
use riscv32_emulator.Hart.LoadStore.{amo_case, exec_amo, is_lr, is_swap, translated, aligned}
use riscv32_emulator.Hart.Manual.{with_rd, amo_result}
use riscv32_emulator.Hart.Manual.Values.{set_register-with_rd}
use riscv32_emulator.Hart.Manual.Atomics.{amo_value-amo_result}
use riscv32_emulator.Hart.Invariant.Atomics.{amo_value-lt}
use riscv32_emulator.Hart.Invariant.Values.{Each}
use riscv32_emulator.Memory.Manager.Words.{read_word-lt}
use riscv32_emulator.Hart.Assembled.{exec-of, decoded}
use riscv32_emulator.Hart.Assembled.Memory.{bare-translated, word_aligned, on_mem-done}
use riscv32_emulator.Hart.Step.{exec_type, exec}

-- The operations that read, compute and write.
pub record IsReadModifyWrite (o : Opcode) : Type 0 where
  pub is_amo : type_of o ≡ amo
  pub not_lr : o ≢ lr_w
  pub not_sc : o ≢ sc_w

amo-format : (o : Opcode) → type_of o ≡ amo → format_of o ≡ r
amo-format add t = refl
amo-format _ t = ground arith

amo-rs2 : (o : Opcode) (s2 : ℕ) → type_of o ≡ amo → rs2_of o s2 ≡ s2
amo-rs2 add s2 t = refl
amo-rs2 _ s2 t = ground arith

-- The write-back to `rs2` in the source.
abbrev write_back : Opcode → ℕ → ℕ → Hart → Hart
write_back o s2 old = if is_swap o then set_register s2 old else λ h. h

-- An AMOSWAP, and no other operation, gives the old word to `rs2` too.
abbrev pub swapped : Opcode → ℕ → ℕ → Hart → Hart
swapped amoswap_w s2 old h = with_rd s2 old h
swapped _ s2 old h = h

-- The last case of `amo_case`.
abbrev modify_word : Opcode → ℕ → ℕ → ℕ → Option ℕ → M Hart (Unit {0})
modify_word o w addr val (some temp) = do
  modify (write_back o (rs2 w) val)
  write_word addr temp
  modify (set_register (rd w) val)
modify_word o w addr val none = pure tt

amo_case-eq :
    (o : Opcode) (w addr val : ℕ) (h : Hart)
    → IsReadModifyWrite o
    → amo_case o w addr val h
      ≡ modify_word o w addr val (amo_value o val (get_register (rs2 w) h)) h
unfolding amo_case amo_value
amo_case-eq lr_w w addr val h t = absurd (t.not_lr refl)
amo_case-eq sc_w w addr val h t = absurd (t.not_sc refl)
amo_case-eq _ w addr val h t = refl

write_back-swapped :
    (o : Opcode) (s2 old : ℕ) (h : Hart) → write_back o s2 old h ≡ swapped o s2 old h
write_back-swapped amoswap_w s2 old h = set_register-with_rd s2 old h
write_back-swapped _ s2 old h = refl

swapped-mem : (o : Opcode) (s2 old : ℕ) (h : Hart) → (swapped o s2 old h).mem ≡ h.mem
swapped-mem amoswap_w s2 old h = refl
swapped-mem _ s2 old h = refl

amo_result-lt :
    (o : Opcode) (old b : ℕ)
    → IsReadModifyWrite o
    → IsU32 old
    → IsU32 b
    → IsU32 (amo_result o old b)
amo_result-lt o old b t ho hb =
    subst (Each IsU32) (amo_value-amo_result o old b ho hb t.is_amo t.not_lr t.not_sc)
      (amo_value-lt o old b ho hb)

module _ (o : Opcode) (x : Operands) (fuel : ℕ) (h : Hart) (t : type_of o ≡ amo)
    (fits : IsOperands o x) where
  pub exec-amo :
      satp_mode h.csr ≡ 0
      → get_register x.s1 h % 4 ≡ 0
      → exec fuel (assemble o x) h
        ≡ (read_word (get_register x.s1 h) >>= λ val.
              amo_case o (assemble o x) (get_register x.s1 h) val)
            h
  unfolding exec_type exec_amo
  exec-amo bare whole =
      let w = assemble o x in
      let e = decode_opcode-assemble o x fits in
      let reads = r_type-ReadsR (fields_of o x) (fields_of-IsFields o x fits) in
      let is_r = ap (λ fm. word_of fm (fields_of o x)) (amo-format o t) in
      let addr_eq = ap (λ p. get_register p h) (ap rs1 is_r ∙ reads.rs1_eq) in
      exec-of w o e fuel amo h t
      ∙ decoded w o e
          (λ o'.
            aligned 0b11 (get_register (rs1 w) h)
              (if is_lr o' then load_misaligned else str_amo_misaligned)
              (translated fuel (get_register (rs1 w) h) (if is_lr o' then read else write)
                (if is_lr o' then load_page_fault else str_amo_page_fault)
                λ at. read_word at >>= λ val. amo_case o' w at val))
          h
      ∙ word_aligned (get_register (rs1 w) h) _ _ h (ap (λ a. a % 4) addr_eq ∙ whole)
      ∙ bare-translated fuel (get_register (rs1 w) h) _ _
          (λ at. read_word at >>= λ val. amo_case o w at val) h bare
      ∙ ap (λ a. (read_word a >>= λ val. amo_case o w a val) h) addr_eq

  pub amo-reads : (rs2 (assemble o x) ≡ x.s2) × (rd (assemble o x) ≡ x.d)
  amo-reads =
      let reads = r_type-ReadsR (fields_of o x) (fields_of-IsFields o x fits) in
      let is_r = ap (λ fm. word_of fm (fields_of o x)) (amo-format o t) in
      (ap rs2 is_r ∙ reads.rs2_eq ∙ amo-rs2 o x.s2 t, ap rd is_r ∙ reads.rd_eq)

module _ (o : Opcode) (x : Operands) (fuel : ℕ) (h : Hart) (t : IsReadModifyWrite o)
    (fits : IsOperands o x) where
  -- An assembled AMO other than LR and SC, without translation, at an aligned address that is mapped
  -- and holds the word `old`, on registers with words: it returns, memory holds at the address the
  -- value of the manual for `old` and the register `s2`, no byte at another address has changed, and
  -- the register `d` has `old`. After an AMOSWAP the register `s2` has `old` too, unless it is `d` or 0;
  -- nothing else changes.
  pub exec-read_modify_write :
      (old : ℕ)
      → satp_mode h.csr ≡ 0
      → h.gpr x.s1 % 4 ≡ 0
      → IsU32 (h.gpr x.s1)
      → IsU32 (h.gpr x.s2)
      → Manager.read_word basic_memory_handler h.mem (h.gpr x.s1) ≡ ok old
      → is_mapped basic_memory_handler h.mem.handlers (h.gpr x.s1) ≡ true
      → is_mapped basic_memory_handler h.mem.handlers (u32 (h.gpr x.s1 + 1)) ≡ true
      → is_mapped basic_memory_handler h.mem.handlers (u32 (h.gpr x.s1 + 2)) ≡ true
      → is_mapped basic_memory_handler h.mem.handlers (u32 (h.gpr x.s1 + 3)) ≡ true
      → (hs' : List BasicMemory) × (exec fuel (assemble o x) h
          ≡ done tt (
              with_rd x.d old
                (record (swapped o x.s2 old h) { mem = map_of basic_memory_handler hs' })))
        × IsWordWritten basic_memory_handler basic_memory-IsByteStore h.mem.handlers hs'
            (h.gpr x.s1)
            (amo_result o old (h.gpr x.s2))
  unfolding get_register
  exec-read_modify_write old bare whole word word₂ e_old m₀ m₁ m₂ m₃ =
      let w = assemble o x in
      let addr = h.gpr x.s1 in
      let new = amo_result o old (h.gpr x.s2) in
      let old_word = read_word-lt basic_memory_handler h.mem addr old e_old in
      let (rs2_eq, rd_eq) = amo-reads o x fuel h t.is_amo fits in
      let (hs', written) =
        write_word-IsWordWritten basic_memory_handler basic_memory-IsByteStore h.mem.handlers addr
          new word (amo_result-lt o old (h.gpr x.s2) t old_word word₂) m₀ m₁ m₂ m₃ in
      (
        hs',
        exec-amo o x fuel h t.is_amo fits bare whole
            ∙ ap (λ (q : Result ℕ). (lift q >>= λ val. amo_case o w addr val) h) e_old
            ∙ amo_case-eq o w addr old h t
            ∙ ap (λ n. modify_word o w addr old n h)
                (ap (λ p. amo_value o old (h.gpr p)) rs2_eq
                  ∙ amo_value-amo_result o old (h.gpr x.s2) old_word word₂ t.is_amo t.not_lr
                      t.not_sc)
            ∙ ap₂
                (λ p q.
                  (modify (write_back o p old)
                      >> (write_word addr new >> modify (set_register q old)))
                    h)
                rs2_eq rd_eq
            ∙ ap (λ s. (write_word addr new >> modify (set_register x.d old)) s)
                (write_back-swapped o x.s2 old h)
            ∙ then-done (write_word addr new) (modify (set_register x.d old)) (
                on_mem-done (Manager.write_word basic_memory_handler addr new)
                  (swapped o x.s2 old h) _
                  (ap (Manager.write_word basic_memory_handler addr new) (swapped-mem o x.s2 old h)
                    ∙ written.returns))
            ∙ ap (Outcome.done tt) (set_register-with_rd x.d old _),
        written,
      )
