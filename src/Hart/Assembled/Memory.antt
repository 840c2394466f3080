-- ===== src/Hart/Assembled/Memory.antt =====
-- Assembled stores and loads, through the memory map (src/rv32/hart.cpp, src/mem_map_manager.cpp).
use riscv32_emulator.Prelude.{
  ℕ, ◌+◌, ◌%◌, ◌≡◌, ◌∙◌, ap, ap₂, refl, true, arith, u32, IsU32, Option, some, none, if_true,
  if_false, bit_and, not, ◌==◌, List,
}
use riscv32_emulator.Prelude.Bits.{bit_and_mask}
use riscv32_emulator.Outcome.{
  Result, ok, err, Outcome, done, fail, M, lift, modify, ◌>>=◌, ◌>>◌, then-done,
}
use riscv32_emulator.Instruction.{rs1, rs2, i_immediate, s_immediate}
use riscv32_emulator.Instruction.Formats.{extend, i_type-ReadsI, s_type-ReadsS}
use riscv32_emulator.Csr.{satp_mode}
use riscv32_emulator.Memory.Basic.{BasicMemory, basic_memory_handler}
use riscv32_emulator.Memory.Basic.Store.{basic_memory-IsByteStore}
use riscv32_emulator.Memory.Manager
use riscv32_emulator.Memory.Manager.{MemoryMapManager}
use riscv32_emulator.Memory.Manager.Access.{is_mapped, map_of}
use riscv32_emulator.Memory.Manager.RoundTrip.{IsWordWritten, write_word-IsWordWritten}
use riscv32_emulator.Decoder.{decode_opcode}
use riscv32_emulator.Decoder.Types.{load, store, lw, sw}
use riscv32_emulator.Decoder.Encode.{Operands, IsOperands, fields_of, assemble}
use riscv32_emulator.Decoder.RoundTrip.{decode_opcode-assemble, fields_of-IsFields}
use riscv32_emulator.Hart.State.{
  Hart, Memory, MemoryAccessType, read, write, ExceptionCode, load_page_fault, str_amo_page_fault,
  get_register, set_register, write_word, read_word, on_mem,
}
use riscv32_emulator.Hart.Translate.{translate_address}
use riscv32_emulator.Hart.LoadStore.{
  raise, load_case, store_case, exec_load, exec_store, translated, aligned,
}
use riscv32_emulator.Hart.Assembled.{exec-of, decoded}
use riscv32_emulator.Hart.Step.{exec_type, exec}

pub bare-translated :
    (fuel addr : ℕ) (access : MemoryAccessType) (fault : ExceptionCode) (k : ℕ → M Hart (Unit {0}))
    (h : Hart)
    → satp_mode h.csr ≡ 0
    → translated fuel addr access fault k h ≡ k addr h
unfolding translate_address
bare-translated fuel addr access fault k h e =
    ap
      (λ (r : Result (Option ℕ)). elim r [
        | ok none ↦ raise fault addr h
        | ok (some at) ↦ k at h
        | err x ↦ Outcome.fail x h
      ])
      (if_true {b = satp_mode h.csr == 0} _ (ground arith))

pub word_aligned :
    (addr : ℕ) (code : ExceptionCode) (k : M Hart (Unit {0})) (h : Hart)
    → addr % 4 ≡ 0
    → aligned 0b11 addr code k h ≡ k h
word_aligned addr code k h e =
    ap (λ (m : M Hart (Unit {0})). m h)
      (if_false {b = not (bit_and addr 0b11 == 0)} _ (ground (arith, bit_and_mask 2 addr)))

-- The address of a load or a store.
abbrev pub effective : Operands → Hart → ℕ
effective x h = u32 (get_register x.s1 h + extend 12 x.imm)

module _ (x : Operands) (fuel : ℕ) (h : Hart) (bare : satp_mode h.csr ≡ 0)
    (whole : effective x h % 4 ≡ 0) where
  exec-sw :
      IsOperands sw x
      → exec fuel (assemble sw x) h ≡ write_word (effective x h) (get_register x.s2 h) h
  unfolding exec_type exec_store store_case
  exec-sw fits =
      let w = assemble sw x in
      let e = decode_opcode-assemble sw x fits in
      let reads = s_type-ReadsS (fields_of sw x) (fields_of-IsFields sw x fits) fits.imm-lt in
      exec-of w sw e fuel store h refl
      ∙ bare-translated fuel (u32 (get_register (rs1 w) h + s_immediate w)) write str_amo_page_fault
          (λ addr. lift (decode_opcode w) >>= λ o. store_case o addr (get_register (rs2 w) h)) h
          bare
      ∙ decoded w sw e
          (λ o.
            store_case o (u32 (get_register (rs1 w) h + s_immediate w)) (get_register (rs2 w) h))
          h
      ∙ ap₂ (λ addr p. store_case sw addr (get_register p h) h)
          (ap₂ (λ p m. u32 (get_register p h + m)) reads.rs1_eq reads.imm_eq) reads.rs2_eq
      ∙ word_aligned (effective x h) _ _ h whole

  exec-lw :
      IsOperands lw x
      → exec fuel (assemble lw x) h
        ≡ (read_word (effective x h) >>= λ v. modify (set_register x.d v)) h
  unfolding exec_type exec_load load_case
  exec-lw fits =
      let w = assemble lw x in
      let e = decode_opcode-assemble lw x fits in
      let reads = i_type-ReadsI (fields_of lw x) (fields_of-IsFields lw x fits) fits.imm-lt in
      exec-of w lw e fuel load h refl
      ∙ bare-translated fuel (u32 (get_register (rs1 w) h + i_immediate w)) read load_page_fault
          (λ addr. lift (decode_opcode w) >>= λ o. load_case o w addr) h bare
      ∙ decoded w lw e (λ o. load_case o w (u32 (get_register (rs1 w) h + i_immediate w))) h
      ∙ ap (λ addr. load_case lw w addr h)
          (ap₂ (λ p m. u32 (get_register p h + m)) reads.rs1_eq reads.imm_eq)
      ∙ word_aligned (effective x h) _ _ h whole
      ∙ ap (λ d. (read_word (effective x h) >>= λ v. modify (set_register d v)) h) reads.rd_eq

-- A read that returns.
read_word-done :
    (m : Memory) (at d v : ℕ) (s : Hart)
    → s.mem ≡ m
    → Manager.read_word basic_memory_handler m at ≡ ok v
    → (read_word at >>= λ t. modify (set_register d t)) s ≡ done tt (set_register d v s)
read_word-done m at d v s e₀ e =
    ap (λ (r : Result ℕ). (lift r >>= λ t. modify (set_register d t)) s)
      (ap (λ n. Manager.read_word basic_memory_handler n at) e₀ ∙ e)

pub on_mem-done :
    (m : M Memory (Unit {0})) (h : Hart) (mem : Memory)
    → m h.mem ≡ done tt mem
    → on_mem m h ≡ done tt (record h { mem = mem })
on_mem-done m h mem e =
    ap
      (λ (o : Outcome Memory (Unit {0})). elim o [
        | done _ mem' ↦ Outcome.done tt (record h { mem = mem' })
        | fail x mem' ↦ Outcome.fail x (record h { mem = mem' })
      ])
      e

-- An assembled SW, and after it an assembled LW with the same base register and offset, without
-- translation and at an aligned address whose four bytes are mapped: both return, the register `d`
-- of the LW has the value that the register `s2` of the SW had, no byte of memory at another address
-- has changed, and nothing else has.
pub exec-sw-lw :
    (x y : Operands) (fuel : ℕ) (h : Hart)
    → IsOperands sw x
    → IsOperands lw y
    → y.s1 ≡ x.s1
    → y.imm ≡ x.imm
    → satp_mode h.csr ≡ 0
    → effective x h % 4 ≡ 0
    → IsU32 (get_register x.s2 h)
    → is_mapped basic_memory_handler h.mem.handlers (effective x h) ≡ true
    → is_mapped basic_memory_handler h.mem.handlers (u32 (effective x h + 1)) ≡ true
    → is_mapped basic_memory_handler h.mem.handlers (u32 (effective x h + 2)) ≡ true
    → is_mapped basic_memory_handler h.mem.handlers (u32 (effective x h + 3)) ≡ true
    → (hs' : List BasicMemory) × ((exec fuel (assemble sw x) >> exec fuel (assemble lw y)) h
        ≡ done tt (
            set_register y.d
              (get_register x.s2 h)
              (record h { mem = map_of basic_memory_handler hs' })))
      × IsWordWritten basic_memory_handler basic_memory-IsByteStore h.mem.handlers hs'
          (effective x h)
          (get_register x.s2 h)
unfolding get_register
exec-sw-lw x y fuel h fx fy es ei bare whole word m₀ m₁ m₂ m₃ =
    let (hs', w) =
      write_word-IsWordWritten basic_memory_handler basic_memory-IsByteStore h.mem.handlers
        (effective x h) (get_register x.s2 h) (omega arith) word m₀ m₁ m₂ m₃ in
    let h' = record h { mem = map_of basic_memory_handler hs' } in
    let same = ap₂ (λ p m. u32 (get_register p h + extend 12 m)) es ei in
    (
      hs',
      then-done (exec fuel (assemble sw x)) (exec fuel (assemble lw y)) (
            exec-sw x fuel h bare whole fx
            ∙ on_mem-done
                (Manager.write_word basic_memory_handler (effective x h) (get_register x.s2 h)) h _
                w.returns)
          ∙ exec-lw y fuel h' bare (ap (λ t. t % 4) same ∙ whole) fy
          ∙ read_word-done (map_of basic_memory_handler hs') (effective y h') y.d
              (get_register x.s2 h) h' refl
              (ap (Manager.read_word basic_memory_handler (map_of basic_memory_handler hs')) same
                ∙ w.reads_back),
      w,
    )
