-- ===== src/Hart/Assembled/Fetch.antt =====
-- The fetch of `stepInstruction` in src/rv32/hart.cpp, and the rest of the step after it.
use riscv32_emulator.Prelude.{
  ℕ, ◌%◌, ◌≡◌, ◌∙◌, ap, refl, true, not, ◌&&◌, ◌||◌, ◌==◌, bit_and, arith, Option, some, none,
  if_false, if_cases,
}
use riscv32_emulator.Prelude.Bits.{bit_and_mask}
use riscv32_emulator.Outcome.{
  Result, ok, Outcome, done, fail, M, lift, modify, pure, ◌>>=◌, ◌>>◌, throws, handler_page_fault,
}
use riscv32_emulator.Memory.Basic.{basic_memory_handler}
use riscv32_emulator.Memory.Manager
use riscv32_emulator.Csr.{sstatus_sie}
use riscv32_emulator.Hart.State.{Hart, execute, instr_page_fault, get, read_word}
use riscv32_emulator.Hart.Trap.{
  handle_exception, handle_interrupts, pending_interrupt, take_interrupt,
}
use riscv32_emulator.Hart.Translate.{translate_address}
use riscv32_emulator.Hart.LoadStore.{raise}
use riscv32_emulator.Hart.Counters.{increment_counters}
use riscv32_emulator.Hart.Step.{check_alignment, fetch_address, exec, advance_pc, step_instruction}

-- The step of `h` begins where `pc` is, aligned and with no enabled interrupt pending.
pub record BeginsAtPc (h : Hart) : Type 0 where
  pub aligned_pc : h.pc % 4 ≡ 0
  pub no_interrupt : pending_interrupt h.csr ≡ none

-- `pc` of `h` translates to an address where memory has the word `w`.
pub record HasWord (fuel : ℕ) (h : Hart) (w : ℕ) : Type 0 where
  pub at : ℕ
  pub address : translate_address fuel h.pc execute h ≡ ok (some at)
  pub word : Manager.read_word basic_memory_handler h.mem at ≡ ok w

-- The step of `h` fetches the word `w`.
pub record IsFetched (fuel : ℕ) (h : Hart) (w : ℕ) : Type 0 where
  pub begins : BeginsAtPc h
  pub has_word : HasWord fuel h w

-- The hart that executes the word.
abbrev pub executing : Hart → Hart
executing h = record h { should_increment_pc = true }

-- The word is executed, `pc` moves on unless the instruction says otherwise, and the counters do.
abbrev pub finish : ℕ → Outcome Hart (Unit {0}) → Outcome Hart (Unit {0})
finish now (done _ h') = done tt (increment_counters now (advance_pc h'))
finish now (fail e h') = fail e h'

finish-eq :
    (now : ℕ) (o : Outcome Hart (Unit {0}))
    → (elim o [
      | done _ h' ↦ (modify advance_pc >> modify (increment_counters now)) h'
      | fail e h' ↦ fail e h'
    ])
      ≡ finish now o
finish-eq now (done _ h') = refl
finish-eq now (fail e h') = refl

-- The two tries of a fetch, from what the translations give.
abbrev second_try : Result (Option ℕ) → M Hart ℕ
second_try r = lift r >>= λ t'. elim t' as (λ _. M Hart ℕ) [
  | some at ↦ pure at
  | none ↦ λ h''. fail (throws handler_page_fault) h''
]

abbrev first_try : ℕ → Hart → Result (Option ℕ) → M Hart ℕ
first_try fuel h r = lift r >>= λ t. elim t as (λ _. M Hart ℕ) [
  | some at ↦ pure at
  | none ↦ do
    raise instr_page_fault h.pc
    h' ← get
    t' ← lift (translate_address fuel h'.pc execute h')
    elim t' [ some at ↦ pure at | none ↦ λ h''. fail (throws handler_page_fault) h'' ]
]

module _ (fuel now : ℕ) where
  -- The rest of a step, from the execution of a word, and from its address.
  abbrev run_word : ℕ → M Hart (Unit {0})
  run_word instr =
      modify executing
      >> (exec fuel instr >> (modify advance_pc >> modify (increment_counters now)))

  abbrev run_at : ℕ → M Hart (Unit {0})
  run_at at = read_word at >>= run_word

  abbrev after_fetch : Outcome Hart ℕ → Outcome Hart (Unit {0})
  after_fetch (done at s) = run_at at s
  after_fetch (fail e s) = fail e s

  step-eq :
      (h s : Hart)
      → handle_interrupts (check_alignment h) ≡ s
      → step_instruction fuel now h ≡ after_fetch (fetch_address fuel s)
  unfolding step_instruction
  step-eq h s e = ap (λ s'. (fetch_address fuel >>= run_at) s') e ∙ opened (fetch_address fuel s)
    where
      opened :
          (o : Outcome Hart ℕ)
          → (elim o [ done at s ↦ run_at at s | fail e s ↦ fail e s ]) ≡ after_fetch o
      opened (done at s) = refl
      opened (fail e s) = refl

  first-eq :
      (h : Hart) → fetch_address fuel h ≡ first_try fuel h (translate_address fuel h.pc execute h) h
  unfolding fetch_address
  first-eq h = refl

  word-eq :
      (s : Hart) (at w : ℕ)
      → Manager.read_word basic_memory_handler s.mem at ≡ ok w
      → run_at at s ≡ finish now (exec fuel w (executing s))
  word-eq s at w e =
      ap (λ (r : Result ℕ). (lift r >>= run_word) s) e ∙ finish-eq now (exec fuel w (executing s))

  -- A step executes the word at `pc` of the hart after the alignment and the interrupts.
  pub step-word :
      (h s : Hart) (w : ℕ)
      → handle_interrupts (check_alignment h) ≡ s
      → HasWord fuel s w
      → step_instruction fuel now h ≡ finish now (exec fuel w (executing s))
  step-word h s w e f =
      step-eq h s e
      ∙ ap after_fetch (first-eq s ∙ ap (λ r. first_try fuel s r s) f.address)
      ∙ word-eq s f.at w f.word

pub check_alignment-aligned : (h : Hart) → h.pc % 4 ≡ 0 → check_alignment h ≡ h
unfolding check_alignment
check_alignment-aligned h aligned_pc =
    if_false {b = not (bit_and h.pc 0b11 == 0)} _ (ground (arith, bit_and_mask 2 h.pc))

module _ (fuel now : ℕ) (h : Hart) (begins : BeginsAtPc h) where
  quiet-eq : handle_interrupts h ≡ h
  unfolding handle_interrupts
  quiet-eq =
      if_cases (λ s. s ≡ h) (not h.supervisor_mode || (h.supervisor_mode && sstatus_sie h.csr == 1))
        (ap (λ (c : Option ℕ). elim c [ some cause ↦ take_interrupt cause h | none ↦ h ])
          begins.no_interrupt)
        refl

  begins-eq : handle_interrupts (check_alignment h) ≡ h
  begins-eq = ap handle_interrupts (check_alignment-aligned h begins.aligned_pc) ∙ quiet-eq

  pub step-fetched :
      (w : ℕ)
      → HasWord fuel h w
      → step_instruction fuel now h ≡ finish now (exec fuel w (executing h))
  step-fetched w f = step-word fuel now h h w begins-eq f

  -- A step that begins at an aligned `pc` that does not translate, with no interrupt to take, where the
  -- address of the handler does translate and memory has a word there: the page fault is raised, and
  -- the step executes the word of the handler.
  pub step-fault :
      (w : ℕ)
      → translate_address fuel h.pc execute h ≡ ok none
      → HasWord fuel (handle_exception instr_page_fault h.pc h) w
      → step_instruction fuel now h
        ≡ finish now (exec fuel w (executing (handle_exception instr_page_fault h.pc h)))
  step-fault w none_there f =
      let s = handle_exception instr_page_fault h.pc h in
      step-eq fuel now h h begins-eq
      ∙ ap (after_fetch fuel now) (
          first-eq fuel now h
          ∙ ap (λ r. first_try fuel h r h) none_there
          ∙ ap (λ r. second_try r s) f.address)
      ∙ word-eq fuel now s f.at w f.word

  -- Where the address of the handler does not translate either, the step ends with an exception of
  -- the emulator, at the handler.
  pub step-double_fault :
      translate_address fuel h.pc execute h ≡ ok none
      → (let s = handle_exception instr_page_fault h.pc h in
          translate_address fuel s.pc execute s ≡ ok none)
      → step_instruction fuel now h
        ≡ fail (throws handler_page_fault) (handle_exception instr_page_fault h.pc h)
  step-double_fault none_there none_again =
      let s = handle_exception instr_page_fault h.pc h in
      step-eq fuel now h h begins-eq
      ∙ ap (after_fetch fuel now) (
          first-eq fuel now h
          ∙ ap (λ r. first_try fuel h r h) none_there
          ∙ ap (λ r. second_try r s) none_again)
