-- ===== src/Hart/Invariant/Atomics.antt =====
-- The case AMO of src/rv32/hart.cpp keeps the hart well-formed.
use riscv32_emulator.Prelude.{
  ℕ, Bool, true, false, IsU32, arith, ltb, Option, some, none, if_cases, if◌then◌else◌,
}
use riscv32_emulator.Prelude.Bits.{bit_and-lt, bit_or-lt, bit_xor-lt}
use riscv32_emulator.Outcome.{pure, modify, ◌>>◌, bind-Ensures}
use riscv32_emulator.Decoder.Types.{
  Opcode, lr_w, sc_w, amoswap_w, amoadd_w, amoxor_w, amoand_w, amoor_w, amomin_w, amomax_w,
  amominu_w, amomaxu_w,
}
use riscv32_emulator.Instruction.{rd, rs1, rs2}
use riscv32_emulator.Hart.State.{
  get_register, set_register, read_word, write_word, read, write, load_misaligned, load_page_fault,
  str_amo_misaligned, str_amo_page_fault,
}
use riscv32_emulator.Hart.Alu.{amo_value, signed_lt}
use riscv32_emulator.Hart.LoadStore.{amo_case, exec_amo, is_swap, is_lr}
use riscv32_emulator.Hart.Invariant.Values.{Each}
use riscv32_emulator.Hart.Invariant.Memory.{
  Keeps, pure-Keeps, modify-Keeps, set_register-Keeps, write_word-Keeps, read_word-Gives,
  aligned-Keeps, translated-Keeps, decoded-Keeps,
}

pub amo_value-lt : (o : Opcode) (a b : ℕ) → IsU32 a → IsU32 b → Each IsU32 (amo_value o a b)
unfolding amo_value
amo_value-lt amoswap_w a b ha hb = hb
amo_value-lt amoadd_w a b ha hb = omega arith
amo_value-lt amoxor_w a b ha hb = bit_xor-lt 32 a b ha hb
amo_value-lt amoand_w a b ha hb = bit_and-lt 32 a b ha
amo_value-lt amoor_w a b ha hb = bit_or-lt 32 a b ha hb
amo_value-lt amomin_w a b ha hb = if_cases IsU32 (signed_lt b a) hb ha
amo_value-lt amomax_w a b ha hb = if_cases IsU32 (signed_lt a b) hb ha
amo_value-lt amominu_w a b ha hb = if_cases IsU32 (ltb b a) hb ha
amo_value-lt amomaxu_w a b ha hb = if_cases IsU32 (ltb a b) hb ha
amo_value-lt _ a b ha hb = tt

reserve-Keeps : (b : Bool) → Keeps (modify (λ h. record h { reservation_set_valid = b }))
reserve-Keeps b = modify-Keeps _ λ h w. record {
  zero_reads = w.zero_reads;
  registers = w.registers;
  csrs = w.csrs;
  pc_word = w.pc_word;
  bytes = w.bytes;
}

swap-Keeps :
    (b : Bool) (i v : ℕ) → IsU32 v → Keeps (modify (if b then set_register i v else λ h. h))
swap-Keeps true i v hv = set_register-Keeps i v hv
swap-Keeps false i v hv = modify-Keeps _ (λ h w. w)

-- An operation on the word of memory, with its result if it has one.
operate-Keeps :
    (o : Opcode) (instr addr val : ℕ) (result : Option ℕ)
    → IsU32 val
    → Keeps (elim result [
      | some temp ↦ do
        modify (if is_swap o then set_register (rs2 instr) val else λ h. h)
        write_word addr temp
        modify (set_register (rd instr) val)
      | none ↦ pure tt
    ])
operate-Keeps o instr addr val none hv = pure-Keeps
operate-Keeps o instr addr val (some temp) hv =
    bind-Ensures (modify (if is_swap o then set_register (rs2 instr) val else λ h. h)) _
      (swap-Keeps (is_swap o) (rs2 instr) val hv)
      λ _ _.
        bind-Ensures (write_word addr temp) _ (write_word-Keeps addr temp)
          λ _ _. set_register-Keeps (rd instr) val hv

conditional-Keeps :
    (instr addr v : ℕ)
    → Keeps (do
      write_word addr v
      modify (set_register (rd instr) 0)
      modify (λ h'. record h' { reservation_set_valid = false }))
conditional-Keeps instr addr v = bind-Ensures (write_word addr v) _ (write_word-Keeps addr v) λ _ _.
    bind-Ensures (modify (set_register (rd instr) 0)) _
      (set_register-Keeps (rd instr) 0 (omega arith)) λ _ _. reserve-Keeps false

amo_case-Keeps : (o : Opcode) (instr addr val : ℕ) → IsU32 val → Keeps (amo_case o instr addr val)
unfolding amo_case
amo_case-Keeps lr_w instr addr val hv h w =
    bind-Ensures (modify (set_register (rd instr) val)) _ (set_register-Keeps (rd instr) val hv)
      (λ _ _. reserve-Keeps true) h w
amo_case-Keeps sc_w instr addr val hv h w =
    if_cases Keeps h.reservation_set_valid
      (conditional-Keeps instr addr (get_register (rs2 instr) h))
      (set_register-Keeps (rd instr) 1 (omega arith)) h w
amo_case-Keeps o instr addr val hv h w =
    operate-Keeps o instr addr val (amo_value o val (get_register (rs2 instr) h)) hv h w

pub exec_amo-Keeps : (fuel instr : ℕ) → Keeps (exec_amo fuel instr)
unfolding exec_amo get_register
exec_amo-Keeps fuel instr h w =
    decoded-Keeps instr _
      (λ o.
        aligned-Keeps 0b11 (get_register (rs1 instr) h)
          (if is_lr o then load_misaligned else str_amo_misaligned) _ (w.registers (rs1 instr))
          (translated-Keeps fuel (get_register (rs1 instr) h) (if is_lr o then read else write)
            (if is_lr o then load_page_fault else str_amo_page_fault) _ (w.registers (rs1 instr))
            λ at lt.
              bind-Ensures (read_word at) _ (read_word-Gives at)
                λ val hv. amo_case-Keeps o instr at val hv))
      h w
