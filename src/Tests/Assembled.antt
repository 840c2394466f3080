-- ===== src/Tests/Assembled.antt =====
-- The theorems about assembled instructions, at a machine without translation that has
-- `add x3, x1, x2`, `beq x1, x1, 8` and a word that is no instruction from the address 0 on.
use riscv32_emulator.Prelude.{ℕ, ◌≡◌, refl, true, false, List, [], ◌∷◌, switch, arith}
use riscv32_emulator.BitField.Defs.{get_field}
use riscv32_emulator.Outcome.{ok, err, done, fail, throws, unknown_instruction_type, ◌>>◌}
use riscv32_emulator.Instruction.{opcode}
use riscv32_emulator.Decoder.{decode_opcode, decode_instruction_type}
use riscv32_emulator.Decoder.Types.{add, addi, beq, jal, jalr, sw, lw, amoswap_w, sc_w, branch}
use riscv32_emulator.Decoder.Classes.{decode_opcode-type_of}
use riscv32_emulator.Decoder.Encode.{Operands, IsOperands, assemble}
use riscv32_emulator.Decoder.RoundTrip.{decode_opcode-assemble}
use riscv32_emulator.Memory.Basic
use riscv32_emulator.Memory.Basic.{BasicMemory, basic_memory_handler}
use riscv32_emulator.Memory.Basic.Store.{basic_memory-IsByteStore}
use riscv32_emulator.Memory.Manager
use riscv32_emulator.Memory.Manager.{get_handler}
use riscv32_emulator.Memory.Manager.Access.{map_of}
use riscv32_emulator.Memory.Manager.RoundTrip.{IsWordWritten}
use riscv32_emulator.Hart.State.{Hart, get_register, set_register}
use riscv32_emulator.Hart.Trap.{pending_interrupt}
use riscv32_emulator.Hart.Translate.{translate_address}
use riscv32_emulator.Hart.Manual.{with_rd}
use riscv32_emulator.Hart.Control.{jump_to}
use riscv32_emulator.Hart.Counters.{increment_counters}
use riscv32_emulator.Hart.Step.{exec, step_instruction}
use riscv32_emulator.Hart.Assembled.Arithmetic.{exec-op_imm}
use riscv32_emulator.Hart.Assembled.Memory.{exec-sw-lw}
use riscv32_emulator.Hart.Assembled.Atomics.{IsReadModifyWrite, exec-read_modify_write}
use riscv32_emulator.Hart.Assembled.Reserved.{ScEnds, exec-sc}
use riscv32_emulator.Hart.Assembled.Jumps.{exec-jal, exec-jalr}
use riscv32_emulator.Hart.Assembled.Fetch.{IsFetched, executing}
use riscv32_emulator.Hart.Assembled.Steps.{step-op, step-branch, step-undecoded}
use riscv32_emulator.Tests.Demo.{machine, csrs}

abbrev code_bytes : ℕ → ℕ
code_bytes i =
    switch i
      ((0x0, 0xb3)
        ∷ (0x1, 0x81)
        ∷ (0x2, 0x20)
        ∷ (0x4, 0x63)
        ∷ (0x5, 0x84)
        ∷ (0x6, 0x10)
        ∷ (0x8, 0xff)
        ∷ (0x9, 0xff)
        ∷ (0xa, 0xff)
        ∷ (0xb, 0xff)
        ∷ [])
      0

abbrev code_memory : BasicMemory
code_memory = record { base = 0; region_size = 0x1000; memory_array = code_bytes }

-- The machine at an address of its code, with x1 = 0x100 and 7 elsewhere.
abbrev at_code : ℕ → Hart
at_code pc = record machine {
  mem = record { handlers = code_memory ∷ [] };
  csr = record csrs { satp = 0 };
  gpr = λ i. switch i ((0, 0) ∷ (1, 0x100) ∷ []) 7;
  pc = pc;
}

abbrev add_operands : Operands
add_operands = record { d = 3; s1 = 1; s2 = 2; imm = 0; aqrl = 0 }

abbrev beq_operands : Operands
beq_operands = record { d = 0; s1 = 1; s2 = 1; imm = 8; aqrl = 0 }

add_operands-IsOperands : IsOperands add add_operands
add_operands-IsOperands = omega arith

beq_operands-IsOperands : IsOperands beq beq_operands
beq_operands-IsOperands = omega arith

add-IsFetched : IsFetched 0 (at_code 0) (assemble add add_operands)
unfolding pending_interrupt translate_address get_field Manager.read_word Manager.read_halfword
    Manager.read_byte get_handler Basic.read_byte
add-IsFetched = record {
  begins = record { aligned_pc = refl; no_interrupt = refl };
  has_word = record { at = 0; address = refl; word = refl };
}

step-op_example :
    step_instruction 0 1050 (at_code 0)
    ≡ done tt
        (increment_counters 1050 (record (executing (with_rd 3 0x107 (at_code 0))) { pc = 4 }))
step-op_example =
    step-op 0 1050 (at_code 0) add add_operands refl add_operands-IsOperands (omega arith)
      (omega arith) add-IsFetched

beq-IsFetched : IsFetched 0 (at_code 4) (assemble beq beq_operands)
unfolding pending_interrupt translate_address get_field Manager.read_word Manager.read_halfword
    Manager.read_byte get_handler Basic.read_byte
beq-IsFetched = record {
  begins = record { aligned_pc = refl; no_interrupt = refl };
  has_word = record { at = 4; address = refl; word = refl };
}

step-branch_example :
    step_instruction 0 1050 (at_code 4)
    ≡ done tt
        (increment_counters 1050 (record (at_code 4) { pc = 12; should_increment_pc = false }))
step-branch_example =
    step-branch 0 1050 (at_code 4) beq beq_operands refl beq_operands-IsOperands (omega arith)
      (omega arith) beq-IsFetched

unknown-IsFetched : IsFetched 0 (at_code 8) 0xffffffff
unfolding pending_interrupt translate_address get_field Manager.read_word Manager.read_halfword
    Manager.read_byte get_handler Basic.read_byte
unknown-IsFetched = record {
  begins = record { aligned_pc = refl; no_interrupt = refl };
  has_word = record { at = 8; address = refl; word = refl };
}

unknown_word :
    decode_instruction_type 0xffffffff ≡ err (throws (unknown_instruction_type 0xffffffff))
unfolding decode_instruction_type opcode get_field
unknown_word = refl

step-undecoded_example :
    step_instruction 0 1050 (at_code 8)
    ≡ fail (throws (unknown_instruction_type 0xffffffff)) (executing (at_code 8))
step-undecoded_example =
    step-undecoded 0 1050 (at_code 8) 0xffffffff _ unknown-IsFetched unknown_word

decode_opcode-assemble_example : decode_opcode 0x108463 ≡ ok beq
decode_opcode-assemble_example = decode_opcode-assemble beq beq_operands beq_operands-IsOperands

decode_opcode-type_of_example : decode_instruction_type 0x108463 ≡ ok branch
decode_opcode-type_of_example =
    decode_opcode-type_of 0x108463 beq
      (decode_opcode-assemble beq beq_operands beq_operands-IsOperands)

abbrev jump_operands : Operands
jump_operands = record { d = 1; s1 = 1; s2 = 0; imm = 0x7fe; aqrl = 0 }

exec-op_imm_example :
    exec 0 (assemble addi jump_operands) (at_code 0) ≡ done tt (with_rd 1 0x8fe (at_code 0))
exec-op_imm_example = exec-op_imm addi jump_operands (omega arith) 0 (at_code 0) refl (omega arith)

exec-jal_example :
    exec 0 (assemble jal jump_operands) (at_code 4)
    ≡ done tt (jump_to 0x802 (set_register 1 8 (at_code 4)))
exec-jal_example = exec-jal jump_operands 0 (at_code 4) (omega arith)

exec-jalr_example :
    exec 0 (assemble jalr jump_operands) (at_code 4)
    ≡ done tt (jump_to 0x8fe (set_register 1 8 (at_code 4)))
unfolding get_register
exec-jalr_example = exec-jalr jump_operands 0 (at_code 4) (omega arith)

abbrev sw_operands : Operands
sw_operands = record { d = 0; s1 = 1; s2 = 2; imm = 0x10; aqrl = 0 }

abbrev lw_operands : Operands
lw_operands = record { d = 5; s1 = 1; s2 = 0; imm = 0x10; aqrl = 0 }

exec-sw-lw_example :
    (hs' : List BasicMemory) × ((exec 0 (assemble sw sw_operands)
          >> exec 0 (assemble lw lw_operands))
        (at_code 0)
      ≡ done tt (set_register 5 7 (record (at_code 0) { mem = map_of basic_memory_handler hs' })))
    × IsWordWritten basic_memory_handler basic_memory-IsByteStore (code_memory ∷ []) hs' 0x110 7
unfolding get_register get_field
exec-sw-lw_example =
    exec-sw-lw sw_operands lw_operands 0 (at_code 0) (omega arith) (omega arith) refl refl refl refl
      (omega arith) refl refl refl refl

abbrev swap_operands : Operands
swap_operands = record { d = 4; s1 = 1; s2 = 2; imm = 0; aqrl = 3 }

amoswap-IsReadModifyWrite : IsReadModifyWrite amoswap_w
amoswap-IsReadModifyWrite = record { is_amo = refl; not_lr = cc; not_sc = cc }

exec-read_modify_write_example :
    (hs' : List BasicMemory) × (exec 0 (assemble amoswap_w swap_operands) (at_code 0)
      ≡ done tt (
          with_rd 4 0 (record (with_rd 2 0 (at_code 0)) { mem = map_of basic_memory_handler hs' })))
    × IsWordWritten basic_memory_handler basic_memory-IsByteStore (code_memory ∷ []) hs' 0x100 7
unfolding get_field Manager.read_word Manager.read_halfword Manager.read_byte get_handler
    Basic.read_byte
exec-read_modify_write_example =
    exec-read_modify_write amoswap_w swap_operands 0 (at_code 0) amoswap-IsReadModifyWrite
      (omega arith) 0 refl refl (omega arith) (omega arith) refl refl refl refl refl

-- The word at 0x100 becomes 7, after a LR.W somewhere.
abbrev reserved : Hart
reserved = record (at_code 0) { reservation_set_valid = true }

exec-sc_example : ScEnds swap_operands reserved (exec 0 (assemble sc_w swap_operands) reserved)
unfolding get_register get_field Manager.read_word Manager.read_halfword Manager.read_byte
    get_handler Basic.read_byte
exec-sc_example =
    exec-sc swap_operands 0 reserved 0 (omega arith) refl refl (omega arith) (omega arith) refl refl
      refl refl refl
