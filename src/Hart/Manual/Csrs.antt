-- ===== src/Hart/Manual/Csrs.antt =====
-- The control and status registers as the manual numbers them, and the CSR instructions, against
-- src/rv32/csr.hpp and src/rv32/hart.cpp.
use riscv32_emulator.Prelude.{
  ℕ, ◌-◌, ◌/◌, ◌%◌, ◌^◌, ◌≡◌, ◌≢◌, refl, true, false, arith, bit_and, bit_or, some,
}
use riscv32_emulator.Outcome.{ok}
use riscv32_emulator.Csr.{Csrs}
use riscv32_emulator.Csr.Address.{
  CsrAddress, cycle, time, instret, sstatus, sie, stvec, scounteren, sscratch, sepc, scause, stval,
  sip, satp, cycleh, timeh, instreth, access_type, csr_address, read_csr, write_csr,
}
use riscv32_emulator.Decoder.Types.{Opcode, system, csrrw, csrrs, csrrc, csrrwi, csrrsi, csrrci}
use riscv32_emulator.Decoder.Classes.{type_of}
use riscv32_emulator.Decoder.Encode.{i, format_of}
use riscv32_emulator.Hart.System.{is_srw, is_uro, csr_value}

abbrev pub csr_number : CsrAddress → ℕ
csr_number sstatus = 0x100
csr_number sie = 0x104
csr_number stvec = 0x105
csr_number scounteren = 0x106
csr_number sscratch = 0x140
csr_number sepc = 0x141
csr_number scause = 0x142
csr_number stval = 0x143
csr_number sip = 0x144
csr_number satp = 0x180
csr_number cycle = 0xc00
csr_number time = 0xc01
csr_number instret = 0xc02
csr_number cycleh = 0xc80
csr_number timeh = 0xc81
csr_number instreth = 0xc82

-- The lowest mode that may access a number, 1 for the supervisor, and whether it is read-only (3).
abbrev pub lowest_mode : ℕ → ℕ
lowest_mode n = n / 2 ^ 8 % 4

abbrev pub access_bits : ℕ → ℕ
access_bits n = n / 2 ^ 10 % 4

-- The register of the name.
abbrev pub csr_field : CsrAddress → Csrs → ℕ
csr_field cycle c = c.cycle
csr_field cycleh c = c.cycleh
csr_field time c = c.time
csr_field timeh c = c.timeh
csr_field instret c = c.instret
csr_field instreth c = c.instreth
csr_field sscratch c = c.sscratch
csr_field sepc c = c.sepc
csr_field stval c = c.stval
csr_field sstatus c = c.sstatus
csr_field sie c = c.sie
csr_field stvec c = c.stvec
csr_field scounteren c = c.scounteren
csr_field scause c = c.scause
csr_field sip c = c.sip
csr_field satp c = c.satp

-- The new value from the old one, the value of `rs1` and the immediate in its place: written, or its
-- bits set, or its bits cleared.
abbrev pub csr_result : Opcode → ℕ → ℕ → ℕ → ℕ
csr_result csrrw old v imm = v
csr_result csrrs old v imm = bit_or old v
csr_result csrrc old v imm = bit_and old (2 ^ 32 - 1 - v)
csr_result csrrwi old v imm = imm
csr_result csrrsi old v imm = bit_or old imm
csr_result csrrci old v imm = bit_and old (2 ^ 32 - 1 - imm)
csr_result _ old v imm = 0

-- The six instructions that read and write a CSR.
pub record IsCsrInstruction (o : Opcode) : Type 0 where
  pub is_system : type_of o ≡ system
  pub has_immediate : format_of o ≡ i

pub csr_value-csr_result :
    (o : Opcode) (old v imm : ℕ)
    → IsCsrInstruction o
    → csr_value o old v imm ≡ some (csr_result o old v imm)
unfolding csr_value
csr_value-csr_result csrrw old v imm c = refl
csr_value-csr_result _ old v imm c = ground (arith, c.is_system, c.has_immediate)

pub csr_address-csr_number : (a : CsrAddress) → csr_address (csr_number a) ≡ ok a
unfolding csr_address
csr_address-csr_number cycle = refl
csr_address-csr_number _ = refl

pub read_csr-csr_field : (a : CsrAddress) (c : Csrs) → read_csr a c ≡ csr_field a c
unfolding read_csr
read_csr-csr_field cycle c = refl
read_csr-csr_field _ c = refl

pub not_read_only :
    (a : CsrAddress) → access_bits (csr_number a) ≢ 3 → is_uro (access_type a) ≡ false
unfolding access_type
not_read_only cycle n = ground arith
not_read_only _ n = ground arith

pub of_supervisor :
    (a : CsrAddress) → lowest_mode (csr_number a) ≡ 1 → is_srw (access_type a) ≡ true
unfolding access_type
of_supervisor cycle n = ground arith
of_supervisor _ n = ground arith

-- One register has the value, and all others are the same.
pub record IsCsrWritten (a : CsrAddress) (v : ℕ) (c c' : Csrs) : Type 0 where
  pub written : csr_field a c' ≡ v
  pub others : (b : CsrAddress) → b ≢ a → csr_field b c' ≡ csr_field b c

frame :
    (a b : CsrAddress) (v : ℕ) (c : Csrs) → b ≢ a → csr_field b (write_csr a v c) ≡ csr_field b c
unfolding write_csr
frame cycle cycle v c n = absurd (n refl)
frame _ _ v c n = ground arith

value : (a : CsrAddress) (v : ℕ) (c : Csrs) → csr_field a (write_csr a v c) ≡ v
unfolding write_csr
value cycle v c = refl
value _ v c = refl

pub write_csr-IsCsrWritten :
    (a : CsrAddress) (v : ℕ) (c : Csrs) → IsCsrWritten a v c (write_csr a v c)
write_csr-IsCsrWritten a v c = record { written = value a v c; others = λ b n. frame a b v c n }
