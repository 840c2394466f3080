-- ===== src/Hart/WellFormed.antt =====
-- The invariant of the hart: register 0 reads as zero, and every register, CSR and `pc` of
-- src/rv32/hart.hpp and src/rv32/csr.hpp holds a `uint32_t`.
use riscv32_emulator.Prelude.{ℕ, ◌≡◌, IsU32, arith}
use riscv32_emulator.Csr.{Csrs}
use riscv32_emulator.Csr.Address.{CsrAddress, write_csr, read_csr, cycle}
use riscv32_emulator.Memory.Basic.{basic_memory_handler}
use riscv32_emulator.Memory.Manager.Bytes.{HoldsBytes}
use riscv32_emulator.Hart.State.{Hart, set_register}

-- Every CSR is a word.
pub record AreWords (c : Csrs) : Type 0 where
  pub cycle_word : IsU32 c.cycle
  pub cycleh_word : IsU32 c.cycleh
  pub time_word : IsU32 c.time
  pub timeh_word : IsU32 c.timeh
  pub instret_word : IsU32 c.instret
  pub instreth_word : IsU32 c.instreth
  pub sscratch_word : IsU32 c.sscratch
  pub sepc_word : IsU32 c.sepc
  pub stval_word : IsU32 c.stval
  pub sstatus_word : IsU32 c.sstatus
  pub sie_word : IsU32 c.sie
  pub stvec_word : IsU32 c.stvec
  pub scounteren_word : IsU32 c.scounteren
  pub scause_word : IsU32 c.scause
  pub sip_word : IsU32 c.sip
  pub satp_word : IsU32 c.satp

pub write_csr-AreWords :
    (a : CsrAddress) (v : ℕ) {c : Csrs} → IsU32 v → AreWords c → AreWords (write_csr a v c)
unfolding write_csr
write_csr-AreWords cycle v hv w = ground arith
write_csr-AreWords _ v hv w = ground arith

pub read_csr-lt : (a : CsrAddress) {c : Csrs} → AreWords c → IsU32 (read_csr a c)
unfolding read_csr
read_csr-lt cycle w = w.cycle_word
read_csr-lt _ w = omega arith

pub record IsWellFormed (h : Hart) : Type 0 where
  pub zero_reads : h.gpr 0 ≡ 0
  pub registers : (i : ℕ) → IsU32 (h.gpr i)
  pub csrs : AreWords h.csr
  pub pc_word : IsU32 h.pc
  pub bytes : HoldsBytes basic_memory_handler h.mem

pub set_register-IsWellFormed :
    (i v : ℕ) {h : Hart} → IsU32 v → IsWellFormed h → IsWellFormed (set_register i v h)
unfolding set_register
set_register-IsWellFormed i v {h} hv w = record {
  zero_reads = ground arith;
  registers = λ j. ground (arith, w.registers j);
  csrs = w.csrs;
  pc_word = w.pc_word;
  bytes = w.bytes;
}
