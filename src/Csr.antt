-- ===== src/Csr.antt =====
-- src/rv32/csr.hpp: the control and status registers, their bit fields, and access by address.
pub mod Address
use riscv32_emulator.Prelude.{ℕ}
use riscv32_emulator.BitField.{get_field, set_field}

-- A union of a word and its bit fields is the word.
pub record Csrs : Type 0 where
  pub cycle : ℕ
  pub cycleh : ℕ
  pub time : ℕ
  pub timeh : ℕ
  pub instret : ℕ
  pub instreth : ℕ
  pub sscratch : ℕ
  pub sepc : ℕ
  pub stval : ℕ
  pub sstatus : ℕ
  pub sie : ℕ
  pub stvec : ℕ
  pub scounteren : ℕ
  pub scause : ℕ
  pub sip : ℕ
  pub satp : ℕ

abbrev pub sstatus_mxr : Csrs → ℕ
sstatus_mxr c = get_field 19 19 c.sstatus

abbrev pub sstatus_sum : Csrs → ℕ
sstatus_sum c = get_field 18 18 c.sstatus

abbrev pub sstatus_spp : Csrs → ℕ
sstatus_spp c = get_field 8 8 c.sstatus

abbrev pub sstatus_spie : Csrs → ℕ
sstatus_spie c = get_field 5 5 c.sstatus

abbrev pub sstatus_sie : Csrs → ℕ
sstatus_sie c = get_field 1 1 c.sstatus

abbrev pub set_spp : ℕ → Csrs → Csrs
set_spp v c = record c { sstatus = set_field 32 8 8 c.sstatus v }

abbrev pub set_spie : ℕ → Csrs → Csrs
set_spie v c = record c { sstatus = set_field 32 5 5 c.sstatus v }

abbrev pub set_sie : ℕ → Csrs → Csrs
set_sie v c = record c { sstatus = set_field 32 1 1 c.sstatus v }

abbrev pub sie_ssie : Csrs → ℕ
sie_ssie c = get_field 1 1 c.sie

abbrev pub sie_stie : Csrs → ℕ
sie_stie c = get_field 5 5 c.sie

abbrev pub sie_seie : Csrs → ℕ
sie_seie c = get_field 9 9 c.sie

abbrev pub stvec_mode : Csrs → ℕ
stvec_mode c = get_field 0 1 c.stvec

abbrev pub stvec_base : Csrs → ℕ
stvec_base c = get_field 2 31 c.stvec

abbrev pub scounteren_cy : Csrs → ℕ
scounteren_cy c = get_field 0 0 c.scounteren

abbrev pub scounteren_tm : Csrs → ℕ
scounteren_tm c = get_field 1 1 c.scounteren

abbrev pub scounteren_ir : Csrs → ℕ
scounteren_ir c = get_field 2 2 c.scounteren

abbrev pub scause_interrupt : Csrs → ℕ
scause_interrupt c = get_field 31 31 c.scause

abbrev pub scause_exception_code : Csrs → ℕ
scause_exception_code c = get_field 0 30 c.scause

abbrev pub set_interrupt : ℕ → Csrs → Csrs
set_interrupt v c = record c { scause = set_field 32 31 31 c.scause v }

abbrev pub set_exception_code : ℕ → Csrs → Csrs
set_exception_code v c = record c { scause = set_field 32 0 30 c.scause v }

abbrev pub sip_ssip : Csrs → ℕ
sip_ssip c = get_field 1 1 c.sip

abbrev pub sip_stip : Csrs → ℕ
sip_stip c = get_field 5 5 c.sip

abbrev pub sip_seip : Csrs → ℕ
sip_seip c = get_field 9 9 c.sip

abbrev pub set_stip : ℕ → Csrs → Csrs
set_stip v c = record c { sip = set_field 32 5 5 c.sip v }

abbrev pub satp_ppn : Csrs → ℕ
satp_ppn c = get_field 0 21 c.satp

abbrev pub satp_mode : Csrs → ℕ
satp_mode c = get_field 31 31 c.satp
