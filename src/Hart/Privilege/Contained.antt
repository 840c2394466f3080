-- ===== src/Hart/Privilege/Contained.antt =====
-- What user mode may change: the two ways an instruction of src/rv32/hart.cpp may end there.
use riscv32_emulator.Hart.Trap.Return.{IsReturned}
use riscv32_emulator.Prelude.{
  ◌⊎◌, inl, ℕ, ◌≡◌, refl, ◌∙◌, ap, arith, ◌<<<◌, u32, true, false, IsU32, Option, some, none,
}
use riscv32_emulator.Outcome.{Outcome, M, Ends, returns, fails, Any}
use riscv32_emulator.BitField.{get_field, set_field}
use riscv32_emulator.BitField.Fields.{get_field-set_field_self}
use riscv32_emulator.Csr.{Csrs, sstatus_spp, stvec_base}
use riscv32_emulator.Csr.Address.{CsrAddress, access_type, write_csr}
use riscv32_emulator.Hart.State.{Hart, ExceptionCode}
use riscv32_emulator.Hart.Trap.{handle_exception, push_status}
use riscv32_emulator.Hart.LoadStore.{raise}
use riscv32_emulator.Hart.System.{store_csr, is_srw}
use riscv32_emulator.Hart.Privilege.Effect.{Quiet, Quiet-refl, Effect, quiet, trap, Follows}

-- The supervisor's registers that neither an instruction in user mode nor a trap changes.
pub record SameSupervisor (c c' : Csrs) : Type 0 where
  pub sie_same : c'.sie ≡ c.sie
  pub stvec_same : c'.stvec ≡ c.stvec
  pub scounteren_same : c'.scounteren ≡ c.scounteren
  pub sscratch_same : c'.sscratch ≡ c.sscratch
  pub sip_same : c'.sip ≡ c.sip
  pub satp_same : c'.satp ≡ c.satp

-- Still in user mode, with nothing for SRET to return to but user mode, and with the registers of
-- the last trap. The register `sstatus` is the same, or what an SRET makes of it.
pub record Stays (h h' : Hart) : Type 0 where
  pub mode : h'.supervisor_mode ≡ false
  pub spp : sstatus_spp h'.csr ≡ 0
  pub status : (h'.csr.sstatus ≡ h.csr.sstatus) ⊎ IsReturned h.csr.sstatus h'.csr.sstatus
  pub same : SameSupervisor h.csr h'.csr
  pub sepc_same : h'.csr.sepc ≡ h.csr.sepc
  pub scause_same : h'.csr.scause ≡ h.csr.scause
  pub stval_same : h'.csr.stval ≡ h.csr.stval

-- In supervisor mode, at the handler.
pub record Traps (h h' : Hart) : Type 0 where
  pub mode : h'.supervisor_mode ≡ true
  pub handler : h'.pc ≡ u32 (stvec_base h.csr <<< 2)
  pub stays_there : h'.should_increment_pc ≡ false
  pub same : SameSupervisor h.csr h'.csr

pub data Contained (h h' : Hart) : Type 0 where
  stays : Stays h h' → Contained h h'
  traps : Traps h h' → Contained h h'

same_csrs : {c c' : Csrs} → c' ≡ c → SameSupervisor c c'
same_csrs e = record {
  sie_same = ap (λ c. c.sie) e;
  stvec_same = ap (λ c. c.stvec) e;
  scounteren_same = ap (λ c. c.scounteren) e;
  sscratch_same = ap (λ c. c.sscratch) e;
  sip_same = ap (λ c. c.sip) e;
  satp_same = ap (λ c. c.satp) e;
}

handle_exception-Traps :
    (code : ExceptionCode) (stval : ℕ) (h raised : Hart)
    → raised.csr ≡ h.csr
    → Traps h (handle_exception code stval raised)
unfolding handle_exception push_status
handle_exception-Traps code stval h raised e = record {
  mode = refl;
  handler = ap (λ c. u32 (stvec_base c <<< 2)) e;
  stays_there = refl;
  same = record {
    sie_same = ap (λ c. c.sie) e;
    stvec_same = ap (λ c. c.stvec) e;
    scounteren_same = ap (λ c. c.scounteren) e;
    sscratch_same = ap (λ c. c.sscratch) e;
    sip_same = ap (λ c. c.sip) e;
    satp_same = ap (λ c. c.satp) e;
  };
}

-- A write to a counter changes none of these registers.
write_csr-Stays :
    (a : CsrAddress) (v : ℕ) {h h' : Hart}
    → is_srw (access_type a) ≡ false
    → Stays h h'
    → Stays h (record h' { csr = write_csr a v h'.csr })
unfolding write_csr access_type
write_csr-Stays CsrAddress.cycle v c k = ground arith
write_csr-Stays _ v c k = ground arith

pub store_csr-Stays :
    (a : CsrAddress) (v : Option ℕ) {h h' : Hart}
    → is_srw (access_type a) ≡ false
    → Stays h h'
    → Stays h (store_csr a v h')
store_csr-Stays a (some v) c k = write_csr-Stays a v c k
store_csr-Stays a none c k = k

pub no_spp : (x : ℕ) → IsU32 x → get_field 8 8 (set_field 32 8 8 x 0) ≡ 0
no_spp x is_word =
    get_field-set_field_self 32 8 8 x 0 (omega arith) (omega arith) is_word ∙ omega arith

-- A state reached by a quiet part of an instruction, for a hart in user mode with `spp` clear.
module _ (h : Hart) (user : h.supervisor_mode ≡ false) (no_return : sstatus_spp h.csr ≡ 0) where
  pub Quiet-Stays : {h' : Hart} → Quiet h h' → Stays h h'
  Quiet-Stays q = record {
    mode = q.mode ∙ user;
    spp = ap sstatus_spp q.csr ∙ no_return;
    status = inl (ap (λ c. c.sstatus) q.csr);
    same = same_csrs q.csr;
    sepc_same = ap (λ c. c.sepc) q.csr;
    scause_same = ap (λ c. c.scause) q.csr;
    stval_same = ap (λ c. c.stval) q.csr;
  }

  Effect-Contained : {h' : Hart} → Effect h h' → Contained h h'
  Effect-Contained (quiet q) = stays (Quiet-Stays q)
  Effect-Contained (trap code stval raised q e) =
      traps (rw e (handle_exception-Traps code stval h raised q.csr))

  Ends-Contained : {o : Outcome Hart (Unit {0})} → Ends (Effect h) Any o → Ends (Contained h) Any o
  Ends-Contained (returns a e) = returns a (Effect-Contained e)
  Ends-Contained (fails e) = fails (Effect-Contained e)

  pub Follows-Contained : (m : M Hart (Unit {0})) → Follows h m → Ends (Contained h) Any (m h)
  Follows-Contained m k = Ends-Contained (k h Quiet-refl)

  pub raise-Contained :
      (code : ExceptionCode) (stval : ℕ) (raised : Hart)
      → raised.csr ≡ h.csr
      → Ends (Contained h) Any (raise code stval raised)
  raise-Contained code stval raised e =
      returns tt (traps (handle_exception-Traps code stval h raised e))
