-- ===== src/Csr/Address.antt =====
-- src/rv32/csr.hpp: `CSRAddress`, `CSRs::operator[]` and `CSRs::getAccessType`.
use riscv32_emulator.Prelude.{ℕ, switch, [], ◌∷◌}
use riscv32_emulator.Outcome.{Result, ok, err, throws, unknown_csr}
use riscv32_emulator.Csr.{Csrs}

pub data CsrAccessType : Type 0 where
  urw uro srw : CsrAccessType

pub data CsrAddress : Type 0 where
  cycle time instret sstatus sie stvec scounteren sscratch : CsrAddress
  sepc scause stval sip satp cycleh timeh instreth : CsrAddress

-- `CSRAddress(addr)` and the `default` of both `switch`es, which throws for any other number.
unfoldable pub csr_address : ℕ → Result CsrAddress
csr_address addr =
    switch addr
      ((0xC00, ok cycle)
        ∷ (0xC01, ok time)
        ∷ (0xC02, ok instret)
        ∷ (0x100, ok sstatus)
        ∷ (0x104, ok sie)
        ∷ (0x105, ok stvec)
        ∷ (0x106, ok scounteren)
        ∷ (0x140, ok sscratch)
        ∷ (0x141, ok sepc)
        ∷ (0x142, ok scause)
        ∷ (0x143, ok stval)
        ∷ (0x144, ok sip)
        ∷ (0x180, ok satp)
        ∷ (0xc80, ok cycleh)
        ∷ (0xc81, ok timeh)
        ∷ (0xc82, ok instreth)
        ∷ [])
      (err (throws (unknown_csr addr)))

-- `csr[addr]`, read through the returned reference.
unfoldable pub read_csr : CsrAddress → Csrs → ℕ
read_csr cycle c = c.cycle
read_csr time c = c.time
read_csr instret c = c.instret
read_csr sstatus c = c.sstatus
read_csr sie c = c.sie
read_csr stvec c = c.stvec
read_csr scounteren c = c.scounteren
read_csr sscratch c = c.sscratch
read_csr sepc c = c.sepc
read_csr scause c = c.scause
read_csr stval c = c.stval
read_csr sip c = c.sip
read_csr satp c = c.satp
read_csr cycleh c = c.cycleh
read_csr timeh c = c.timeh
read_csr instreth c = c.instreth

-- `csr[addr] = v`
unfoldable pub write_csr : CsrAddress → ℕ → Csrs → Csrs
write_csr cycle v c = record c { cycle = v }
write_csr time v c = record c { time = v }
write_csr instret v c = record c { instret = v }
write_csr sstatus v c = record c { sstatus = v }
write_csr sie v c = record c { sie = v }
write_csr stvec v c = record c { stvec = v }
write_csr scounteren v c = record c { scounteren = v }
write_csr sscratch v c = record c { sscratch = v }
write_csr sepc v c = record c { sepc = v }
write_csr scause v c = record c { scause = v }
write_csr stval v c = record c { stval = v }
write_csr sip v c = record c { sip = v }
write_csr satp v c = record c { satp = v }
write_csr cycleh v c = record c { cycleh = v }
write_csr timeh v c = record c { timeh = v }
write_csr instreth v c = record c { instreth = v }

unfoldable pub access_type : CsrAddress → CsrAccessType
access_type cycle = uro
access_type time = uro
access_type instret = uro
access_type cycleh = uro
access_type timeh = uro
access_type instreth = uro
access_type sstatus = srw
access_type sie = srw
access_type stvec = srw
access_type scounteren = srw
access_type sscratch = srw
access_type sepc = srw
access_type scause = srw
access_type stval = srw
access_type sip = srw
access_type satp = srw
