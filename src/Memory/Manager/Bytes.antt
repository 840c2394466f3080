-- ===== src/Memory/Manager/Bytes.antt =====
-- Every memory holds bytes, and no write through `MemoryMapManager` changes that.
use riscv32_emulator.Prelude.{
  ℕ, ◌+◌, ◌≡◌, List, ◌==◌, IsU8, u32, arith, Bool-cases, inl, inr, bit_and, ◌>>>◌,
}
use riscv32_emulator.Outcome.{ok, returns, fails, Ensures, Any, bind-Ensures}
use riscv32_emulator.Memory.Handler.{MemoryMapHandler, IsByteStore}
use riscv32_emulator.Memory.Manager.{
  MemoryMapManager, read_byte, write_byte, write_halfword, write_word,
}
use riscv32_emulator.Memory.Manager.Access.{
  is_mapped, map_of, IsWritten, write_byte-IsWritten, write_byte-unmapped,
}

module _ {H : Type 0} (ops : MemoryMapHandler H) where
  -- What a read returns is a byte.
  abbrev pub HoldsBytes : MemoryMapManager H → Type 0
  HoldsBytes m = (addr v : ℕ) → read_byte ops m addr ≡ ok v → IsU8 v

  module _ (store : IsByteStore ops) where
    IsWritten-HoldsBytes :
        (hs hs' : List H) (addr v : ℕ)
        → HoldsBytes (map_of ops hs)
        → IsWritten ops store hs hs' addr v
        → HoldsBytes (map_of ops hs')
    IsWritten-HoldsBytes hs hs' addr v b w at x e = elim (Bool-cases (addr == at)) [
      | inl same ↦ ground (arith, w.reads at)
      | inr other ↦ ground (arith, w.reads at, b at x)
    ]

    pub write_byte-HoldsBytes : (addr v : ℕ) → Ensures HoldsBytes Any (write_byte ops addr v)
    write_byte-HoldsBytes addr v m b = elim (Bool-cases (is_mapped ops m.handlers addr)) [
      | inl mapped ↦
          let (hs', w) = write_byte-IsWritten ops store m.handlers addr v mapped in
          rw w.returns (returns tt (IsWritten-HoldsBytes m.handlers hs' addr v b w))
      | inr unmapped ↦ rw (write_byte-unmapped ops m.handlers addr v unmapped) (fails b)
    ]

    pub write_halfword-HoldsBytes :
        (addr v : ℕ) → Ensures HoldsBytes Any (write_halfword ops addr v)
    unfolding write_halfword
    write_halfword-HoldsBytes addr v =
        bind-Ensures (write_byte ops addr (bit_and v 0xff)) _
          (write_byte-HoldsBytes addr (bit_and v 0xff))
          (λ _ _. write_byte-HoldsBytes (u32 (addr + 1)) (bit_and (v >>> 8) 0xff))

    pub write_word-HoldsBytes : (addr v : ℕ) → Ensures HoldsBytes Any (write_word ops addr v)
    unfolding write_word
    write_word-HoldsBytes addr v =
        bind-Ensures (write_halfword ops addr (bit_and v 0xffff)) _
          (write_halfword-HoldsBytes addr (bit_and v 0xffff))
          (λ _ _. write_halfword-HoldsBytes (u32 (addr + 2)) (bit_and (v >>> 16) 0xffff))
