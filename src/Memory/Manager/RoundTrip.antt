-- ===== src/Memory/Manager/RoundTrip.antt =====
-- Words written through `MemoryMapManager` (src/mem_map_manager.cpp) and read again.
use riscv32_emulator.Prelude.{
  ℕ, ◌+◌, ◌*◌, ◌/◌, ◌^◌, ◌%◌, ◌<◌, ◌≡◌, ◌≢◌, ◌∙◌, true, bit_and, bit_or, List, ◌==◌, if◌then◌else◌,
  u16, u32, IsU32, ◌<<<◌, ◌>>>◌, arith, ap,
}
use riscv32_emulator.Prelude.Bits.{bit_and_mask, fields_bit_or}
use riscv32_emulator.Outcome.{ok, done, then-done}
use riscv32_emulator.Memory.Handler.{MemoryMapHandler, IsByteStore}
use riscv32_emulator.Memory.Manager.{
  read_byte, read_halfword, read_word, write_byte, write_halfword, write_word,
}
use riscv32_emulator.Memory.Manager.Access.{is_mapped, map_of, write_byte-IsWritten}

module _ {H : Type 0} (ops : MemoryMapHandler H) (store : IsByteStore ops) where
  -- A half-word write returned: its bytes, and the bytes that were there.
  record IsHalfwordWritten (hs hs' : List H) (addr v : ℕ) : Type 0 where
    returns : write_halfword ops addr v (map_of ops hs) ≡ done tt (map_of ops hs')
    reads :
        (at : ℕ)
        → read_byte ops (map_of ops hs') at ≡ (
            if u32 (addr + 1) == at
            then ok (v / 2 ^ 8 % 2 ^ 8)
            else if addr == at
            then ok (v % 2 ^ 8)
            else read_byte ops (map_of ops hs) at)
    maps : (at : ℕ) → is_mapped ops hs' at ≡ is_mapped ops hs at

  write_halfword-IsHalfwordWritten :
      (hs : List H) (addr v : ℕ)
      → is_mapped ops hs addr ≡ true
      → is_mapped ops hs (u32 (addr + 1)) ≡ true
      → (hs' : List H) × IsHalfwordWritten hs hs' addr v
  unfolding write_halfword
  write_halfword-IsHalfwordWritten hs addr v m₀ m₁ =
      let (hs₁, w₁) = write_byte-IsWritten ops store hs addr (bit_and v 0xff) m₀ in
      let (hs₂, w₂) =
        write_byte-IsWritten ops store hs₁ (u32 (addr + 1)) (bit_and (v >>> 8) 0xff)
          (w₁.maps (u32 (addr + 1)) ∙ m₁) in
      (
        hs₂,
        record {
          returns =
              then-done (write_byte ops addr (bit_and v 0xff))
                (write_byte ops (u32 (addr + 1)) (bit_and (v >>> 8) 0xff)) w₁.returns
              ∙ w₂.returns;
          reads = λ at.
              ground
                (arith, w₁.reads at, w₂.reads at, bit_and_mask 8 v, bit_and_mask 8 (v / 2 ^ 8));
          maps = λ at. w₂.maps at ∙ w₁.maps at;
        },
      )

  -- The word `v` stands at `addr`, and every byte at another address is the same as before.
  pub record IsWordWritten (hs hs' : List H) (addr v : ℕ) : Type 0 where
    pub returns : write_word ops addr v (map_of ops hs) ≡ done tt (map_of ops hs')
    pub reads_back : read_word ops (map_of ops hs') addr ≡ ok v
    pub others :
        (at : ℕ)
        → addr ≢ at
        → u32 (addr + 1) ≢ at
        → u32 (addr + 2) ≢ at
        → u32 (addr + 3) ≢ at
        → read_byte ops (map_of ops hs') at ≡ read_byte ops (map_of ops hs) at

  -- Four bytes read as a word.
  read_word-bytes :
      (hs : List H) (addr b₀ b₁ b₂ b₃ : ℕ)
      → b₀ < 2 ^ 8
      → b₁ < 2 ^ 8
      → b₂ < 2 ^ 8
      → b₃ < 2 ^ 8
      → read_byte ops (map_of ops hs) addr ≡ ok b₀
      → read_byte ops (map_of ops hs) (u32 (addr + 1)) ≡ ok b₁
      → read_byte ops (map_of ops hs) (u32 (addr + 2)) ≡ ok b₂
      → read_byte ops (map_of ops hs) (u32 (u32 (addr + 2) + 1)) ≡ ok b₃
      → read_word ops (map_of ops hs) addr ≡ ok (b₀ + b₁ * 2 ^ 8 + b₂ * 2 ^ 16 + b₃ * 2 ^ 24)
  unfolding read_word read_halfword
  read_word-bytes hs addr b₀ b₁ b₂ b₃ h₀ h₁ h₂ h₃ e₀ e₁ e₂ e₃ =
      rw (e₀, e₁, e₂, e₃)
        (ap ok (
          omega (
            arith,
            fields_bit_or 8 b₁ b₀ h₀,
            fields_bit_or 8 b₃ b₂ h₂,
            low_half,
            high_half,
            fields_bit_or 16 (u16 (bit_or b₂ (b₃ <<< 8))) (u16 (bit_or b₀ (b₁ <<< 8)))
                (omega arith),
          )))
    where
      low_half : bit_or b₀ (b₁ <<< 8) ≡ b₁ * 2 ^ 8 + b₀
      low_half = fields_bit_or 8 b₁ b₀ h₀

      high_half : bit_or b₂ (b₃ <<< 8) ≡ b₃ * 2 ^ 8 + b₂
      high_half = fields_bit_or 8 b₃ b₂ h₂

  -- Two half-words make a word.
  word_written :
      (hs hs₁ hs₂ : List H) (addr v : ℕ)
      → IsU32 addr
      → IsU32 v
      → IsHalfwordWritten hs hs₁ addr (bit_and v 0xffff)
      → IsHalfwordWritten hs₁ hs₂ (u32 (addr + 2)) (bit_and (v >>> 16) 0xffff)
      → IsWordWritten hs hs₂ addr v
  unfolding write_word
  word_written hs hs₁ hs₂ addr v ha hv w₁ w₂ = record {
    returns =
        then-done (write_halfword ops addr (bit_and v 0xffff))
          (write_halfword ops (u32 (addr + 2)) (bit_and (v >>> 16) 0xffff)) w₁.returns
        ∙ w₂.returns;
    reads_back =
        read_word-bytes hs₂ addr (v % 2 ^ 8) (v / 2 ^ 8 % 2 ^ 8) (v / 2 ^ 16 % 2 ^ 8) (v / 2 ^ 24)
          (omega arith) (omega arith) (omega arith) (omega arith) (ground (arith, chain addr))
          (ground (arith, chain (u32 (addr + 1)))) (ground (arith, chain (u32 (addr + 2))))
          (ground (arith, chain (u32 (u32 (addr + 2) + 1))))
        ∙ ap ok (omega arith);
    others = λ at n₀ n₁ n₂ n₃. ground (arith, chain at);
  }
    where
      low : bit_and v 0xffff ≡ v % 2 ^ 16
      low = bit_and_mask 16 v

      high : bit_and (v >>> 16) 0xffff ≡ v / 2 ^ 16
      high = omega (arith, bit_and_mask 16 (v / 2 ^ 16))

      chain :
          (at : ℕ)
          → read_byte ops (map_of ops hs₂) at ≡ (
              if u32 (addr + 3) == at
              then ok (v / 2 ^ 24)
              else if u32 (addr + 2) == at
              then ok (v / 2 ^ 16 % 2 ^ 8)
              else if u32 (addr + 1) == at
              then ok (v / 2 ^ 8 % 2 ^ 8)
              else if addr == at
              then ok (v % 2 ^ 8)
              else read_byte ops (map_of ops hs) at)
      chain at = ground (arith, w₁.reads at, w₂.reads at, low, high)

  -- A word written at four mapped addresses is read back, and no other byte changes.
  pub write_word-IsWordWritten :
      (hs : List H) (addr v : ℕ)
      → IsU32 addr
      → IsU32 v
      → is_mapped ops hs addr ≡ true
      → is_mapped ops hs (u32 (addr + 1)) ≡ true
      → is_mapped ops hs (u32 (addr + 2)) ≡ true
      → is_mapped ops hs (u32 (addr + 3)) ≡ true
      → (hs' : List H) × IsWordWritten hs hs' addr v
  write_word-IsWordWritten hs addr v ha hv m₀ m₁ m₂ m₃ =
      let (hs₁, w₁) = write_halfword-IsHalfwordWritten hs addr (bit_and v 0xffff) m₀ m₁ in
      let (hs₂, w₂) =
        write_halfword-IsHalfwordWritten hs₁ (u32 (addr + 2)) (bit_and (v >>> 16) 0xffff)
          (w₁.maps (u32 (addr + 2)) ∙ m₂) (w₁.maps _ ∙ ap (is_mapped ops hs) next ∙ m₃) in
      (hs₂, word_written hs hs₁ hs₂ addr v ha hv w₁ w₂)
    where
      next : u32 (u32 (addr + 2) + 1) ≡ u32 (addr + 3)
      next = omega arith
