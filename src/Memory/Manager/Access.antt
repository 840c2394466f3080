-- ===== src/Memory/Manager/Access.antt =====
-- What a read or write of one byte through `MemoryMapManager` (src/mem_map_manager.cpp) does.
use riscv32_emulator.Prelude.{
  ℕ, ◌≡◌, Bool, true, false, ◌||◌, List, [], ◌∷◌, ◌==◌, if◌then◌else◌, u8, refl, ap, arith,
  Bool-cases, inl, inr,
}
use riscv32_emulator.Outcome.{ok, err, done, fail, throws, no_registered_handler}
use riscv32_emulator.Memory.Handler.{MemoryMapHandler, covers, IsByteStore}
use riscv32_emulator.Memory.Manager.{MemoryMapManager, get_handler, read_byte, write_byte}

module _ {H : Type 0} (ops : MemoryMapHandler H) where
  open ops use {read_byte as handler_read, write_byte as handler_write}

  -- Some registered handler covers the address.
  abbrev pub is_mapped : List H → ℕ → Bool
  is_mapped [] addr = false
  is_mapped (h ∷ hs) addr = covers ops h addr || is_mapped hs addr

  abbrev pub map_of : List H → MemoryMapManager H
  map_of hs = record { handlers = hs }

  read_byte-cons :
      (h : H) (hs : List H) (addr : ℕ)
      → read_byte ops (map_of (h ∷ hs)) addr
        ≡ (if covers ops h addr then handler_read h addr else read_byte ops (map_of hs) addr)
  unfolding read_byte get_handler
  read_byte-cons h hs addr = ground arith

  write_byte-here :
      (h h' : H) (hs : List H) (addr v : ℕ)
      → covers ops h addr ≡ true
      → handler_write addr v h ≡ done tt h'
      → write_byte ops addr v (map_of (h ∷ hs)) ≡ done tt (map_of (h' ∷ hs))
  unfolding write_byte get_handler
  write_byte-here h h' hs addr v c w = ground arith

  write_byte-later :
      (h : H) (hs hs' : List H) (addr v : ℕ)
      → covers ops h addr ≡ false
      → write_byte ops addr v (map_of hs) ≡ done tt (map_of hs')
      → write_byte ops addr v (map_of (h ∷ hs)) ≡ done tt (map_of (h ∷ hs'))
  unfolding write_byte get_handler
  write_byte-later h hs hs' addr v c w = ground arith

  -- A read fails exactly where no handler covers the address, by the manager's exception.
  pub read_byte-unmapped :
      (hs : List H) (addr : ℕ)
      → is_mapped hs addr ≡ false
      → read_byte ops (map_of hs) addr ≡ err (throws no_registered_handler)
  read_byte-unmapped [] addr h = unfold read_byte get_handler in refl
  read_byte-unmapped (x ∷ hs) addr h =
      ground (arith, read_byte-cons x hs addr, read_byte-unmapped hs addr)

  get_handler-unmapped :
      (hs : List H) (addr : ℕ)
      → is_mapped hs addr ≡ false
      → get_handler ops hs addr ≡ err (throws no_registered_handler)
  unfolding get_handler
  get_handler-unmapped [] addr h = refl
  get_handler-unmapped (x ∷ hs) addr h = ground (arith, get_handler-unmapped hs addr)

  -- A write at an address that no handler covers throws the manager's exception and leaves the memory
  -- as it was.
  pub write_byte-unmapped :
      (hs : List H) (addr v : ℕ)
      → is_mapped hs addr ≡ false
      → write_byte ops addr v (map_of hs) ≡ fail (throws no_registered_handler) (map_of hs)
  unfolding write_byte
  write_byte-unmapped hs addr v h = ground (arith, get_handler-unmapped hs addr h)

  module _ (store : IsByteStore ops) where
    -- Where a handler covers the address the read returns a byte.
    pub read_byte-mapped :
        (hs : List H) (addr : ℕ)
        → is_mapped hs addr ≡ true
        → (v : ℕ) × (read_byte ops (map_of hs) addr ≡ ok v)
    read_byte-mapped [] addr h = cc
    read_byte-mapped (x ∷ hs) addr h = elim (Bool-cases (covers ops x addr)) [
      | inl c ↦ let (v, e) = store.reads x addr c in (v, ground (arith, read_byte-cons x hs addr))
      | inr c ↦
          let (v, e) = read_byte-mapped hs addr (ground arith) in
          (v, ground (arith, read_byte-cons x hs addr))
    ]

    -- A write of the byte `v` at `addr` returned, the byte is there, and no other byte and no
    -- region changed.
    pub record IsWritten (hs hs' : List H) (addr v : ℕ) : Type 0 where
      pub returns : write_byte ops addr v (map_of hs) ≡ done tt (map_of hs')
      pub reads :
          (at : ℕ)
          → read_byte ops (map_of hs') at
            ≡ (if addr == at then ok (u8 v) else read_byte ops (map_of hs) at)
      pub maps : (at : ℕ) → is_mapped hs' at ≡ is_mapped hs at

    IsWritten-here :
        (h h' : H) (hs : List H) (addr v : ℕ)
        → covers ops h addr ≡ true
        → handler_write addr v h ≡ done tt h'
        → ops.base_addr h' ≡ ops.base_addr h
        → ops.region_size h' ≡ ops.region_size h
        → IsWritten (h ∷ hs) (h' ∷ hs) addr v
    IsWritten-here h h' hs addr v c w eb es = record {
      returns = write_byte-here h h' hs addr v c w;
      reads = λ at. elim (Bool-cases (covers ops h at)) [
        | inl d ↦ ground (
          arith,
          read_byte-cons h' hs at,
          read_byte-cons h hs at,
          same at,
          store.read-write h h' addr at v c d w,
        )
        | inr d ↦ ground (arith, read_byte-cons h' hs at, read_byte-cons h hs at, same at)
      ];
      maps = λ at. ap (λ b. b || is_mapped hs at) (same at);
    }
      where
        same : (at : ℕ) → covers ops h' at ≡ covers ops h at
        same at = rw (eb, es) refl

    IsWritten-later :
        (h : H) (hs hs' : List H) (addr v : ℕ)
        → covers ops h addr ≡ false
        → IsWritten hs hs' addr v
        → IsWritten (h ∷ hs) (h ∷ hs') addr v
    IsWritten-later h hs hs' addr v c w = record {
      returns = write_byte-later h hs hs' addr v c w.returns;
      reads = λ at. ground (arith, read_byte-cons h hs' at, read_byte-cons h hs at, w.reads at);
      maps = λ at. ap (λ b. covers ops h at || b) (w.maps at);
    }

    -- With handlers that are stores of bytes, a write at an address that some handler covers returns;
    -- afterwards that address reads as the byte written, every other address reads as before, and the
    -- same addresses are covered.
    pub write_byte-IsWritten :
        (hs : List H) (addr v : ℕ)
        → is_mapped hs addr ≡ true
        → (hs' : List H) × IsWritten hs hs' addr v
    write_byte-IsWritten [] addr v m = cc
    write_byte-IsWritten (h ∷ hs) addr v m = elim (Bool-cases (covers ops h addr)) [
      | inl c ↦
          let (h', w, eb, es) = store.writes h addr v c in
          (h' ∷ hs, IsWritten-here h h' hs addr v c w eb es)
      | inr c ↦
          let (hs', w) = write_byte-IsWritten hs addr v (ground arith) in
          (h ∷ hs', IsWritten-later h hs hs' addr v c w)
    ]
