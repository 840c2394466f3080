-- ===== src/Hart/LoadStore.antt =====
-- The cases LOAD, STORE and AMO of `stepInstruction` in src/rv32/hart.cpp. `fuel` bounds the rounds
-- of the page-table walk.
use riscv32_emulator.Prelude.{
  ℕ, ◌+◌, bit_and, Bool, true, false, not, ◌==◌, if◌then◌else◌, u32, some, none,
}
use riscv32_emulator.Outcome.{Result, Outcome, M, pure, lift, modify, ◌>>=◌, ◌>>◌}
use riscv32_emulator.Instruction.{rd, rs1, rs2, i_immediate, s_immediate, sign_extend}
use riscv32_emulator.Decoder.{decode_opcode}
use riscv32_emulator.Decoder.Types.{Opcode, lb, lh, lw, lbu, lhu, sb, sh, sw, lr_w, sc_w, amoswap_w}
use riscv32_emulator.Hart.State.{
  Hart, MemoryAccessType, read, write, ExceptionCode, load_misaligned, load_page_fault,
  str_amo_misaligned, str_amo_page_fault, get, get_register, set_register, read_byte, read_halfword,
  read_word, write_byte, write_halfword, write_word,
}
use riscv32_emulator.Hart.Trap.{handle_exception}
use riscv32_emulator.Hart.Translate.{translate_address}
use riscv32_emulator.Hart.Alu.{amo_value}

abbrev pub raise : ExceptionCode → ℕ → M Hart (Unit {0})
raise code stval = modify (handle_exception code stval)

-- `translateAddress(addr, access)` and the two ways on: the page fault, with `addr` as it was, or
-- the rest, with the translated address.
abbrev pub translated :
    ℕ → ℕ → MemoryAccessType → ExceptionCode → (ℕ → M Hart (Unit {0})) → M Hart (Unit {0})
translated fuel addr access fault k h = elim (translate_address fuel addr access h) [
  | Result.ok none ↦ raise fault addr h
  | Result.ok (some at) ↦ k at h
  | Result.err e ↦ Outcome.fail e h
]

-- `if((addr & mask) != 0) { handleException(code, addr); break; }` and the rest.
abbrev pub aligned : ℕ → ℕ → ExceptionCode → M Hart (Unit {0}) → M Hart (Unit {0})
aligned mask addr code k = if not (bit_and addr mask == 0) then raise code addr else k

unfoldable pub load_case : Opcode → ℕ → ℕ → M Hart (Unit {0})
load_case lb instr addr = do
  v ← read_byte addr
  modify (set_register (rd instr) (sign_extend 32 v 8))
load_case lh instr addr =
    aligned 0b1 addr load_misaligned
      do v ← read_halfword addr; modify (set_register (rd instr) (sign_extend 32 v 16))
load_case lw instr addr =
    aligned 0b11 addr load_misaligned do v ← read_word addr; modify (set_register (rd instr) v)
load_case lbu instr addr = do v ← read_byte addr; modify (set_register (rd instr) v)
load_case lhu instr addr =
    aligned 0b1 addr load_misaligned do v ← read_halfword addr; modify (set_register (rd instr) v)
load_case _ instr addr = pure tt

unfoldable pub exec_load : ℕ → ℕ → M Hart (Unit {0})
unfolding load_case
exec_load fuel instr = do
  h ← get
  let effective = u32 (get_register (rs1 instr) h + i_immediate instr)
  translated fuel effective read load_page_fault
      λ addr. do o ← lift (decode_opcode instr); load_case o instr addr

unfoldable pub store_case : Opcode → ℕ → ℕ → M Hart (Unit {0})
store_case sb addr v = write_byte addr (bit_and v 0xff)
store_case sh addr v = aligned 0b1 addr str_amo_misaligned (write_halfword addr (bit_and v 0xffff))
store_case sw addr v = aligned 0b11 addr str_amo_misaligned (write_word addr v)
store_case _ addr v = pure tt

unfoldable pub exec_store : ℕ → ℕ → M Hart (Unit {0})
unfolding store_case
exec_store fuel instr = do
  h ← get
  let effective = u32 (get_register (rs1 instr) h + s_immediate instr)
  translated fuel effective write str_amo_page_fault
      λ addr. do o ← lift (decode_opcode instr); store_case o addr (get_register (rs2 instr) h)

-- `opcode == Opcode::LR_W`
abbrev pub is_lr : Opcode → Bool
is_lr lr_w = true
is_lr _ = false

abbrev pub is_swap : Opcode → Bool
is_swap amoswap_w = true
is_swap _ = false

-- AMOSWAP also writes the word of memory to `rs2`, before the store.
unfoldable pub amo_case : Opcode → ℕ → ℕ → ℕ → M Hart (Unit {0})
amo_case lr_w instr addr val = do
  modify (set_register (rd instr) val)
  modify (λ h. record h { reservation_set_valid = true })
amo_case sc_w instr addr val = do
  h ← get
  if h.reservation_set_valid
      then (do
        write_word addr (get_register (rs2 instr) h)
        modify (set_register (rd instr) 0)
        modify (λ h'. record h' { reservation_set_valid = false }))
      else modify (set_register (rd instr) 1)
amo_case o instr addr val = do
  h ← get
  elim (amo_value o val (get_register (rs2 instr) h)) [
    | some temp ↦ do
      modify (if is_swap o then set_register (rs2 instr) val else λ h'. h')
      write_word addr temp
      modify (set_register (rd instr) val)
    | none ↦ pure tt
  ]

-- The address is checked before it is translated, unlike that of a load or a store.
unfoldable pub exec_amo : ℕ → ℕ → M Hart (Unit {0})
unfolding amo_case
exec_amo fuel instr = do
  h ← get
  let addr = get_register (rs1 instr) h
  o ← lift (decode_opcode instr)
  aligned 0b11 addr (if is_lr o then load_misaligned else str_amo_misaligned) (
      translated fuel addr (if is_lr o then read else write)
        (if is_lr o then load_page_fault else str_amo_page_fault)
        λ at. do val ← read_word at; amo_case o instr at val)
