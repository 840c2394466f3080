-- ===== src/Hart/Invariant/Memory.antt =====
-- The loads, stores and atomics of src/rv32/hart.cpp keep the hart well-formed.
use riscv32_emulator.Prelude.{
  ℕ, ◌+◌, ◌^◌, ◌<◌, ◌≡◌, Bool, IsU32, IsU8, u32, refl, arith, bit_and, ◌==◌, Option, some, none,
  if_cases, not, if◌then◌else◌, Bool-cases, inl, inr,
}
use riscv32_emulator.Prelude.Bits.{bit_and_mask}
use riscv32_emulator.Outcome.{
  Result, ok, err, Outcome, done, fail, M, pure, lift, modify, result_bind, ◌>>=◌, Ends, returns,
  fails, Ensures, Any, bind-Ensures,
}
use riscv32_emulator.Decoder.{decode_opcode}
use riscv32_emulator.Decoder.Types.{Opcode, lb, lh, lw, lbu, lhu, sb, sh, sw}
use riscv32_emulator.Instruction.{rd, rs1, rs2, i_immediate, s_immediate}
use riscv32_emulator.Memory.Basic.{basic_memory_handler}
use riscv32_emulator.Memory.Basic.Store.{basic_memory-IsByteStore}
use riscv32_emulator.Memory.Manager
use riscv32_emulator.Memory.Manager.Words.{read_halfword-lt, read_word-lt}
use riscv32_emulator.Memory.Manager.Bytes.{
  write_byte-HoldsBytes, write_halfword-HoldsBytes, write_word-HoldsBytes, HoldsBytes,
}
use riscv32_emulator.Hart.State.{
  Hart, Memory, MemoryAccessType, ExceptionCode, get_register, set_register, read_byte,
  read_halfword, read_word, on_mem, write_byte, write_halfword, write_word, read, write,
  load_misaligned, load_page_fault, str_amo_misaligned, str_amo_page_fault,
}
use riscv32_emulator.Hart.Translate.{translate_address, check_result, walk, root_base}
use riscv32_emulator.Csr.{satp_mode}
use riscv32_emulator.Hart.LoadStore.{
  raise, aligned, translated, load_case, exec_load, store_case, exec_store,
}
use riscv32_emulator.Hart.WellFormed.{IsWellFormed, set_register-IsWellFormed}
use riscv32_emulator.Hart.Invariant.Traps.{handle_exception-IsWellFormed}
use riscv32_emulator.Hart.Invariant.Values.{sign_extend-lt}

-- The action keeps the hart well-formed.
abbrev pub Keeps : M Hart (Unit {0}) → Type 0
Keeps m = Ensures IsWellFormed Any m

-- The action keeps it too, and its value is of the kind `Q`.
abbrev pub Gives : {A : Type 0} → (A → Type 0) → M Hart A → Type 0
Gives Q m = Ensures IsWellFormed Q m

pub pure-Keeps : Keeps (pure tt)
pure-Keeps h w = returns tt w

pub modify-Keeps :
    (f : Hart → Hart) → ((h : Hart) → IsWellFormed h → IsWellFormed (f h)) → Keeps (modify f)
modify-Keeps f k h w = returns tt (k h w)

lift-Ends :
    {A : Type 0} {Q : A → Type 0} (r : Result A) {h : Hart}
    → ((a : A) → r ≡ ok a → Q a)
    → IsWellFormed h
    → Ends IsWellFormed Q (lift r h)
lift-Ends (ok a) k w = returns (k a refl) w
lift-Ends (err e) k w = fails w

pub lift-Gives :
    {A : Type 0} {Q : A → Type 0} (r : Result A) → ((a : A) → r ≡ ok a → Q a) → Gives Q (lift r)
lift-Gives r k h w = lift-Ends r k w

pub if-Keeps : (b : Bool) {m n : M Hart (Unit {0})} → Keeps m → Keeps n → Keeps (if b then m else n)
if-Keeps b = if_cases Keeps b

read_byte-Gives : (addr : ℕ) → Gives IsU8 (read_byte addr)
read_byte-Gives addr h w =
    lift-Ends (Manager.read_byte basic_memory_handler h.mem addr) (w.bytes addr) w

read_halfword-Gives : (addr : ℕ) → Gives (λ v. v < 2 ^ 16) (read_halfword addr)
read_halfword-Gives addr h w =
    lift-Ends (Manager.read_halfword basic_memory_handler h.mem addr)
      (λ v. read_halfword-lt basic_memory_handler h.mem addr v) w

pub read_word-Gives : (addr : ℕ) → Gives IsU32 (read_word addr)
read_word-Gives addr h w =
    lift-Ends (Manager.read_word basic_memory_handler h.mem addr)
      (λ v. read_word-lt basic_memory_handler h.mem addr v) w

on_mem-Keeps :
    (m : M Memory (Unit {0})) → Ensures (HoldsBytes basic_memory_handler) Any m → Keeps (on_mem m)
on_mem-Keeps m k h w = go (m h.mem) (k h.mem w.bytes)
  where
    with_mem :
        (mem : Memory) → HoldsBytes basic_memory_handler mem → IsWellFormed (record h { mem = mem })
    with_mem mem b = record {
      zero_reads = w.zero_reads;
      registers = w.registers;
      csrs = w.csrs;
      pc_word = w.pc_word;
      bytes = b;
    }

    go :
        (o : Outcome Memory (Unit {0}))
        → Ends (HoldsBytes basic_memory_handler) Any o
        → Ends IsWellFormed Any (elim o [
          | done _ mem ↦ done tt (record h { mem = mem })
          | fail e mem ↦ fail e (record h { mem = mem })
        ])
    go (done _ mem) (returns _ b) = returns tt (with_mem mem b)
    go (fail e mem) (fails b) = fails (with_mem mem b)

write_byte-Keeps : (addr v : ℕ) → Keeps (write_byte addr v)
write_byte-Keeps addr v =
    on_mem-Keeps _ (write_byte-HoldsBytes basic_memory_handler basic_memory-IsByteStore addr v)

write_halfword-Keeps : (addr v : ℕ) → Keeps (write_halfword addr v)
write_halfword-Keeps addr v =
    on_mem-Keeps _ (write_halfword-HoldsBytes basic_memory_handler basic_memory-IsByteStore addr v)

pub write_word-Keeps : (addr v : ℕ) → Keeps (write_word addr v)
write_word-Keeps addr v =
    on_mem-Keeps _ (write_word-HoldsBytes basic_memory_handler basic_memory-IsByteStore addr v)

pub raise-Keeps : (code : ExceptionCode) (stval : ℕ) → IsU32 stval → Keeps (raise code stval)
raise-Keeps code stval hv = modify-Keeps _ (λ h. handle_exception-IsWellFormed code stval hv)

pub aligned-Keeps :
    (mask addr : ℕ) (code : ExceptionCode) (k : M Hart (Unit {0}))
    → IsU32 addr
    → Keeps k
    → Keeps (aligned mask addr code k)
aligned-Keeps mask addr code k ha hk =
    if-Keeps (not (bit_and addr mask == 0)) (raise-Keeps code addr ha) hk

pub set_register-Keeps : (i v : ℕ) → IsU32 v → Keeps (modify (set_register i v))
set_register-Keeps i v hv = modify-Keeps _ (λ h. set_register-IsWellFormed i v hv)

checked-lt : (r : Result (Option ℕ)) (at : ℕ) → result_bind r check_result ≡ ok (some at) → IsU32 at
unfolding check_result
checked-lt (ok none) at e = cc
checked-lt (ok (some bits)) at e = ground (arith, bit_and_mask 32 bits)
checked-lt (err x) at e = cc

-- A translated address is a word.
pub translated-lt :
    (fuel addr : ℕ) (access : MemoryAccessType) (h : Hart) (at : ℕ)
    → IsU32 addr
    → translate_address fuel addr access h ≡ ok (some at)
    → IsU32 at
translated-lt fuel addr access h at ha e = elim (Bool-cases (satp_mode h.csr == 0)) [
  | inl bare ↦ unfold translate_address in ground arith
  | inr paged ↦
      unfold translate_address in
      checked-lt (walk fuel h access addr 1 (root_base h)) at (rw paged at e)
]

pub translated-Keeps :
    (fuel addr : ℕ) (access : MemoryAccessType) (fault : ExceptionCode) (k : ℕ → M Hart (Unit {0}))
    → IsU32 addr
    → ((at : ℕ) → IsU32 at → Keeps (k at))
    → Keeps (translated fuel addr access fault k)
translated-Keeps fuel addr access fault k ha hk h w =
    go (translate_address fuel addr access h) (λ at. translated-lt fuel addr access h at ha)
  where
    go :
        (r : Result (Option ℕ))
        → ((at : ℕ) → r ≡ ok (some at) → IsU32 at)
        → Ends IsWellFormed Any
            (elim r [ ok none ↦ raise fault addr h | ok (some at) ↦ k at h | err e ↦ fail e h ])
    go (ok none) lt = raise-Keeps fault addr ha h w
    go (ok (some at)) lt = hk at (lt at refl) h w
    go (err e) lt = fails w

load_case-Keeps : (o : Opcode) (instr addr : ℕ) → IsU32 addr → Keeps (load_case o instr addr)
unfolding load_case
load_case-Keeps lb instr addr ha =
    bind-Ensures (read_byte addr) _ (read_byte-Gives addr)
      λ v hv. set_register-Keeps (rd instr) _ (sign_extend-lt v 8 (omega arith))
load_case-Keeps lh instr addr ha = aligned-Keeps 0b1 addr load_misaligned _ ha (
    bind-Ensures (read_halfword addr) _ (read_halfword-Gives addr)
      λ v hv. set_register-Keeps (rd instr) _ (sign_extend-lt v 16 (omega arith)))
load_case-Keeps lw instr addr ha = aligned-Keeps 0b11 addr load_misaligned _ ha (
    bind-Ensures (read_word addr) _ (read_word-Gives addr)
      λ v hv. set_register-Keeps (rd instr) v hv)
load_case-Keeps lbu instr addr ha =
    bind-Ensures (read_byte addr) _ (read_byte-Gives addr)
      λ v hv. set_register-Keeps (rd instr) v (omega arith)
load_case-Keeps lhu instr addr ha = aligned-Keeps 0b1 addr load_misaligned _ ha (
    bind-Ensures (read_halfword addr) _ (read_halfword-Gives addr)
      λ v hv. set_register-Keeps (rd instr) v (omega arith))
load_case-Keeps _ instr addr ha = pure-Keeps

-- The rest of an instruction after its operation is decoded.
pub decoded-Keeps :
    (instr : ℕ) (k : Opcode → M Hart (Unit {0}))
    → ((o : Opcode) → Keeps (k o))
    → Keeps (lift (decode_opcode instr) >>= k)
decoded-Keeps instr k hk =
    bind-Ensures (lift (decode_opcode instr)) k
      (lift-Gives {Q = Any} (decode_opcode instr) (λ _ _. tt)) (λ o _. hk o)

pub exec_load-Keeps : (fuel instr : ℕ) → Keeps (exec_load fuel instr)
unfolding exec_load
exec_load-Keeps fuel instr h w =
    translated-Keeps fuel (u32 (get_register (rs1 instr) h + i_immediate instr)) read
      load_page_fault _ (omega arith)
      (λ addr lt.
        decoded-Keeps instr (λ o. load_case o instr addr) (λ o. load_case-Keeps o instr addr lt))
      h w

store_case-Keeps : (o : Opcode) (addr v : ℕ) → IsU32 addr → Keeps (store_case o addr v)
unfolding store_case
store_case-Keeps sb addr v ha = write_byte-Keeps addr (bit_and v 0xff)
store_case-Keeps sh addr v ha =
    aligned-Keeps 0b1 addr str_amo_misaligned _ ha (write_halfword-Keeps addr (bit_and v 0xffff))
store_case-Keeps sw addr v ha =
    aligned-Keeps 0b11 addr str_amo_misaligned _ ha (write_word-Keeps addr v)
store_case-Keeps _ addr v ha = pure-Keeps

pub exec_store-Keeps : (fuel instr : ℕ) → Keeps (exec_store fuel instr)
unfolding exec_store
exec_store-Keeps fuel instr h w =
    translated-Keeps fuel (u32 (get_register (rs1 instr) h + s_immediate instr)) write
      str_amo_page_fault _ (omega arith)
      (λ addr lt.
        decoded-Keeps instr (λ o. store_case o addr (get_register (rs2 instr) h))
          (λ o. store_case-Keeps o addr _ lt))
      h w
