-- ===== src/Hart/Manual/Atomics.antt =====
-- The atomic operations of src/rv32/hart.cpp against those of the manual.
use riscv32_emulator.Prelude.{ℕ, ◌≡◌, ◌≢◌, IsU32, arith, some}
use riscv32_emulator.Decoder.Types.{
  Opcode, amo, lr_w, sc_w, amomin_w, amomax_w, amominu_w, amomaxu_w,
}
use riscv32_emulator.Hart.Alu.{amo_value}
use riscv32_emulator.Hart.Manual.{amo_result}
use riscv32_emulator.Hart.Manual.Values.{signed_lt-less}
use riscv32_emulator.Decoder.Classes.{type_of}

pub amo_value-amo_result :
    (o : Opcode) (old b : ℕ)
    → IsU32 old
    → IsU32 b
    → type_of o ≡ amo
    → o ≢ lr_w
    → o ≢ sc_w
    → amo_value o old b ≡ some (amo_result o old b)
unfolding amo_value
amo_value-amo_result amomin_w old b ho hb t n m = ground (arith, signed_lt-less b old hb ho)
amo_value-amo_result amomax_w old b ho hb t n m = ground (arith, signed_lt-less old b ho hb)
amo_value-amo_result amominu_w old b ho hb t n m = ground arith
amo_value-amo_result amomaxu_w old b ho hb t n m = ground arith
amo_value-amo_result _ old b ho hb t n m = ground arith
