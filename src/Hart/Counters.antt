-- ===== src/Hart/Counters.antt =====
-- `incrementCounters` of src/rv32/hart.cpp. The clock is an argument, in nanoseconds.
pub mod Clock
use riscv32_emulator.Prelude.{
  ℕ, ◌+◌, ◌-◌, ◌/◌, ◌*◌, ◌%◌, ◌^◌, bit_and, bit_or, Bool, leb, ◌==◌, if◌then◌else◌, u32, u64, ◌<<<◌,
  ◌>>>◌,
}
use riscv32_emulator.Csr.{Csrs, set_stip}
use riscv32_emulator.Hart.State.{Hart}

-- `currentTime - lastTime` as a `uint64_t`.
abbrev pub elapsed : ℕ → Hart → ℕ
elapsed now h = u64 (now + 2 ^ 64 - h.last_time)

-- The 64-bit timer after the step.
abbrev pub timer_value : ℕ → Hart → ℕ
timer_value now h =
    u64 (bit_or (u64 (h.csr.timeh <<< 32)) h.csr.time + elapsed now h / h.timebase_period)

unfoldable pub advance_timer : ℕ → Hart → Hart
advance_timer now h =
    let timer = timer_value now h in
    let c = if leb h.time_compare timer then set_stip 1 h.csr else h.csr in
    if leb h.timebase_period (elapsed now h)
    then record h {
      csr = record c { time = bit_and timer 0xffffffff; timeh = u32 (timer >>> 32) };
      last_time = now;
    }
    else h

unfoldable pub count_instruction : Csrs → Csrs
count_instruction c = record c {
  cycleh = if c.cycle == 0xffffffff then u32 (c.cycleh + 1) else c.cycleh;
  instreth = if c.instret == 0xffffffff then u32 (c.instreth + 1) else c.instreth;
  cycle = u32 (c.cycle + 1);
  instret = u32 (c.instret + 1);
}

unfoldable pub increment_counters : ℕ → Hart → Hart
unfolding advance_timer count_instruction
increment_counters now h =
    let h' = advance_timer now h in record h' { csr = count_instruction h'.csr }
