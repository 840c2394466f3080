-- ===== src/Hart/Counters/Clock.antt =====
-- The counters of `incrementCounters` in src/rv32/hart.cpp as 64-bit numbers.
use riscv32_emulator.Prelude.{
  ℕ, ◌+◌, ◌-◌, ◌*◌, ◌/◌, ◌^◌, ◌≤◌, ◌<◌, ◌≡◌, refl, bit_and, bit_or, leb, if◌then◌else◌, u32, u64,
  ◌>>>◌, IsU64, arith, ap, ◌∙◌, Bool-cases, inl, inr,
}
use riscv32_emulator.Prelude.Bits.{bit_and_mask, bit_or_fields}
use riscv32_emulator.Csr.{Csrs}
use riscv32_emulator.Hart.State.{Hart}
use riscv32_emulator.Hart.WellFormed.{AreWords}
use riscv32_emulator.Hart.Counters.{advance_timer, elapsed, timer_value, count_instruction}

-- A counter of two words.
abbrev pub wide : ℕ → ℕ → ℕ
wide high low = high * 2 ^ 32 + low

-- The two 64-bit counters after one instruction.
pub record IsCounted (c c' : Csrs) : Type 0 where
  pub cycles : wide c'.cycleh c'.cycle ≡ u64 (wide c.cycleh c.cycle + 1)
  pub instructions : wide c'.instreth c'.instret ≡ u64 (wide c.instreth c.instret + 1)

-- For CSRs that are words, each step adds one to the 64-bit counters `cycleh:cycle` and
-- `instreth:instret`, modulo 2 ^ 64.
pub count_instruction-IsCounted : (c : Csrs) → AreWords c → IsCounted c (count_instruction c)
unfolding count_instruction
count_instruction-IsCounted c w = record {
  cycles = ground (arith, w.cycle_word, w.cycleh_word);
  instructions = ground (arith, w.instret_word, w.instreth_word);
}

-- The 64-bit timer of the source, and the clock's difference.
pub timer_value-lem :
    (now : ℕ) (h : Hart)
    → AreWords h.csr
    → timer_value now h ≡ u64 (wide h.csr.timeh h.csr.time + elapsed now h / h.timebase_period)
timer_value-lem now h w =
    ap (λ t. u64 (t + elapsed now h / h.timebase_period))
      (ap (λ t. bit_or t h.csr.time) (omega (arith, w.timeh_word))
        ∙ bit_or_fields 32 h.csr.timeh h.csr.time w.time_word)

pub elapsed-lem :
    (now : ℕ) (h : Hart) → IsU64 now → h.last_time ≤ now → elapsed now h ≡ now - h.last_time
elapsed-lem now h hn ht = omega arith

-- Of a word cut in two, the halves.
halves : (t : ℕ) → IsU64 t → wide (u32 (t >>> 32)) (bit_and t 0xffffffff) ≡ t
halves t h = omega (arith, bit_and_mask 32 t)

still : (n p : ℕ) → n < p → n / p ≡ 0
still n p h = grind arith

-- The 64-bit timer and `lastTime` at the clock `now`.
pub record IsAdvanced (now : ℕ) (h h' : Hart) : Type 0 where
  pub timer :
      wide h'.csr.timeh h'.csr.time
      ≡ u64 (wide h.csr.timeh h.csr.time + (now - h.last_time) / h.timebase_period)
  pub last : h'.last_time ≡ (if leb h.timebase_period (now - h.last_time) then now else h.last_time)

-- With a clock that is not behind `lastTime`, a period above zero and CSRs that are words, the 64-bit
-- timer `timeh:time` moves on, modulo 2 ^ 64, by the whole periods that have passed, and `lastTime`
-- becomes the clock where at least one period has passed and stays otherwise.
pub advance_timer-IsAdvanced :
    (now : ℕ) (h : Hart)
    → AreWords h.csr
    → IsU64 now
    → h.last_time ≤ now
    → 0 < h.timebase_period
    → IsAdvanced now h (advance_timer now h)
unfolding advance_timer
advance_timer-IsAdvanced now h w hn ht hp =
    elim (Bool-cases (leb h.timebase_period (elapsed now h))) [
      | inl e ↦ rw e (record {
        timer = halves (timer_value now h) (omega arith) ∙ moved;
        last = ground (arith, d);
      })
      | inr e ↦ rw e (record {
        timer = ground (arith, d, still (now - h.last_time) h.timebase_period);
        last = ground (arith, d);
      })
    ]
  where
    d : elapsed now h ≡ now - h.last_time
    d = elapsed-lem now h hn ht

    moved :
        timer_value now h
        ≡ u64 (wide h.csr.timeh h.csr.time + (now - h.last_time) / h.timebase_period)
    moved = timer_value-lem now h w ∙ rw d refl
