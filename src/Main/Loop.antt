-- ===== src/Main/Loop.antt =====
-- The loop of `main` in src/main.cpp.
use riscv32_emulator.Prelude.{
  ℕ, true, false, List, [], ◌∷◌, ◌++◌, ◌≡◌, ◌∙◌, refl, sym, ap, if_true, if_false, if_cases,
  Bool-cases, inl, inr,
}
use riscv32_emulator.Outcome.{
  Exception, Failure, throws, assertion_failed, out_of_fuel, Outcome, done, fail, final, Ensures,
  Any, Ends-final,
}
use riscv32_emulator.Console.{print, message, World}
use riscv32_emulator.Hart.State.{Hart}
use riscv32_emulator.Hart.Step.{step_instruction}
use riscv32_emulator.Hart.WellFormed.{IsWellFormed}
use riscv32_emulator.Hart.Privilege.Steps.{IsSafe, same-IsConfined, step_instruction-Safe}
use riscv32_emulator.Main.{Run, running, stopped, aborted, go_on, caught, run}

-- `P` is true of the hart that a run stands at, if the process still has one.
pub data Holds (P : Hart → Type 0) : Run → Type 0 where
  at_running : {h : Hart} → P h → Holds P (running h)
  at_stopped : {h : Hart} → P h → Holds P (stopped h)
  at_aborted : {e : Failure} → Holds P (aborted e)

-- What a step keeps, and a change of the world outside the hart, the loop keeps.
module _ (P : Hart → Type 0) (step : (fuel now : ℕ) → Ensures P Any (step_instruction fuel now))
    (outside : (w : World) (h : Hart) → P h → P (record h { world = w })) where
  caught-Holds : (o : Outcome Hart (Unit {0})) → P (final o) → Holds P (caught o)
  unfolding caught
  caught-Holds (done _ h) p = at_running p
  caught-Holds (fail (throws e) h) p = at_running (outside _ h p)
  caught-Holds (fail assertion_failed h) p = at_aborted
  caught-Holds (fail out_of_fuel h) p = at_aborted

  go_on-Holds :
      (again : Hart → Run) {r : Run}
      → ((h : Hart) → P h → Holds P (again h))
      → Holds P r
      → Holds P (go_on again r)
  go_on-Holds again k (at_running p) = k _ p
  go_on-Holds again k (at_stopped p) = at_stopped p
  go_on-Holds again k at_aborted = at_aborted

  pub run-Holds : (fuel : ℕ) (clock : List ℕ) (h : Hart) → P h → Holds P (run fuel clock h)
  unfolding run
  run-Holds fuel [] h p = if_cases (Holds P) h.world.is_running (at_running p) (at_stopped p)
  run-Holds fuel (now ∷ clock) h p =
      if_cases (Holds P) h.world.is_running
        (go_on-Holds (run fuel clock) (run-Holds fuel clock)
          (caught-Holds (step_instruction fuel now h) (Ends-final (step fuel now h p))))
        (at_stopped p)

world-IsWellFormed : (w : World) (h : Hart) → IsWellFormed h → IsWellFormed (record h { world = w })
world-IsWellFormed w h f = record {
  zero_reads = f.zero_reads;
  registers = f.registers;
  csrs = f.csrs;
  pc_word = f.pc_word;
  bytes = f.bytes;
}

world-IsSafe : (w : World) (h : Hart) → IsSafe h → IsSafe (record h { world = w })
world-IsSafe w h (f, c) = (world-IsWellFormed w h f, same-IsConfined _ refl refl c)

-- From a hart that is well-formed, and in supervisor mode or with the bit `spp` clear, the main loop
-- reaches only such harts: the mode that SRET returns to is never supervisor mode while the hart is
-- in user mode.
pub run-IsSafe : (fuel : ℕ) (clock : List ℕ) (h : Hart) → IsSafe h → Holds IsSafe (run fuel clock h)
run-IsSafe = run-Holds IsSafe step_instruction-Safe world-IsSafe

stopped-run :
    (fuel : ℕ) (clock : List ℕ) (h : Hart)
    → h.world.is_running ≡ false
    → run fuel clock h ≡ stopped h
unfolding run
stopped-run fuel [] h e = if_false _ e
stopped-run fuel (now ∷ clock) h e = if_false _ e

-- While the loop runs, an exception thrown by a step is printed and ends the loop: whatever readings
-- of the clock are left, the run has stopped at the hart as the exception left it.
pub run-throws :
    (fuel now : ℕ) (clock : List ℕ) (h h' : Hart) (e : Exception)
    → h.world.is_running ≡ true
    → step_instruction fuel now h ≡ fail (throws e) h'
    → run fuel (now ∷ clock) h
      ≡ stopped (record h' {
        world = record (print (message (throws e)) h'.world) { is_running = false };
      })
unfolding run caught
run-throws fuel now clock h h' e r step =
    if_true _ r ∙ ap (λ o. go_on (run fuel clock) (caught o)) step ∙ stopped-run fuel clock _ refl

go_on-append :
    (fuel : ℕ) (before after : List ℕ)
    → ((h : Hart) → run fuel (before ++ after) h ≡ go_on (run fuel after) (run fuel before h))
    → (r : Run)
    → go_on (run fuel (before ++ after)) r ≡ go_on (run fuel after) (go_on (run fuel before) r)
go_on-append fuel before after again (running h) = again h
go_on-append fuel before after again (stopped h) = refl
go_on-append fuel before after again (aborted e) = refl

-- Running for two lists of clock readings is running for the first, and then for the second from
-- where that stands.
pub run-append :
    (fuel : ℕ) (before after : List ℕ) (h : Hart)
    → run fuel (before ++ after) h ≡ go_on (run fuel after) (run fuel before h)
unfolding run
run-append fuel [] after h = elim (Bool-cases h.world.is_running) [
  | inl e ↦ sym (ap (go_on (run fuel after)) (if_true _ e))
  | inr e ↦ stopped-run fuel after h e ∙ sym (ap (go_on (run fuel after)) (if_false _ e))
]
run-append fuel (now ∷ before) after h = elim (Bool-cases h.world.is_running) [
  | inl e ↦
      if_true _ e
      ∙ go_on-append fuel before after (run-append fuel before after)
          (caught (step_instruction fuel now h))
      ∙ sym (ap (go_on (run fuel after)) (if_true _ e))
  | inr e ↦ if_false _ e ∙ sym (ap (go_on (run fuel after)) (if_false _ e))
]
