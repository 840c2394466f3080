-- ===== src/Hart/Privilege/Effect.antt =====
-- The effect of a case of `stepInstruction` (src/rv32/hart.cpp) on the mode and the CSRs.
use riscv32_emulator.Prelude.{
  ℕ, ◌≡◌, refl, Bool, if_cases, if◌then◌else◌, Option, some, none, bit_and, ◌==◌, not,
}
use riscv32_emulator.Outcome.{
  Result, ok, err, Outcome, done, fail, M, pure, lift, modify, ◌>>=◌, Ends, returns, fails, Any,
}
use riscv32_emulator.Decoder.{decode_opcode}
use riscv32_emulator.Decoder.Types.{Opcode}
use riscv32_emulator.Hart.State.{
  Hart, Memory, MemoryAccessType, ExceptionCode, set_register, on_mem,
}
use riscv32_emulator.Hart.Trap.{handle_exception}
use riscv32_emulator.Hart.Translate.{translate_address}
use riscv32_emulator.Hart.LoadStore.{raise, aligned, translated}

-- The mode and the CSRs stay.
pub record Quiet (h h' : Hart) : Type 0 where
  pub mode : h'.supervisor_mode ≡ h.supervisor_mode
  pub csr : h'.csr ≡ h.csr

pub Quiet-refl : {h : Hart} → Quiet h h
Quiet-refl = record { mode = refl; csr = refl }

-- At most one exception is raised, by a hart whose mode and CSRs are still those of `h`.
pub data Effect (h h' : Hart) : Type 0 where
  quiet : Quiet h h' → Effect h h'
  trap :
      (code : ExceptionCode) (stval : ℕ) (raised : Hart)
      → Quiet h raised
      → h' ≡ handle_exception code stval raised
      → Effect h h'

-- From every hart that is quiet from `h` the action ends with an effect on `h`; so it can follow
-- another one.
abbrev pub Follows : Hart → M Hart (Unit {0}) → Type 0
Follows h m = (s : Hart) → Quiet h s → Ends (Effect h) Any (m s)

-- The action is quiet, and its value is arbitrary.
abbrev pub IsQuiet : {A : Type 0} → Hart → M Hart A → Type 0
IsQuiet h m = (s : Hart) → Quiet h s → Ends (Quiet h) Any (m s)

bind-Ends :
    {A : Type 0} {h : Hart} {o : Outcome Hart A} (f : A → M Hart (Unit {0}))
    → Ends (Quiet h) Any o
    → ((a : A) → Follows h (f a))
    → Ends (Effect h) Any (elim o [ done a s' ↦ f a s' | fail e s' ↦ fail e s' ])
bind-Ends f (returns _ q) k = k _ _ q
bind-Ends f (fails q) k = fails (quiet q)

pub bind-Follows :
    {A : Type 0} {h : Hart} (m : M Hart A) (f : A → M Hart (Unit {0}))
    → IsQuiet h m
    → ((a : A) → Follows h (f a))
    → Follows h (m >>= f)
bind-Follows m f hm k s q = bind-Ends f (hm s q) k

pub pure-Follows : {h : Hart} → Follows h (pure tt)
pure-Follows s q = returns tt (quiet q)

pub modify-Follows :
    {h : Hart} (f : Hart → Hart) → ((s : Hart) → Quiet h s → Quiet h (f s)) → Follows h (modify f)
modify-Follows f k s q = returns tt (quiet (k s q))

pub modify-IsQuiet :
    {h : Hart} (f : Hart → Hart) → ((s : Hart) → Quiet h s → Quiet h (f s)) → IsQuiet h (modify f)
modify-IsQuiet f k s q = returns tt (k s q)

pub raise-Follows : {h : Hart} (code : ExceptionCode) (stval : ℕ) → Follows h (raise code stval)
raise-Follows code stval s q = returns tt (trap code stval s q refl)

pub if-Follows :
    {h : Hart} (b : Bool) {m n : M Hart (Unit {0})}
    → Follows h m
    → Follows h n
    → Follows h (if b then m else n)
if-Follows {h} b = if_cases (Follows h) b

lift-Ends :
    {A : Type 0} {h s : Hart} (r : Result A) → Quiet h s → Ends {A = A} (Quiet h) Any (lift r s)
lift-Ends (ok a) q = returns tt q
lift-Ends (err e) q = fails q

pub lift-IsQuiet : {A : Type 0} {h : Hart} (f : Hart → Result A) → IsQuiet h (λ s. lift (f s) s)
lift-IsQuiet f s q = lift-Ends (f s) q

set_register-Quiet : {h : Hart} (i v : ℕ) (s : Hart) → Quiet h s → Quiet h (set_register i v s)
unfolding set_register
set_register-Quiet i v s q = record { mode = q.mode; csr = q.csr }

pub set_register-IsQuiet : {h : Hart} (i v : ℕ) → IsQuiet h (modify (set_register i v))
set_register-IsQuiet i v = modify-IsQuiet _ (set_register-Quiet i v)

pub set_register-Follows : {h : Hart} (i v : ℕ) → Follows h (modify (set_register i v))
set_register-Follows i v = modify-Follows _ (set_register-Quiet i v)

with_mem-Quiet : {h : Hart} (mem : Memory) (s : Hart) → Quiet h s → Quiet h (record s { mem = mem })
with_mem-Quiet mem s q = record { mode = q.mode; csr = q.csr }

on_mem-Ends :
    {h s : Hart} (o : Outcome Memory (Unit {0}))
    → Quiet h s
    → Ends (Quiet h) Any (elim o [
      | done _ mem ↦ Outcome.done tt (record s { mem = mem })
      | fail e mem ↦ Outcome.fail e (record s { mem = mem })
    ])
on_mem-Ends {s = s} (done _ mem) q = returns tt (with_mem-Quiet mem s q)
on_mem-Ends {s = s} (fail e mem) q = fails (with_mem-Quiet mem s q)

pub on_mem-IsQuiet : {h : Hart} (m : M Memory (Unit {0})) → IsQuiet h (on_mem m)
on_mem-IsQuiet m s q = on_mem-Ends (m s.mem) q

weaken-Ends :
    {h : Hart} {o : Outcome Hart (Unit {0})} → Ends (Quiet h) Any o → Ends (Effect h) Any o
weaken-Ends (returns a q) = returns a (quiet q)
weaken-Ends (fails q) = fails (quiet q)

pub IsQuiet-Follows : {h : Hart} (m : M Hart (Unit {0})) → IsQuiet h m → Follows h m
IsQuiet-Follows m k s q = weaken-Ends (k s q)

pub aligned-Follows :
    {h : Hart} (mask addr : ℕ) (code : ExceptionCode) (k : M Hart (Unit {0}))
    → Follows h k
    → Follows h (aligned mask addr code k)
aligned-Follows mask addr code k hk =
    if-Follows (not (bit_and addr mask == 0)) (raise-Follows code addr) hk

pub decoded-Follows :
    {h : Hart} (instr : ℕ) (k : Opcode → M Hart (Unit {0}))
    → ((o : Opcode) → Follows h (k o))
    → Follows h (lift (decode_opcode instr) >>= k)
decoded-Follows instr k hk =
    bind-Follows (lift (decode_opcode instr)) k (lift-IsQuiet (λ _. decode_opcode instr)) hk

pub translated-Follows :
    {h : Hart} (fuel addr : ℕ) (access : MemoryAccessType) (fault : ExceptionCode)
    (k : ℕ → M Hart (Unit {0}))
    → ((at : ℕ) → Follows h (k at))
    → Follows h (translated fuel addr access fault k)
translated-Follows {h} fuel addr access fault k hk s q = go (translate_address fuel addr access s)
  where
    go :
        (r : Result (Option ℕ))
        → Ends (Effect h) Any (elim r [
          | ok none ↦ raise fault addr s
          | ok (some at) ↦ k at s
          | err e ↦ Outcome.fail e s
        ])
    go (ok none) = raise-Follows fault addr s q
    go (ok (some at)) = hk at s q
    go (err e) = fails (quiet q)
