-- ===== src/Outcome.antt =====
-- What a call does to a state `S`: it returns a value, or it ends by an exception, by a failed
-- `assert`, or (in a model with fuel) by running out of fuel. The state at that point is kept, as
-- the writes made before a C++ `throw` are.
use riscv32_emulator.Prelude.{ℕ, ◌≡◌, ap}

-- src/emulator_exception.cpp: `EmulatorException` and `DecoderException`, by the place that throws
-- them; the number is the part of the message that varies.
pub data Exception : Type 0 where
  no_registered_handler : Exception
  unknown_instruction_type : ℕ → Exception
  unknown_load unknown_store unknown_branch unknown_jump unknown_amo : ℕ → Exception
  unknown_op_imm unknown_op unknown_m_extension unknown_sfence : ℕ → Exception
  unknown_system unknown_op_ui unknown_op_fence : ℕ → Exception
  unknown_csr : ℕ → Exception
  unknown_sbi_call : ℕ → Exception
  beyond_32_bits : Exception
  handler_page_fault : Exception

pub data Failure : Type 0 where
  throws : Exception → Failure
  assertion_failed out_of_fuel : Failure

-- A call that changes no state.
pub data Result {ℓ} (A : Type ℓ) : Type ℓ where
  ok : A → Result A
  err : Failure → Result A

pub data Outcome (S A : Type 0) : Type 0 where
  done : A → S → Outcome S A
  fail : Failure → S → Outcome S A

abbrev pub M : Type 0 → Type 0 → Type 0
M S A = S → Outcome S A

abbrev pub pure : {S A : Type 0} → A → M S A
pure a s = done a s

infixl 5 ◌>>=◌ ◌>>◌
abbrev pub ◌>>=◌ : {S A B : Type 0} → M S A → (A → M S B) → M S B
◌>>=◌ m f s = elim (m s) [ done a s' ↦ f a s' | fail e s' ↦ fail e s' ]

abbrev pub ◌>>◌ : {S B : Type 0} → M S (Unit {0}) → M S B → M S B
m >> k = m >>= λ _. k

-- Running a call that changes no state, and a write that cannot fail.
abbrev pub lift : {S A : Type 0} → Result A → M S A
lift (ok a) s = done a s
lift (err e) s = fail e s

abbrev pub modify : {S : Type 0} → (S → S) → M S (Unit {0})
modify f s = done tt (f s)

abbrev pub result_bind {ℓ κ} : {A : Type ℓ} {B : Type κ} → Result A → (A → Result B) → Result B
result_bind (ok a) f = f a
result_bind (err e) f = err e

-- The state at the end, however the call ended.
abbrev pub final : {S A : Type 0} → Outcome S A → S
final (done a s) = s
final (fail e s) = s

-- A postcondition: `P` holds of the state however the call ends, and `Q` of a returned value.
pub data Ends {S A : Type 0} (P : S → Type 0) (Q : A → Type 0) : Outcome S A → Type 0 where
  returns : {a : A} {s : S} → Q a → P s → Ends P Q (done a s)
  fails : {e : Failure} {s : S} → P s → Ends P Q (fail e s)

abbrev pub Ensures : {S A : Type 0} → (S → Type 0) → (A → Type 0) → M S A → Type 0
Ensures P Q m = (s : _) → P s → Ends P Q (m s)

-- Nothing is said of the value.
abbrev pub Any : {A : Type 0} → A → Type 0
Any a = Unit

pub Ends-final :
    {S A : Type 0} {P : S → Type 0} {Q : A → Type 0} {o : Outcome S A} → Ends P Q o → P (final o)
Ends-final (returns q p) = p
Ends-final (fails p) = p

bind-Ends :
    {S A B : Type 0} {P : S → Type 0} {Q : A → Type 0} {R : B → Type 0} {o : Outcome S A}
    (f : A → M S B)
    → Ends P Q o
    → ((a : A) → Q a → Ensures P R (f a))
    → Ends P R (elim o [ done a s' ↦ f a s' | fail e s' ↦ fail e s' ])
bind-Ends f (returns q p) k = k _ q _ p
bind-Ends f (fails p) k = fails p

pub bind-Ensures :
    {S A B : Type 0} {P : S → Type 0} {Q : A → Type 0} {R : B → Type 0} (m : M S A) (f : A → M S B)
    → Ensures P Q m
    → ((a : A) → Q a → Ensures P R (f a))
    → Ensures P R (m >>= f)
bind-Ensures m f h k s p = bind-Ends f (h s p) k

pub both-Ends :
    {S A : Type 0} {P P' : S → Type 0} {Q : A → Type 0} {o : Outcome S A}
    → Ends P Q o
    → Ends P' Any o
    → Ends (λ s. P s × P' s) Q o
both-Ends (returns q p) (returns _ p') = returns q (p, p')
both-Ends (fails p) (fails p') = fails (p, p')

-- The rest of a block after a part that returns.
pub then-done :
    {S B : Type 0} (m : M S (Unit {0})) (k : M S B) {s s' : S}
    → m s ≡ done tt s'
    → (m >> k) s ≡ k s'
then-done m k e = ap (λ o. elim o [ done a s' ↦ k s' | fail f s' ↦ fail f s' ]) e
