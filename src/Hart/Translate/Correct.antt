-- ===== src/Hart/Translate/Correct.antt =====
-- `translateAddress` of src/rv32/hart.cpp against Sv32, and the page tables on which its loop does
-- not end.
use riscv32_emulator.Prelude.{
  ℕ, zero, suc, ◌+◌, ◌*◌, ◌/◌, ◌%◌, ◌^◌, ◌≡◌, ◌∙◌, ap, refl, Bool, true, false, not, ◌&&◌, ◌==◌,
  if◌then◌else◌, u32, arith, IsU32, Option, some, none, Bool-cases, inl, inr,
}
use riscv32_emulator.Outcome.{Result, ok, err, result_bind, out_of_fuel}
use riscv32_emulator.BitField.{get_field_lem}
use riscv32_emulator.Memory.Basic.{basic_memory_handler}
use riscv32_emulator.Memory.Manager
use riscv32_emulator.Memory.Manager.Words.{read_word-lt}
use riscv32_emulator.Hart.State.{Hart, MemoryAccessType}
use riscv32_emulator.Hart.Translate.{
  is_invalid, is_leaf, leaf_refused, leaf_address, next_base, decrement, pte_addr, walk,
}
use riscv32_emulator.Hart.Translate.Sv32
use riscv32_emulator.Hart.Translate.Leaf.{
  is_invalid-eq, is_leaf-eq, leaf_refused-eq, misaligned-eq, page_address, superpage_address,
  next_base-eq,
}

pub bind-agree {ℓ κ} :
    {A : Type ℓ} {B : Type κ} (r : Result A) {f g : A → Result B}
    → ((a : A) → r ≡ ok a → f a ≡ g a)
    → result_bind r f ≡ result_bind r g
bind-agree (ok a) h = h a refl
bind-agree (err e) h = refl

-- A valid entry that points to a further table.
abbrev pub is_pointer : ℕ → Bool
is_pointer pte = Sv32.is_valid pte && not (Sv32.is_leaf pte)

-- The entries that the loop reads: the address is cut to 32 bits.
abbrev pub first_read : Hart → ℕ → ℕ → Result ℕ
first_read h base vaddr = Sv32.entry h (u32 (base + vaddr / 2 ^ 22 * 4))

abbrev pub second_read : Hart → ℕ → ℕ → Result ℕ
second_read h pte vaddr =
    Sv32.entry h (u32 (Sv32.page_number pte * 2 ^ 12 + vaddr / 2 ^ 12 % 2 ^ 10 * 4))

-- The two levels over those entries.
abbrev pub levels : Hart → MemoryAccessType → ℕ → ℕ → Result (Option ℕ)
levels h access vaddr pte =
    if not (Sv32.is_valid pte)
    then ok none
    else if Sv32.is_leaf pte
    then ok (Sv32.superpage_leaf h access vaddr pte)
    else result_bind (second_read h pte vaddr) (λ pte'. ok (Sv32.second_level h access vaddr pte'))

-- No entry of the second level that the loop reaches points to a further table.
abbrev pub IsShallowWalk : Hart → ℕ → ℕ → Type 0
IsShallowWalk h vaddr base =
    (pte pte' : ℕ)
    → first_read h base vaddr ≡ ok pte
    → second_read h pte vaddr ≡ ok pte'
    → is_pointer pte ≡ true
    → is_pointer pte' ≡ false

module _ (h : Hart) (access : MemoryAccessType) (vaddr : ℕ) where
  -- What a round does with its entry.
  round : ℕ → ℕ → ℕ → Result (Option ℕ)
  round fuel i pte = elim (is_invalid pte) [
    | true ↦ ok none
    | false ↦ elim (is_leaf pte) [
      | true ↦ if leaf_refused h access i pte then ok none else ok (some (leaf_address i pte vaddr))
      | false ↦ walk fuel h access vaddr (decrement i) (next_base pte)
    ]
  ]

  round-invalid : (fuel i pte : ℕ) → Sv32.is_valid pte ≡ false → round fuel i pte ≡ ok none
  unfolding round
  round-invalid fuel i pte v = ground (arith, is_invalid-eq pte)

  round-leaf :
      (fuel i pte : ℕ)
      → Sv32.is_valid pte ≡ true
      → Sv32.is_leaf pte ≡ true
      → round fuel i pte
        ≡ (if leaf_refused h access i pte then ok none else ok (some (leaf_address i pte vaddr)))
  unfolding round
  round-leaf fuel i pte v l = ground (arith, is_invalid-eq pte, is_leaf-eq pte)

  round-pointer :
      (fuel i pte : ℕ)
      → Sv32.is_valid pte ≡ true
      → Sv32.is_leaf pte ≡ false
      → round fuel i pte ≡ walk fuel h access vaddr (decrement i) (next_base pte)
  unfolding round
  round-pointer fuel i pte v l = ground (arith, is_invalid-eq pte, is_leaf-eq pte)

  walk-suc :
      (fuel i base : ℕ)
      → walk (suc fuel) h access vaddr i base
        ≡ result_bind
            (Manager.read_word basic_memory_handler h.mem (pte_addr i base vaddr))
            (round fuel i)
  unfolding walk round
  walk-suc fuel i base = refl

  first_addr : (base : ℕ) → pte_addr 1 base vaddr ≡ u32 (base + vaddr / 2 ^ 22 % 2 ^ 10 * 4)
  unfolding pte_addr
  first_addr base = rw (get_field_lem 22 31 vaddr) refl

  second_addr :
      (pte : ℕ)
      → IsU32 pte
      → pte_addr 0 (next_base pte) vaddr
        ≡ u32 (Sv32.page_number pte * 2 ^ 12 + vaddr / 2 ^ 12 % 2 ^ 10 * 4)
  unfolding pte_addr
  second_addr pte hp = rw (next_base-eq pte hp, get_field_lem 12 21 vaddr) refl

  no_pointer :
      (pte : ℕ) → Sv32.is_valid pte ≡ true → Sv32.is_leaf pte ≡ false → ¬ is_pointer pte ≡ false
  no_pointer pte v l s = ground arith

  page_result :
      (pte : ℕ)
      → IsU32 pte
      → Sv32.is_valid pte ≡ true
      → Sv32.is_leaf pte ≡ true
      → (if leaf_refused h access 0 pte then ok none else ok (some (leaf_address 0 pte vaddr)))
        ≡ Result.ok (Sv32.second_level h access vaddr pte)
  page_result pte hp v l =
      rw (leaf_refused-eq h access 0 pte l, page_address 0 pte vaddr hp refl, v, l)
        (choose (Sv32.permits h access pte) _)
    where
      choose :
          (b : Bool) (x : ℕ)
          → (if not (b && true) then ok none else ok (some x))
            ≡ Result.ok (if b then some x else none)
      choose true x = refl
      choose false x = refl

  superpage_result :
      (pte : ℕ)
      → IsU32 pte
      → Sv32.is_leaf pte ≡ true
      → (if leaf_refused h access 1 pte then ok none else ok (some (leaf_address 1 pte vaddr)))
        ≡ Result.ok (Sv32.superpage_leaf h access vaddr pte)
  superpage_result pte hp l =
      rw (leaf_refused-eq h access 1 pte l, misaligned-eq pte hp)
        (choose (Sv32.permits h access pte) (Sv32.page_number pte % 2 ^ 10)
          (superpage_address pte vaddr hp))
    where
      choose :
          (b : Bool) (n : ℕ) {x y : ℕ}
          → (n ≡ 0 → x ≡ y)
          → (if not (b && not (not (n == 0))) then ok none else ok (some x))
            ≡ Result.ok (if b && n == 0 then some y else none)
      choose b n e = ground (arith, e)

  -- The second round, where its entry is no pointer.
  second_round :
      (fuel pte : ℕ)
      → IsU32 pte
      → is_pointer pte ≡ false
      → round fuel 0 pte ≡ ok (Sv32.second_level h access vaddr pte)
  second_round fuel pte hp shallow = elim (Bool-cases (Sv32.is_valid pte)) [
    | inr v ↦ round-invalid fuel 0 pte v ∙ rw v refl
    | inl v ↦ elim (Bool-cases (Sv32.is_leaf pte)) [
      | inr l ↦ absurd (no_pointer pte v l shallow)
      | inl l ↦ round-leaf fuel 0 pte v l ∙ page_result pte hp v l
    ]
  ]

  pointer : (pte : ℕ) → Sv32.is_valid pte ≡ true → Sv32.is_leaf pte ≡ false → is_pointer pte ≡ true
  pointer pte v l = rw (v, l) refl

  decrement-one : decrement 1 ≡ 0
  unfolding decrement
  decrement-one = refl

  second_walk :
      (fuel pte : ℕ)
      → IsU32 pte
      → ((pte' : ℕ) → second_read h pte vaddr ≡ ok pte' → is_pointer pte' ≡ false)
      → walk (suc fuel) h access vaddr (decrement 1) (next_base pte)
        ≡ result_bind (second_read h pte vaddr) (λ pte'. ok (Sv32.second_level h access vaddr pte'))
  second_walk fuel pte hp shallow = rw decrement-one (
      walk-suc fuel 0 (next_base pte)
      ∙ ap (λ a. result_bind (Manager.read_word basic_memory_handler h.mem a) (round fuel 0))
          (second_addr pte hp)
      ∙ bind-agree (second_read h pte vaddr) (λ pte' e.
        second_round fuel pte' (read_word-lt basic_memory_handler h.mem _ _ e) (shallow pte' e)))

  -- The first round with the second behind it.
  first_round :
      (fuel pte : ℕ)
      → IsU32 pte
      → ((pte' : ℕ)
          → second_read h pte vaddr ≡ ok pte'
          → is_pointer pte ≡ true
          → is_pointer pte' ≡ false)
      → round (suc fuel) 1 pte ≡ (
          if not (Sv32.is_valid pte)
          then ok none
          else if Sv32.is_leaf pte
          then ok (Sv32.superpage_leaf h access vaddr pte)
          else result_bind
              (second_read h pte vaddr)
              (λ pte'. ok (Sv32.second_level h access vaddr pte')))
  first_round fuel pte hp shallow = elim (Bool-cases (Sv32.is_valid pte)) [
    | inr v ↦ round-invalid (suc fuel) 1 pte v ∙ rw v refl
    | inl v ↦ elim (Bool-cases (Sv32.is_leaf pte)) [
      | inl l ↦ round-leaf (suc fuel) 1 pte v l ∙ superpage_result pte hp l ∙ rw (v, l) refl
      | inr l ↦
          round-pointer (suc fuel) 1 pte v l
          ∙ second_walk fuel pte hp (λ pte' e. shallow pte' e (pointer pte v l))
          ∙ rw (v, l) refl
    ]
  ]

-- For a 32-bit address and tables of two levels, where no entry of the second level that the loop
-- reaches points to a further table, the loop of `translateAddress` with fuel for two rounds or more
-- ends with the two levels of Sv32 over the entries that it reads: the same accesses are refused, and
-- the same address is found for pages and superpages.
pub walk-lookup :
    (fuel : ℕ) (h : Hart) (access : MemoryAccessType) (vaddr base : ℕ)
    → IsU32 vaddr
    → IsShallowWalk h vaddr base
    → walk (suc (suc fuel)) h access vaddr 1 base
      ≡ result_bind (first_read h base vaddr) (levels h access vaddr)
walk-lookup fuel h access vaddr base hv shallow =
    walk-suc h access vaddr (suc fuel) 1 base
    ∙ ap
        (λ a.
          result_bind (Manager.read_word basic_memory_handler h.mem a)
            (round h access vaddr (suc fuel) 1))
        (first_addr h access vaddr base ∙ ap (λ n. u32 (base + n * 4)) (omega arith))
    ∙ bind-agree (first_read h base vaddr) (λ pte e.
      first_round h access vaddr fuel pte (read_word-lt basic_memory_handler h.mem _ _ e)
        (λ pte' e' p. shallow pte pte' e e' p))

module _ (h : Hart) (vaddr base pte : ℕ) where
  any_round :
      Manager.read_word basic_memory_handler h.mem (pte_addr 0 base vaddr) ≡ ok pte
      → Manager.read_word basic_memory_handler h.mem (pte_addr 1 base vaddr) ≡ ok pte
      → (i : ℕ) → Manager.read_word basic_memory_handler h.mem (pte_addr i base vaddr) ≡ ok pte
  unfolding pte_addr
  any_round e₀ e₁ zero = e₀
  any_round e₀ e₁ (suc i) = ground arith

-- Where a valid entry that is no leaf stands at both places that the loop reads from its own table,
-- the loop never ends: with whatever fuel it runs out of it.
pub walk-cycle :
    (fuel : ℕ) (h : Hart) (access : MemoryAccessType) (vaddr i base pte : ℕ)
    → is_pointer pte ≡ true
    → next_base pte ≡ base
    → Manager.read_word basic_memory_handler h.mem (pte_addr 0 base vaddr) ≡ ok pte
    → Manager.read_word basic_memory_handler h.mem (pte_addr 1 base vaddr) ≡ ok pte
    → walk fuel h access vaddr i base ≡ err out_of_fuel
unfolding walk
walk-cycle zero h access vaddr i base pte p c e₀ e₁ = refl
walk-cycle (suc fuel) h access vaddr i base pte p c e₀ e₁ =
    walk-suc h access vaddr fuel i base
    ∙ ap (λ r. result_bind r (round h access vaddr fuel i)) (any_round h vaddr base pte e₀ e₁ i)
    ∙ (round-pointer h access vaddr fuel i pte (ground arith) (ground arith)
        ∙ rw c (walk-cycle fuel h access vaddr (decrement i) base pte p c e₀ e₁))
