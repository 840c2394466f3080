-- ===== src/Main/Load.antt =====
-- `loadMemory` of src/main.cpp.
use riscv32_emulator.Prelude.{
  ℕ, zero, suc, ◌+◌, ◌-◌, ◌≤◌, ◌<◌, ◌≡◌, ◌∙◌, refl, ap, Bool, true, ◌||◌, ltb, leb, List, [], ◌∷◌,
  Option, some, none, if◌then◌else◌, if_true, if_false, if_cases, ap₂, sym, u8, u32, IsU32, arith,
}
use riscv32_emulator.Prelude.Lists.{length}
use riscv32_emulator.Outcome.{Outcome, done, fail}
use riscv32_emulator.Memory.Basic.{BasicMemory, write_byte, in_region, update}
use riscv32_emulator.Main.{load_bytes, load_memory}

abbrev pub get_elem? : List ℕ → ℕ → Option ℕ
get_elem? [] i = none
get_elem? (b ∷ bytes) zero = some b
get_elem? (b ∷ bytes) (suc i) = get_elem? bytes i

abbrev pub byte_or : ℕ → Option ℕ → ℕ
byte_or old none = old
byte_or old (some b) = u8 b

-- An array with `bytes` put at `offset`.
abbrev pub overlay : (ℕ → ℕ) → ℕ → List ℕ → ℕ → ℕ
overlay f offset bytes j =
    if ltb j offset then f j else byte_or (f j) (get_elem? bytes (j - offset))

-- The load returned true; the region is the same, and its array holds the bytes from `offset` on
-- and, everywhere else, what it held.
pub record IsLoaded (m : BasicMemory) (offset : ℕ) (bytes : List ℕ) (o : Outcome BasicMemory Bool)
    : Type 0 where
  pub loaded : BasicMemory
  pub returns : o ≡ done true loaded
  pub same_base : loaded.base ≡ m.base
  pub same_size : loaded.region_size ≡ m.region_size
  pub contents : (j : ℕ) → loaded.memory_array j ≡ overlay m.memory_array offset bytes j

-- One byte in front.
get_elem?-head : (b : ℕ) (bytes : List ℕ) (i : ℕ) → i ≡ 0 → get_elem? (b ∷ bytes) i ≡ some b
get_elem?-head b bytes zero h = refl
get_elem?-head b bytes (suc i) h = absurd (omega arith)

get_elem?-tail :
    (b : ℕ) (bytes : List ℕ) (i k : ℕ) → i ≡ suc k → get_elem? (b ∷ bytes) i ≡ get_elem? bytes k
get_elem?-tail b bytes i k h = rw h refl

overlay-cons :
    (f : ℕ → ℕ) (offset b : ℕ) (bytes : List ℕ) (j : ℕ)
    → overlay (update f offset (u8 b)) (suc offset) bytes j ≡ overlay f offset (b ∷ bytes) j
overlay-cons f offset b bytes j = ground (
  arith,
  get_elem?-head b bytes (j - offset),
  get_elem?-tail b bytes (j - offset) (j - suc offset),
)

-- The memory after one byte.
abbrev after_byte : ℕ → ℕ → BasicMemory → BasicMemory
after_byte addr b m = record m { memory_array = update m.memory_array (addr - m.base) (u8 b) }

load_bytes-cons :
    (b : ℕ) (bytes : List ℕ) (addr last : ℕ) (m : BasicMemory)
    → addr < last
    → in_region m addr ≡ true
    → load_bytes addr last (b ∷ bytes) m
      ≡ load_bytes (u32 (addr + 1)) last bytes (after_byte addr b m)
unfolding load_bytes write_byte
load_bytes-cons b bytes addr last m h r =
    if_true {b = ltb addr last} _ (ground arith)
    ∙ ap
        (λ (o : Outcome BasicMemory (Unit {0})). elim o [
          | done _ m' ↦ load_bytes (u32 (addr + 1)) last bytes m'
          | fail e m' ↦ fail e m'
        ])
        (if_true _ r)

load_bytes-nil : (addr : ℕ) (m : BasicMemory) → load_bytes addr addr [] m ≡ done true m
unfolding load_bytes
load_bytes-nil addr m = if_false {b = ltb addr addr} _ (ground arith)

load_bytes-IsLoaded :
    (bytes : List ℕ) (addr : ℕ) (m : BasicMemory)
    → m.base ≤ addr
    → addr + length bytes ≤ m.base + m.region_size
    → IsU32 (m.base + m.region_size)
    → IsLoaded m (addr - m.base) bytes (load_bytes addr (addr + length bytes) bytes m)
load_bytes-IsLoaded [] addr m h₀ h₁ h₂ = record {
  loaded = m;
  returns = ap (λ t. load_bytes addr t [] m) (omega arith) ∙ load_bytes-nil addr m;
  same_base = refl;
  same_size = refl;
  contents = λ j. sym (if_cases (λ t. t ≡ m.memory_array j) (ltb j (addr - m.base)) refl refl);
}
load_bytes-IsLoaded (b ∷ bytes) addr m h₀ h₁ h₂ =
    let rest =
      load_bytes-IsLoaded bytes (suc addr) (after_byte addr b m) (omega arith) (omega arith) h₂ in
    record {
      loaded = rest.loaded;
      returns =
          load_bytes-cons b bytes addr (addr + suc (length bytes)) m (omega arith) (ground arith)
          ∙ ap₂ (λ from to. load_bytes from to bytes (after_byte addr b m)) (omega arith)
              (omega arith)
          ∙ rest.returns;
      same_base = rest.same_base;
      same_size = rest.same_size;
      contents = λ j.
          rest.contents j
          ∙ ap (λ k. overlay (after_byte addr b m).memory_array k bytes j) (omega arith)
          ∙ overlay-cons m.memory_array (addr - m.base) b bytes j;
    }

-- A file that fits between `start` and the end of a region that ends below 2 ^ 32, and that is
-- smaller than the region, is loaded: `loadMemory` returns true, the array holds the bytes of the
-- file from `start` on, and nothing else changes.
pub load_memory-IsLoaded :
    (bytes : List ℕ) (start : ℕ) (m : BasicMemory)
    → m.base ≤ start
    → start + length bytes ≤ m.base + m.region_size
    → length bytes < m.region_size
    → IsU32 (m.base + m.region_size)
    → IsLoaded m (start - m.base) bytes (load_memory (some bytes) start m)
unfolding load_memory
load_memory-IsLoaded bytes start m h₀ h₁ h₂ h₃ =
    let bytes_loaded = load_bytes-IsLoaded bytes start m h₀ h₁ h₃ in
    record {
      loaded = bytes_loaded.loaded;
      returns =
          if_false {b = ltb start m.base || leb m.region_size (u32 (length bytes))} _ (ground arith)
          ∙ ap (λ t. load_bytes start t bytes m) (omega arith)
          ∙ bytes_loaded.returns;
      same_base = bytes_loaded.same_base;
      same_size = bytes_loaded.same_size;
      contents = bytes_loaded.contents;
    }
