-- ===== src/Main/Boot.antt =====
-- `main` of src/main.cpp: the files, and the start of the hart.
use riscv32_emulator.Prelude.{
  ℕ, ◌≢◌, [], ◌∷◌, ◌+◌, ◌-◌, ◌≤◌, ◌<◌, ◌≡◌, ◌∙◌, refl, ap, sym, subst, Bool, true, false, ltb, List,
  Option, some, none, if◌then◌else◌, arith,
}
use riscv32_emulator.Prelude.Lists.{length}
use riscv32_emulator.Outcome.{Failure, Outcome, done, fail}
use riscv32_emulator.Console.{World, LinuxFile, image, initramfs, device_tree, print, trouble}
use riscv32_emulator.Memory.Manager.{register_handler}
use riscv32_emulator.Hart.State.{Hart, new_hart}
use riscv32_emulator.Csr.{Csrs}
use riscv32_emulator.Memory.Basic.{BasicMemory}
use riscv32_emulator.Main.{
  load_memory, run, boot, main_memory, start_address, Exit, not_loaded, ended, load_or_exit, main,
  aborted,
}
use riscv32_emulator.Main.Load.{IsLoaded, load_memory-IsLoaded, overlay, byte_or, get_elem?}

module _ (files : LinuxFile → Option (List ℕ)) (w : World) where
  load_or_exit-IsLoaded :
      (name : LinuxFile) (next : BasicMemory → Exit) {m : BasicMemory} {offset : ℕ} {bytes : List ℕ}
      → (l : IsLoaded m offset bytes (load_memory (files name) (start_address name) m))
      → load_or_exit files name w next m ≡ next l.loaded
  unfolding load_or_exit
  load_or_exit-IsLoaded name next l =
      ap
        (λ (o : Outcome BasicMemory Bool). elim o [
          | done true memory' ↦ next memory'
          | done false memory' ↦ not_loaded (print (trouble name) w)
          | fail e memory' ↦ ended (aborted e)
        ])
        l.returns

  -- Memory where `main` comes to load the file: the files before it are loaded.
  pub data UpTo : LinuxFile → BasicMemory → Type 0 where
    at_image : UpTo image main_memory
    at_initramfs :
        {m m' : BasicMemory}
        → UpTo image m
        → load_memory (files image) 0x80400000 m ≡ done true m'
        → UpTo initramfs m'
    at_device_tree :
        {m m' : BasicMemory}
        → UpTo initramfs m
        → load_memory (files initramfs) 0x84400000 m ≡ done true m'
        → UpTo device_tree m'

  -- No step of a hart is made: the files before the file of the name are loaded, and that one either
  -- is not, and its message is printed, or fails an assertion.
  pub data NeverRuns : Exit → Type 0 where
    not_read :
        (name : LinuxFile) {m m' : BasicMemory}
        → UpTo name m
        → load_memory (files name) (start_address name) m ≡ done false m'
        → NeverRuns (not_loaded (print (trouble name) w))
    aborts :
        (name : LinuxFile) {m m' : BasicMemory} (e : Failure)
        → UpTo name m
        → load_memory (files name) (start_address name) m ≡ fail e m'
        → NeverRuns (ended (aborted e))

  abbrev after : LinuxFile → (BasicMemory → Exit) → Outcome BasicMemory Bool → Exit
  after name next o = elim o [
    | done true memory' ↦ next memory'
    | done false memory' ↦ not_loaded (print (trouble name) w)
    | fail e memory' ↦ ended (aborted e)
  ]

  after-NeverRuns :
      (name : LinuxFile) (next : BasicMemory → Exit) {m : BasicMemory}
      (o : Outcome BasicMemory Bool)
      → UpTo name m
      → load_memory (files name) (start_address name) m ≡ o
      → ((m' : BasicMemory)
          → load_memory (files name) (start_address name) m ≡ done true m'
          → NeverRuns (next m'))
      → NeverRuns (after name next o)
  after-NeverRuns name next (done true m') u e k = k m' e
  after-NeverRuns name next (done false m') u e k = not_read name u e
  after-NeverRuns name next (fail f m') u e k = aborts name f u e

  load_or_exit-NeverRuns :
      (name : LinuxFile) (next : BasicMemory → Exit) {m : BasicMemory}
      → UpTo name m
      → ((m' : BasicMemory)
          → load_memory (files name) (start_address name) m ≡ done true m'
          → NeverRuns (next m'))
      → NeverRuns (load_or_exit files name w next m)
  unfolding load_or_exit
  load_or_exit-NeverRuns name next u k = after-NeverRuns name next _ u refl k

  missing-NeverRuns :
      (name : LinuxFile) (next : BasicMemory → Exit) {m : BasicMemory}
      → files name ≡ none
      → UpTo name m
      → NeverRuns (load_or_exit files name w next m)
  unfolding load_or_exit load_memory
  missing-NeverRuns name next {m = m} e u =
      subst (λ o. NeverRuns (after name next o)) (sym none_loaded) (not_read name u none_loaded)
    where
      none_loaded : load_memory (files name) (start_address name) m ≡ done false m
      none_loaded = ap (λ f. load_memory f (start_address name) m) e

  -- If one of the three files does not open, `main` never runs a step. Of the files kernel, initial
  -- file system and device tree, in that order, the ones before some file are loaded into the memory
  -- of zeros, and loading that file either returns false, and `main` prints the message with its name
  -- and returns -1, or fails, and the process ends with the failure.
  pub main-NeverRuns :
      (name : LinuxFile) (fuel : ℕ) (clock : List ℕ) (now period : ℕ) (csr : Csrs)
      → files name ≡ none
      → NeverRuns (main fuel clock files now period csr w)
  unfolding main start_address
  main-NeverRuns image fuel clock now period csr e = missing-NeverRuns image _ e at_image
  main-NeverRuns initramfs fuel clock now period csr e =
      load_or_exit-NeverRuns image _ at_image
        λ _ l₀. missing-NeverRuns initramfs _ e (at_initramfs at_image l₀)
  main-NeverRuns device_tree fuel clock now period csr e =
      load_or_exit-NeverRuns image _ at_image λ _ l₀.
        load_or_exit-NeverRuns initramfs _ (at_initramfs at_image l₀)
          λ _ l₁. missing-NeverRuns device_tree _ e (at_device_tree (at_initramfs at_image l₀) l₁)

-- Three files that open.
abbrev pub files_of : List ℕ → List ℕ → List ℕ → LinuxFile → Option (List ℕ)
files_of kernel ramfs tree image = some kernel
files_of kernel ramfs tree initramfs = some ramfs
files_of kernel ramfs tree device_tree = some tree

-- The loop runs from a hart in supervisor mode with this memory, at the kernel and with the address of
-- the device tree in `a1`, and with zeros in the other registers.
pub record IsBooted (fuel : ℕ) (clock : List ℕ) (now period : ℕ) (csr : Csrs) (w : World)
    (kernel ramfs tree : List ℕ) (x : Exit) : Type 0 where
  pub memory : BasicMemory
  pub hart : Hart
  pub runs : x ≡ ended (run fuel clock hart)
  pub same_mem : hart.mem.handlers ≡ memory ∷ []
  pub starts_at : hart.pc ≡ 0x80400000
  pub tree_address : hart.gpr 11 ≡ 0x87000000
  pub others_zero : (j : ℕ) → j ≢ 11 → hart.gpr j ≡ 0
  pub in_supervisor : hart.supervisor_mode ≡ true
  pub same_base : memory.base ≡ 0x80000000
  pub same_size : memory.region_size ≡ 0x8000000
  pub contents :
      (j : ℕ)
      → memory.memory_array j
        ≡ overlay (overlay (overlay (λ _. 0) 0x400000 kernel) 0x4400000 ramfs) 0x7000000 tree j

overlay-ap :
    {f g : ℕ → ℕ} (offset : ℕ) (bytes : List ℕ) (j : ℕ)
    → ((i : ℕ) → f i ≡ g i)
    → overlay f offset bytes j ≡ overlay g offset bytes j
overlay-ap offset bytes j e =
    ap (λ t. if ltb j offset then t else byte_or t (get_elem? bytes (j - offset))) (e j)

-- A file that fits, in the region of the memory of `main`.
fitting-IsLoaded :
    (offset : ℕ) (bytes : List ℕ) (m : BasicMemory)
    → m.base ≡ 0x80000000
    → m.region_size ≡ 0x8000000
    → offset + length bytes ≤ 0x8000000
    → length bytes < 0x8000000
    → IsLoaded m offset bytes (load_memory (some bytes) (0x80000000 + offset) m)
fitting-IsLoaded offset bytes m b r h₀ h₁ =
    subst (λ k. IsLoaded m k bytes (load_memory (some bytes) (0x80000000 + offset) m)) (omega arith)
      (load_memory-IsLoaded bytes (0x80000000 + offset) m (omega arith) (omega arith) (omega arith)
        (omega arith))

module _ (kernel ramfs tree : List ℕ)
    (first : IsLoaded main_memory 0x400000 kernel
      (load_memory (some kernel) 0x80400000 main_memory))
    (second : IsLoaded first.loaded 0x4400000 ramfs
      (load_memory (some ramfs) 0x84400000 first.loaded))
    (third : IsLoaded second.loaded 0x7000000 tree
      (load_memory (some tree) 0x87000000 second.loaded)) where
  loaded-IsBooted :
      (fuel : ℕ) (clock : List ℕ) (now period : ℕ) (csr : Csrs) (w : World)
      → IsBooted fuel clock now period csr w kernel ramfs tree
          (main fuel clock (files_of kernel ramfs tree) now period csr w)
  unfolding main start_address boot new_hart register_handler
  loaded-IsBooted fuel clock now period csr w =
      let files = files_of kernel ramfs tree in
      record {
        memory = third.loaded;
        hart = boot now period csr third.loaded w;
        same_mem = refl;
        starts_at = refl;
        tree_address = refl;
        others_zero = λ j n. ground arith;
        in_supervisor = refl;
        runs =
            load_or_exit-IsLoaded files w image _ first
            ∙ load_or_exit-IsLoaded files w initramfs _ second
            ∙ load_or_exit-IsLoaded files w device_tree _ third;
        same_base = third.same_base ∙ second.same_base ∙ first.same_base;
        same_size = third.same_size ∙ second.same_size ∙ first.same_size;
        contents = λ j.
            third.contents j
            ∙ overlay-ap 0x7000000 tree j
                λ i. second.contents i ∙ overlay-ap 0x4400000 ramfs i first.contents;
      }

-- Three files that fit behind the addresses they are loaded to: `main` boots and runs its loop from a
-- hart in supervisor mode at 0x80400000, with 0x87000000 in `a1` and zeros in the other registers, with
-- the kernel at 0x80400000, the initial file system at 0x84400000 and the device tree at 0x87000000
-- in a memory of zeros; a byte that two of the files cover is of the later one.
pub main-IsBooted :
    (fuel : ℕ) (clock : List ℕ) (now period : ℕ) (csr : Csrs) (w : World)
    (kernel ramfs tree : List ℕ)
    → length kernel ≤ 0x7c00000
    → length ramfs ≤ 0x3c00000
    → length tree ≤ 0x1000000
    → IsBooted fuel clock now period csr w kernel ramfs tree
        (main fuel clock (files_of kernel ramfs tree) now period csr w)
main-IsBooted fuel clock now period csr w kernel ramfs tree hk hr ht =
    let first =
      fitting-IsLoaded 0x400000 kernel main_memory refl refl (omega arith) (omega arith) in
    let second =
      fitting-IsLoaded 0x4400000 ramfs first.loaded first.same_base first.same_size (omega arith)
        (omega arith) in
    let third =
      fitting-IsLoaded 0x7000000 tree second.loaded (second.same_base ∙ first.same_base)
        (second.same_size ∙ first.same_size) (omega arith) (omega arith) in
    loaded-IsBooted kernel ramfs tree first second third fuel clock now period csr w
