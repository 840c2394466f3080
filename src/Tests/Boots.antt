-- ===== src/Tests/Boots.antt =====
-- The theorems about `main`, with small files.
use riscv32_emulator.Prelude.{ℕ, refl, List, [], ◌∷◌, arith, Option, some, none}
use riscv32_emulator.Console.{LinuxFile, image, initramfs, device_tree}
use riscv32_emulator.Main.{main}
use riscv32_emulator.Main.Safety.{Reaches, main-IsSafe}
use riscv32_emulator.Main.Boot.{files_of, IsBooted, main-IsBooted, NeverRuns, main-NeverRuns}
use riscv32_emulator.Hart.Privilege.Steps.{IsSafe}
use riscv32_emulator.Tests.Demo.{csrs, csrs-AreWords, quiet}

-- `ecall` and nothing else.
abbrev kernel : List ℕ
kernel = 0x73 ∷ 0 ∷ 0 ∷ 0 ∷ []

abbrev files : LinuxFile → Option (List ℕ)
files = files_of kernel (1 ∷ 2 ∷ []) (3 ∷ [])

-- The last file is missing.
abbrev two_files : LinuxFile → Option (List ℕ)
two_files image = some kernel
two_files initramfs = some (1 ∷ 2 ∷ [])
two_files device_tree = none

main-IsSafe_example : Reaches IsSafe (main 2 (2000 ∷ 3000 ∷ []) files 1000 100 csrs quiet)
main-IsSafe_example = main-IsSafe files quiet 2 (2000 ∷ 3000 ∷ []) 1000 100 csrs csrs-AreWords

main-IsBooted_example :
    IsBooted 2
      (2000 ∷ [])
      1000
      100
      csrs
      quiet
      kernel
      (1 ∷ 2 ∷ [])
      (3 ∷ [])
      (main 2 (2000 ∷ []) files 1000 100 csrs quiet)
main-IsBooted_example =
    main-IsBooted 2 (2000 ∷ []) 1000 100 csrs quiet kernel (1 ∷ 2 ∷ []) (3 ∷ []) (omega arith)
      (omega arith) (omega arith)

main-NeverRuns_example :
    NeverRuns two_files quiet (main 2 (2000 ∷ []) two_files 1000 100 csrs quiet)
main-NeverRuns_example = main-NeverRuns two_files quiet device_tree 2 (2000 ∷ []) 1000 100 csrs refl
