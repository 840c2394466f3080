-- ===== src/Console.antt =====
-- The process around the hart (src/main.cpp): the flag of the main loop, the terminal, and the
-- three callbacks that the hart is configured with. `getch` of ncurses is a parameter: the result
-- of its n-th call, as the bit pattern of an `int`.
use riscv32_emulator.Prelude.{ℕ, ◌+◌, Bool, false, List, [], ◌∷◌, ◌++◌, ◌==◌, if◌then◌else◌, u8}
use riscv32_emulator.Outcome.{Failure}

-- The files that `main` loads: linux/Image, linux/initramfs.cpio.gz and linux/emu.dtb.
pub data LinuxFile : Type 0 where
  image initramfs device_tree : LinuxFile

-- What goes to `std::cout`: a byte, the message of a caught exception with a line end, or the line
-- "Trouble reading file" with the name of the file.
pub data Output : Type 0 where
  byte : ℕ → Output
  message : Failure → Output
  trouble : LinuxFile → Output

pub record World : Type 0 where
  pub is_running : Bool
  pub output : List Output
  pub getch : ℕ → ℕ
  pub polls : ℕ

abbrev pub print : Output → World → World
print o w = record w { output = w.output ++ (o ∷ []) }

-- `emulatorPutchar`: a carriage return goes in front of a line feed.
unfoldable pub emulator_putchar : ℕ → World → World
emulator_putchar c w = if c == 10 then print (byte c) (print (byte 13) w) else print (byte c) w

-- `emulatorGetchar`: `char c = getch()`; the `char` -1 is the pattern 0xff.
unfoldable pub emulator_getchar : World → ℕ × World
emulator_getchar w =
    let c = u8 (w.getch w.polls) in
    (if c == 0xff then 0xff else c, record w { polls = w.polls + 1 })

-- `emulatorShutdown`
unfoldable pub emulator_shutdown : World → World
emulator_shutdown w = record w { is_running = false }

-- `HartConfig` of src/rv32/hart.hpp. The period that the constructor of the hart computes from
-- `timebaseFreq` in floating point is an argument of that constructor here.
pub record HartConfig : Type 0 where
  pub timebase_freq : ℕ
  pub shutdown_callback : World → World
  pub put_char_callback : ℕ → World → World
  pub get_char_callback : World → ℕ × World

abbrev pub emulator_config : HartConfig
emulator_config = record {
  timebase_freq = 10000000;
  shutdown_callback = emulator_shutdown;
  put_char_callback = emulator_putchar;
  get_char_callback = emulator_getchar;
}
