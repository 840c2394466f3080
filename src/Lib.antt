-- ===== src/Lib.antt =====
-- A model of the RV32IMA emulator: a RISC-V hart with supervisor and user mode, Sv32 paging and the
-- calls of the supervisor binary interface, and the program that boots a kernel on it.
--
-- The parts and their files, with the sources by their path from the root of the repository:
--   * BitField (src/bit_field.hpp): `BitField<T, BEGIN, END>` as `get_field` and `set_field` on a word;
--     BitField/Defs has the definitions.
--   * Instruction (src/rv32/instruction.hpp): the fields and immediates of an instruction word.
--   * Decoder (src/rv32/decoder.hpp, src/rv32/decoder.cpp): `decodeInstructionType` and `decodeOpcode`,
--     one function for each class of instructions.
--   * Memory: Memory/Handler is the abstract class of src/mem_map_handler.hpp, as its operations and
--     the laws a client relies on; Memory/Basic is src/basic_memory.cpp, which fulfils them; and
--     Memory/Manager is src/mem_map_manager.cpp over any handler.
--   * Csr and Csr/Address (src/rv32/csr.hpp): the control and status registers.
--   * Vmem (src/rv32/vmem.hpp): the bit fields of addresses and page table entries.
--   * Hart (src/rv32/hart.hpp, src/rv32/hart.cpp): Hart/State is the class, Hart/Trap has
--     `handleException`, `handleInterrupts` and SRET, Hart/Translate has `translateAddress`, Hart/Alu,
--     Hart/LoadStore, Hart/Control and Hart/System have the cases of `stepInstruction`, Hart/Counters
--     has `incrementCounters`, and Hart/Step puts a step together.
--   * Console and Main (src/main.cpp): the callbacks, `loadMemory`, the main loop and `main`. Main/Load is
--     about a file, Main/Boot about what `main` boots, and Main/Safety and Main/Loop about every hart that
--     it reaches.
--   * Outcome (src/emulator_exception.cpp): exceptions and failed assertions as values, with the state
--     at that point, and the monad of the stateful code. Prelude has shared helpers.
--   * Hart/Translate/Sv32 describes the page tables independently of the source, Instruction/Formats and
--     Decoder/Encode the instruction words: the formats and the tables of the RISC-V manual, as an
--     assembler. Hart/Assembled is about assembled instructions, from the fetch to the next address.
--   * Hart/Manual has what the instructions compute by the RISC-V manual, and the numbers of the CSRs with
--     their modes, independently of the source; its children compare the source with that.
--   * Hart/WellFormed is the invariant of the hart and Hart/Invariant its proof; Hart/Privilege is about
--     the modes: what an instruction in user mode can reach. Tests has concrete machines.
--
-- Numbers are natural numbers, with every wrap-around of `uint32_t` and `uint64_t` written out; a signed
-- value is a bit pattern that is converted where the source casts. Integers have the sizes of a 64-bit
-- target, where `char` is signed.
--
-- Fuel and bounds: the loop of `translateAddress` has no end of its own, so the model gives it fuel and
-- fails with `out_of_fuel`; two rounds are enough where no entry of the second level points to a
-- further table. The main loop runs for a list of readings of the clock, one for each step.
--
-- Parameters: the clock, the period that a floating-point expression computes, the first value of the
-- CSRs (the constructor sets none), the content of the files, and the results of `getch`.
-- Not modelled: the set-up of the terminal (`initCurses`, `endwin`), the text of messages, and the data
-- under linux.
pub mod Prelude
pub mod BitField
pub mod Outcome
pub mod Instruction
pub mod Decoder
pub mod Memory
pub mod Console
pub mod Csr
pub mod Vmem
pub mod Hart
pub mod Main
pub mod Tests
