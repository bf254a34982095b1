-- ===== src/Lib.antt =====
-- tosemu runs programs for Atari TOS on a host: a 68000 core executes the code, and the traps into
-- GEMDOS, BIOS and XBIOS are answered by C functions. This library models those functions and the
-- emulated memory below them.
--
-- The parts and their files:
--   * memory.c, memory.h: `Memory.Area` has the list of areas with its search and removal,
--     `Memory.Access` the byte accesses (`tos_read`, `tos_write`) with the permissions, `Memory` the
--     functions for words (`m68k_read_memory_32` and so on) and for registering areas. `Memory.Cells`
--     describes which host byte an address leads to, `Memory.Words` big-endian numbers in host
--     memory, `Memory.Flat` the flat memory that a program may count on, `Memory.Accesses` the widths of
--     what the accesses answer; `Memory.Laws` and `Memory.Removal` are theorems.
--   * cpu.c: `Cpu`, and `Cpu.Stack` for its theorems. The mode functions and `pop_u32` stand in
--     `Memory.Access`, since a memory access asks for the mode and Supexec's magic memory pops.
--   * gemdosmem.c: `GemdosMem` has the list of areas and the functions on it, and `Gemdos.MemCalls`
--     the handlers that peek the arguments. `GemdosMem.Invariant`, `Blocks`, `Calls` and `Gaps` are
--     theorems.
--   * gemdosfile.c: `GemdosFile.State`, `Path` (`path_from_tos`), `Handles`, `Access` (paths and bytes
--     in emulated memory), `Calls` and `Streams` (the handlers), `Globs` and `Search` (Fsfirst,
--     Fsnext). `PathLaws`, `HandleLaws`, `GlobLaws`, `Reading`, `Transfers` (Fread and Fwrite),
--     `Opening` (Fopen) and `Reserved` are theorems, and so are `OpenFiles` and `FileCalls` (the table of handles as a map), and
--     `Dta`, `Listing` and `Directory` (a whole search). `DosTime` has the packed dates and times of this file and gemdos.c.
--   * gemdoscon.c: `GemdosCon`, with `Output`, `Input` and `Raw` for its theorems. gemdos.c: `Gemdos`,
--     with `Gemdos.Modes` for Super, `Gemdos.Dispatch` and `Gemdos.Memory` for the traps' theorems and
--     `Errors` for the codes of gemdos_p.h.
--   * bios.c: `Bios` (theorems in `Bios.Vectors`). xbios.c: `Xbios`, with `Xbios.Registers`,
--     `Xbios.Supexec`, `Xbios.Return` and `Xbios.RoundTrip` for its theorems.
--     `Trap` is the table loop that the three trap functions share. utils.c: `Utils` (with
--     `Utils.Reversal`) and `Console`.
--   * tossystem.c: `TosSystem` (`m68k_trap`), `TosSystem.Layout` (the memory map),
--     `TosSystem.Loader` (command line and relocation), `TosSystem.Header` (the header of a binary and
--     the base page) and `TosSystem.Start` (`init_tos_environment`, `free_tos_environment`, with
--     `gemdos_init` of gemdos.c); `TosSystem.Areas`, `TosSystem.Places` (the map in both
--     modes), `TosSystem.Executable` (the file format), `TosSystem.Relocation`, `TosSystem.Relocated`,
--     `TosSystem.ImageBytes`, `TosSystem.BasePage`, `TosSystem.UserMemory` and `TosSystem.UserAccesses` (the
--     memory of a user program) are theorems.
--   * main.c: `Main`, over the functions of the CPU core that it calls (`Core`); `Main.Loop`,
--     `Main.Ending` and `Main.Outcome` are theorems.
--   * The whole: `Machine.Keeps` and `Machine.Post` have the rules by which a property goes through a
--     run, `System.Access`, `System.Console` and `System.Files` what the functions leave alone,
--     `System.Sound` the invariant of the system with the functions that change its parts,
--     `System.Traps` the traps, and `System.Steps` the step relation of the CPU core: it changes its
--     registers, or calls one of the functions that the program gives it. `System.Started`,
--     `System.Loading`, `System.Ready` and `System.Relocating` are about the start. `GemdosMem.Bag` has the abstract memory manager, a bag
--     of blocks.
--
-- The state of all source files is one record, `Machine`. A function of the program takes fuel and a
-- state and returns a `Run`: a value and a state, a call of `exit`, a fault (a NULL pointer is used),
-- or the end of the fuel. The fuel bounds loops over emulated memory and the nesting of reads: a
-- read of the magic memory pops from the stack, which is a read again. Where the stack is in mapped
-- memory, fuel 1 is enough for a read. `reset_memory` needs one unit more than there are areas.
--
-- A number of w bits is a natural number with its wrap-around written out. A C string is the list of
-- its bytes without the terminator. Host memory is a function from addresses to bytes, so that the
-- buffers that the program allocates are base addresses; overlaps are not excluded.
--
-- The 68000 core and the C library are the parameters `Platform` and, for the start of the program,
-- `Platform.Host` and `Main.Core`. `CpuLaws` are the laws of the core's registers that theorems use: a
-- written register is read back, others keep their values, and A7 is the user's or the supervisor's
-- stack pointer by the mode bit. `TerminalLaws` are those of the
-- terminal's modes. `Main.Loop.CoreLaws` says that the core works by the step relation.
-- `malloc` occurs twice: in `Platform` for blocks of which only the success matters, in `Host` for
-- buffers, with their addresses. `Platform.Example` has an instance, and `Tests` the theorems at
-- concrete inputs.
--
-- The execution loop of main.c and the loops below it share the fuel of `main`, which bounds the number
-- of instructions, too.
--
-- Not modelled: the core Musashi itself, vendored code of another project; what is printed with
-- `printf` for diagnosis; failures of the host's `malloc` of list nodes in gemdosmem.c, which the
-- source does not test either; what the host reads behind the end of a mapped file, which is a fault
-- here.
pub mod Base
pub mod Errors
pub mod GemdosMem
pub mod Platform
pub mod Memory
pub mod GemdosFile
pub mod Machine
pub mod Cpu
pub mod Trap
pub mod Console
pub mod Xbios
pub mod Bios
pub mod GemdosCon
pub mod DosTime
pub mod Utils
pub mod Gemdos
pub mod TosSystem
pub mod System
pub mod Main
pub mod Tests
