-- ===== src/Bios.antt =====
-- bios.c: the BIOS functions and their table.
pub mod Vectors
use tosemu.Base.{ℕ, ◌*◌, List, [], ◌∷◌, none, some, ◌==◌, if◌then◌else◌, bit_and}
use tosemu.Platform.{Platform}
use tosemu.Machine.{M, pure, ◌>>=◌, ◌>>◌}
use tosemu.Memory.{m68k_read_memory_32, m68k_write_memory_32}
use tosemu.Cpu.{peek_u16, peek_u32}
use tosemu.Console.{console_input_available, getchar, putchar}
use tosemu.Trap.{Function, row, trap_loop}

module _ ⦃p : Platform⦄ where
  unfoldable pub setexc : M ℕ
  setexc = do
    nm ← peek_u16 2
    vec ← peek_u32 4
    old ← m68k_read_memory_32 (4 * nm)
    m68k_write_memory_32 (4 * nm) vec
    pure old

  -- Device 2 is the console, here and below.
  unfoldable pub bconin : M ℕ
  unfolding console_input_available getchar
  bconin = do
    dev ← peek_u16 2
    if dev == 2
        then (do
          ready ← console_input_available
          if ready then (do c ← getchar; pure (bit_and c 0xff)) else pure 0)
        else pure 0

  unfoldable pub bconout : M ℕ
  unfolding putchar
  bconout = do dev ← peek_u16 2; c ← peek_u16 4; if dev == 2 then putchar c >> pure 0 else pure 0

  unfoldable pub bconstat : M ℕ
  unfolding console_input_available
  bconstat = do
    dev ← peek_u16 2
    if dev == 2
        then (do ready ← console_input_available; if ready then pure 0xffff_ffff else pure 0)
        else pure 0

  unfoldable pub bcostat : M ℕ
  bcostat = do dev ← peek_u16 2; if dev == 2 then pure 0xffff_ffff else pure 0

  unfoldable pub bios_functions : List (Function p)
  bios_functions =
      row "Bconin" (some bconin) 0x02
      ∷ row "Bconout" (some bconout) 0x03
      ∷ row "Bconstat" (some bconstat) 0x01
      ∷ row "Bcostat" (some bcostat) 0x08
      ∷ row "Drvmap" none 0x0a
      ∷ row "Getbpb" none 0x07
      ∷ row "Getmpb" none 0x00
      ∷ row "Kbshift" none 0x0b
      ∷ row "Mediach" none 0x09
      ∷ row "Rwabs" none 0x04
      ∷ row "Setexc" (some setexc) 0x05
      ∷ row "Tickcal" none 0x06
      ∷ []

  unfoldable pub bios_trap : (past_end : Function p) → M (Unit {0})
  unfolding trap_loop
  bios_trap past_end = do fnct ← peek_u16 0; trap_loop bios_functions past_end fnct
