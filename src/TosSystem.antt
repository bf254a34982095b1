-- ===== src/TosSystem.antt =====
-- tossystem.c: the start of the emulated system and the trap dispatch.
pub mod UserMemory
pub mod UserAccesses
pub mod Loader
pub mod Relocation
pub mod Relocated
pub mod Layout
pub mod Areas
pub mod Executable
pub mod Places
pub mod Header
pub mod Start
pub mod BasePage
pub mod ImageBytes
use tosemu.Base.{ℕ, ◌==◌, if◌then◌else◌}
use tosemu.Platform.{Platform}
use tosemu.Machine.{M, halt_execution}
use tosemu.Trap.{Function}
use tosemu.Gemdos.{gemdos_trap}
use tosemu.Bios.{bios_trap}
use tosemu.Xbios.{xbios_trap}

module _ ⦃p : Platform⦄ where
  -- `gemdos_end`, `bios_end` and `xbios_end` are what lies behind the three tables in host memory.
  unfoldable pub m68k_trap : (gemdos_end bios_end xbios_end : Function p) → ℕ → M (Unit {0})
  unfolding gemdos_trap bios_trap xbios_trap halt_execution
  m68k_trap gemdos_end bios_end xbios_end vector =
      if vector == 0x21
      then gemdos_trap gemdos_end
      else if vector == 0x22
      then halt_execution
      else if vector == 0x2d
      then bios_trap bios_end
      else if vector == 0x2e
      then xbios_trap xbios_end
      else halt_execution
