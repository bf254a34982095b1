-- ===== src/Xbios.antt =====
-- xbios.c: the XBIOS functions, Supexec with its magic memory, and the table. The saved registers,
-- restore_regs and magic_xbios_supexec_read are in `Memory.Access`, which needs them.
pub mod Registers
pub mod Supexec
pub mod Return
pub mod RoundTrip
use tosemu.Base.{ℕ, List, [], ◌∷◌, Option, none, some, ◌==◌, not, if◌then◌else◌}
use tosemu.Platform.{Platform, Register}
use tosemu.Machine.{State, M, done, pure, ◌>>=◌, ◌>>◌, m68k_get_reg, m68k_set_reg, halt_execution}
use tosemu.Memory.Access.{enable_supervisor_mode, saved_dregs, saved_aregs, tos_read, magic_read_by}
use tosemu.Cpu.{push_u32, peek_u16, peek_u32}
use tosemu.Trap.{Function, row, trap_loop}

module _ ⦃p : Platform⦄ where
  -- Custom value, to ensure that hardware-dependent code fails.
  unfoldable pub getrez : M ℕ
  getrez = pure 8

  -- The loops over D3 to D7 and A3 to A6.
  unfoldable pub get_regs : List Register → M (List ℕ)
  unfolding m68k_get_reg
  get_regs [] = pure []
  get_regs (r ∷ rs) = do v ← m68k_get_reg r; vs ← get_regs rs; pure (v ∷ vs)

  keep_regs : List ℕ → List ℕ → M (Unit {0})
  keep_regs ds as_ fuel m = done tt (record m { dreg = ds; areg = as_ })

  unfoldable pub save_regs : M (Unit {0})
  unfolding get_regs keep_regs
  save_regs = do ds ← get_regs saved_dregs; as_ ← get_regs saved_aregs; keep_regs ds as_

  unfoldable pub supexec : M ℕ
  unfolding save_regs enable_supervisor_mode m68k_get_reg m68k_set_reg
  supexec = do
    lv0 ← peek_u32 2
    save_regs
    enable_supervisor_mode
    pc ← m68k_get_reg Register.pc
    push_u32 pc
    push_u32 0x200
    m68k_set_reg Register.pc lv0
    pure 0

  unfoldable pub magic_xbios_supexec_read : ℕ → M ℕ
  unfolding magic_read_by
  magic_xbios_supexec_read address = magic_read_by tos_read address

  unfoldable pub magic_xbios_supexec_write : ℕ → ℕ → M (Unit {0})
  unfolding halt_execution
  magic_xbios_supexec_write address value = halt_execution

  unless_default : ℕ → M (Unit {0})
  unfolding halt_execution
  unless_default table = if not (table == 0xffff_ffff) then halt_execution else pure tt

  unfoldable pub keytbl : M ℕ
  unfolding unless_default
  keytbl = do
    unshift ← peek_u32 2
    shift ← peek_u32 6
    capslock ← peek_u32 10
    unless_default unshift
    unless_default shift
    unless_default capslock
    pure 0

  unfoldable pub bioskeys : M ℕ
  bioskeys = pure 0

  unfoldable pub xbios_functions : List (Function p)
  xbios_functions =
      row "Bconmap" none 0x2c
      ∷ row "Bioskeys" (some bioskeys) 0x18
      ∷ row "Blitmode" none 0x40
      ∷ row "Buffoper" none 0x88
      ∷ row "Buffptr" none 0x8d
      ∷ row "Cursconf" none 0x15
      ∷ row "Dbmsg" none 0x0b
      ∷ row "Devconnect" none 0x8b
      ∷ row "DMAread" none 0x2a
      ∷ row "DMAwrite" none 0x2b
      ∷ row "Dosound" none 0x20
      ∷ row "Dsp_Available" none 0x6a
      ∷ row "Dsp_BlkBytes" none 0x7c
      ∷ row "Dsp_BlkHandShake" none 0x61
      ∷ row "Dsp_BlkUnpacked" none 0x62
      ∷ row "Dsp_BlkWords" none 0x7b
      ∷ row "Dsp_DoGlock" none 0x60
      ∷ row "Dsp_ExecBoot" none 0x6e
      ∷ row "Dsp_ExecProg" none 0x6d
      ∷ row "Dsp_FlushSubroutines" none 0x73
      ∷ row "Dsp_GetProgAbility" none 0x72
      ∷ row "Dsp_GetWordSize" none 0x67
      ∷ row "Dsp_Hf0" none 0x77
      ∷ row "Dsp_Hf1" none 0x78
      ∷ row "Dsp_Hf2" none 0x79
      ∷ row "Dsp_Hf3" none 0x7a
      ∷ row "Dsp_HStat" none 0x7d
      ∷ row "Dsp_InqSubrAbility" none 0x75
      ∷ row "Dsp_InStream" none 0x63
      ∷ row "Dsp_IOStream" none 0x65
      ∷ row "Dsp_LoadProg" none 0x6c
      ∷ row "Dsp_LoadSubroutine" none 0x74
      ∷ row "Dsp_Lock" none 0x68
      ∷ row "Dsp_LodToBunary" none 0x6f
      ∷ row "Dsp_MultBlocks" none 0x7f
      ∷ row "Dsp_OutStream" none 0x64
      ∷ row "Dsp_RemoveInterrupts" none 0x66
      ∷ row "Dsp_RequestUniqueAbility" none 0x71
      ∷ row "Dsp_Reserve" none 0x6b
      ∷ row "Dsp_RunSubroutine" none 0x76
      ∷ row "Dsp_SetVectors" none 0x7e
      ∷ row "Dsp_TriggerHC" none 0x70
      ∷ row "Dsp_Unlock" none 0x69
      ∷ row "Dsptristate" none 0x89
      ∷ row "EgetPalette" none 0x55
      ∷ row "EgetShift" none 0x51
      ∷ row "EsetBank" none 0x52
      ∷ row "EsetColor" none 0x53
      ∷ row "EsetGray" none 0x56
      ∷ row "EsetPalette" none 0x54
      ∷ row "EsetShift" none 0x50
      ∷ row "EsetSmear" none 0x57
      ∷ row "Flopfmt" none 0x0a
      ∷ row "Floprate" none 0x29
      ∷ row "Floprd" none 0x08
      ∷ row "Flopver" none 0x13
      ∷ row "Flopwr" none 0x09
      ∷ row "Getrez" (some getrez) 0x04
      ∷ row "Gettime" none 0x17
      ∷ row "Glaccess" none 0x1c
      ∷ row "Gpio" none 0x8a
      ∷ row "Ikbdws" none 0x19
      ∷ row "Initmous" none 0x00
      ∷ row "Iorec" none 0x0e
      ∷ row "Jdisint" none 0x1a
      ∷ row "Jenabint" none 0x1b
      ∷ row "Kbdvbase" none 0x22
      ∷ row "Kbrate" none 0x23
      ∷ row "Keytbl" (some keytbl) 0x10
      ∷ row "Locksnd" none 0x80
      ∷ row "Logbase" none 0x03
      ∷ row "Metainit" none 0x30
      ∷ row "Mfpint" none 0x0d
      ∷ row "Midiws" none 0x0c
      ∷ row "NVMaccess" none 0x2e
      ∷ row "Offgibit" none 0x1d
      ∷ row "Ongibit" none 0x1e
      ∷ row "Physbse" none 0x02
      ∷ row "Protobt" none 0x12
      ∷ row "Prtblk" none 0x24
      ∷ row "Puntaes" none 0x27
      ∷ row "Random" none 0x11
      ∷ row "Rsconf" none 0x0f
      ∷ row "Scrdmp" none 0x14
      ∷ row "Setbuffer" none 0x83
      ∷ row "Setcolor" none 0x07
      ∷ row "Setinterrupt" none 0x87
      ∷ row "Setmode" none 0x84
      ∷ row "Setmontracks" none 0x86
      ∷ row "Setpalette" none 0x06
      ∷ row "Setprt" none 0x21
      ∷ row "Setscreen" none 0x05
      ∷ row "Settime" none 0x16
      ∷ row "Settracks" none 0x85
      ∷ row "Sndstatus" none 0x8c
      ∷ row "Soundcmd" none 0x82
      ∷ row "Ssbrk" none 0x01
      ∷ row "Supexec" (some supexec) 0x26
      ∷ row "Unlocksnd" none 0x81
      ∷ row "VgetMonitor" none 0x59
      ∷ row "VgetRGB" none 0x5e
      ∷ row "VgetSize" none 0x5b
      ∷ row "VsetMask" none 0x92
      ∷ row "VsetMode" none 0x58
      ∷ row "VsetRGB" none 0x5d
      ∷ row "VsetScreen" none 0x05
      ∷ row "VsetSync" none 0x5a
      ∷ row "Vsync" none 0x25
      ∷ row "WavePlay" none 0xa5
      ∷ row "Xbtimer" none 0x1f
      ∷ []

  unfoldable pub xbios_trap : (past_end : Function p) → M (Unit {0})
  unfolding trap_loop
  xbios_trap past_end = do fnct ← peek_u16 0; trap_loop xbios_functions past_end fnct
