-- ===== src/Gemdos.antt =====
-- gemdos.c: process, date and mode functions, and the table of all GEMDOS functions.
pub mod MemCalls
pub mod Dispatch
pub mod Modes
pub mod Memory
use tosemu.Base.{ℕ, List, [], ◌∷◌, Option, none, some, ◌==◌, if◌then◌else◌}
use tosemu.Platform.{Platform, Register}
use tosemu.Errors.{gemdos_einvfn}
use tosemu.Machine.{State, M, done, exited, pure, ◌>>=◌, ◌>>◌, ask, m68k_get_reg, m68k_set_reg}
use tosemu.Memory.Access.{
  enable_supervisor_mode, disable_supervisor_mode, is_supervisor_mode_enabled,
}
use tosemu.Cpu.{peek_u16, peek_u32}
use tosemu.DosTime.{pack_time, pack_date}
use tosemu.Trap.{Function, row, trap_loop}
use tosemu.GemdosCon.{cconin, cconis, cconos, cconout, cconrs, cconws, cnecin, crawcin, crawio}
use tosemu.GemdosFile.Calls.{
  dcreate, dgetdrv, dgetpath, dsetpath, fattrib, fdatime, fdelete, fgetdta, fseek, fsetdta,
}
use tosemu.GemdosFile.Streams.{fclose, fcreate, fopen, fread, fwrite}
use tosemu.GemdosFile.Search.{fsfirst, fsnext}
use MemCalls.{malloc, mfree, mshrink}

module _ ⦃p : Platform⦄ where
  exit : ℕ → M ℕ
  exit code fuel m = exited code

  unfoldable pub pterm : M ℕ
  unfolding exit
  pterm = do code ← peek_u16 2; exit code

  unfoldable pub pterm0 : M ℕ
  unfolding exit
  pterm0 = exit 0

  unfoldable pub tgetdate : M ℕ
  tgetdate = do t ← ask p.time; lt ← ask (p.localtime t); pure (pack_date lt)

  unfoldable pub tgettime : M ℕ
  tgettime = do t ← ask p.time; lt ← ask (p.localtime t); pure (pack_time lt)

  unfoldable pub super : M ℕ
  unfolding m68k_get_reg m68k_set_reg enable_supervisor_mode disable_supervisor_mode
      is_supervisor_mode_enabled
  super = do
    lv0 ← peek_u32 2
    if lv0 == 0
        then (do res ← m68k_get_reg Register.a7; enable_supervisor_mode; pure res)
        else if lv0 == 1
        then (do on ← is_supervisor_mode_enabled; if on then pure 1 else pure 0)
        else (do m68k_set_reg Register.usp lv0; disable_supervisor_mode; pure 0)

  unfoldable pub sversion : M ℕ
  sversion = pure 0x1500

  -- Calls of MiNT alone, which do not halt the execution.
  unfoldable pub gemdos_unknown : M ℕ
  gemdos_unknown = pure gemdos_einvfn

  unfoldable pub gemdos_functions : List (Function p)
  gemdos_functions =
      row "Cauxin" none 0x03
      ∷ row "Cauxis" none 0x12
      ∷ row "Cauxos" none 0x13
      ∷ row "Cauxout" none 0x04
      ∷ row "Cconin" (some cconin) 0x01
      ∷ row "Cconis" (some cconis) 0x0b
      ∷ row "Cconos" (some cconos) 0x10
      ∷ row "Cconout" (some cconout) 0x02
      ∷ row "Cconrs" (some cconrs) 0x0a
      ∷ row "Cconws" (some cconws) 0x09
      ∷ row "Cnecin" (some cnecin) 0x08
      ∷ row "Cprnos" none 0x11
      ∷ row "Cprnout" none 0x05
      ∷ row "Crawcin" (some crawcin) 0x07
      ∷ row "Crawio" (some crawio) 0x06
      ∷ row "Dclosedir" none 0x12b
      ∷ row "Dcntl" none 0x130
      ∷ row "Dcreate" (some dcreate) 0x39
      ∷ row "Ddelete" none 0x3a
      ∷ row "Dfree" none 0x36
      ∷ row "Dgetcwd" none 0x13b
      ∷ row "Dgetdrv" (some dgetdrv) 0x19
      ∷ row "Dgetpath" (some dgetpath) 0x47
      ∷ row "Dlock" none 0x135
      ∷ row "Dopendir" none 0x128
      ∷ row "Dpathconf" none 0x124
      ∷ row "Dreaddir" none 0x129
      ∷ row "Drewinddir" none 0x12a
      ∷ row "Dsetdrv" none 0x0e
      ∷ row "Dsetpath" (some dsetpath) 0x3b
      ∷ row "Fattrib" (some fattrib) 0x43
      ∷ row "Fchmod" none 0x132
      ∷ row "Fchown" none 0x131
      ∷ row "Fclose" (some fclose) 0x3e
      ∷ row "Fcntl" (some gemdos_unknown) 0x104
      ∷ row "Fcreate" (some fcreate) 0x3c
      ∷ row "Fdatime" (some fdatime) 0x57
      ∷ row "Fdelete" (some fdelete) 0x41
      ∷ row "Fdup" none 0x45
      ∷ row "Fforce" none 0x46
      ∷ row "Fgetchar" none 0x107
      ∷ row "Fgetdta" (some fgetdta) 0x2f
      ∷ row "Finstat" none 0x105
      ∷ row "Flink" none 0x12d
      ∷ row "Flock" none 0x5c
      ∷ row "Fmidipipe" none 0x126
      ∷ row "Fopen" (some fopen) 0x3d
      ∷ row "Foutstat" none 0x106
      ∷ row "Fpipe" none 0x100
      ∷ row "Fputchar" none 0x108
      ∷ row "Fread" (some fread) 0x3f
      ∷ row "Freadlink" none 0x12f
      ∷ row "Frename" none 0x56
      ∷ row "Fseek" (some fseek) 0x42
      ∷ row "Fselect" none 0x11d
      ∷ row "Fsetdta" (some fsetdta) 0x1a
      ∷ row "Fsfirst" (some fsfirst) 0x4e
      ∷ row "Fsnext" (some fsnext) 0x4f
      ∷ row "Fsymlink" none 0x12e
      ∷ row "Fwrite" (some fwrite) 0x40
      ∷ row "Fxattr" (some gemdos_unknown) 0x12c
      ∷ row "Maddalt" none 0x14
      ∷ row "Malloc" (some malloc) 0x48
      ∷ row "Mfree" (some mfree) 0x49
      ∷ row "Mshrink" (some mshrink) 0x4a
      ∷ row "Mxalloc" none 0x44
      ∷ row "Pause" none 0x121
      ∷ row "Pdomain" (some gemdos_unknown) 0x119
      ∷ row "Pexec" none 0x4b
      ∷ row "Pfork" none 0x11b
      ∷ row "Pgetegid" (some gemdos_unknown) 0x139
      ∷ row "Pgeteuid" (some gemdos_unknown) 0x138
      ∷ row "Pgetgid" (some gemdos_unknown) 0x114
      ∷ row "Pgetpgrp" none 0x10d
      ∷ row "Pgetpid" none 0x10b
      ∷ row "Pgetppid" none 0x10c
      ∷ row "Pgetuid" (some gemdos_unknown) 0x10f
      ∷ row "Pkill" none 0x111
      ∷ row "Pmsg" none 0x125
      ∷ row "Pnice" none 0x10a
      ∷ row "Prenice" none 0x127
      ∷ row "Prusage" none 0x11e
      ∷ row "Psemaphore" none 0x134
      ∷ row "Psetgit" none 0x115
      ∷ row "Psetlimit" none 0x11f
      ∷ row "Psetpgrp" none 0x10e
      ∷ row "Psetuid" none 0x110
      ∷ row "Psigaction" none 0x137
      ∷ row "Psigblock" none 0x116
      ∷ row "Psignal" none 0x112
      ∷ row "Psigpause" none 0x136
      ∷ row "Psigpending" none 0x123
      ∷ row "Psigreturn" none 0x11a
      ∷ row "Psigsetmask" none 0x117
      ∷ row "Pterm" (some pterm) 0x4c
      ∷ row "Pterm0" (some pterm0) 0x0
      ∷ row "Ptermres" none 0x31
      ∷ row "Pumask" (some gemdos_unknown) 0x133
      ∷ row "Pursval" none 0x118
      ∷ row "Pvfork" none 0x113
      ∷ row "Pwait" none 0x109
      ∷ row "Pwait3" none 0x11c
      ∷ row "Pwaitpid" none 0x13a
      ∷ row "Salert" none 0x13c
      ∷ row "Super" (some super) 0x20
      ∷ row "Sversion" (some sversion) 0x30
      ∷ row "Pyield" none 0xff
      ∷ row "Sysconf" none 0x122
      ∷ row "Talarm" none 0x120
      ∷ row "Tgetdate" (some tgetdate) 0x2a
      ∷ row "Tgettime" (some tgettime) 0x2c
      ∷ row "Tsetdate" none 0x2b
      ∷ row "Tsettime" none 0x2d
      ∷ row "Ssystem" (some gemdos_unknown) 0x154
      ∷ row "Ffstat64" (some gemdos_unknown) 0x15d
      ∷ row "Tgettimeofday" (some gemdos_unknown) 0x155
      ∷ row "Fstat64" (some gemdos_unknown) 0x14b
      ∷ row "Psysctl" (some gemdos_unknown) 0x15e
      ∷ []

  unfoldable pub gemdos_trap : (past_end : Function p) → M (Unit {0})
  unfolding trap_loop
  gemdos_trap past_end = do fnct ← peek_u16 0; trap_loop gemdos_functions past_end fnct
