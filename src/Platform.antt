-- ===== src/Platform.antt =====
-- What the program uses of code outside it: the Musashi 68000 core (m68k.h) and the C library.
-- The definitions take a `Platform` as an instance. The laws that a theorem needs of the core are
-- the record `CpuLaws`; they state what m68k.h documents of `m68k_get_reg` and `m68k_set_reg`. Those of
-- the terminal are `TerminalLaws`.
pub mod Example
pub mod Host
use tosemu.Base.{ℕ, ◌<◌, ◌≡◌, ◌≢◌, ◌^◌, Bool, true, Option, List, bit_and}

-- The registers of `m68k_register_t` that the program names.
pub data Register : Type 0 where
  d0 d3 d4 d5 d6 d7 a3 a4 a5 a6 a7 pc sr usp isp : Register

-- `struct tm`, the fields that are read.
pub record Tm : Type 0 where
  pub tm_sec : ℕ
  pub tm_min : ℕ
  pub tm_hour : ℕ
  pub tm_mday : ℕ
  pub tm_mon : ℕ
  pub tm_year : ℕ

-- `struct stat`, the fields that are read.
pub record Stat : Type 0 where
  pub st_mode : ℕ
  pub st_mtime : ℕ
  pub st_size : ℕ

pub data Errno : Type 0 where
  ebadf espipe einval eoverflow enxio eother : Errno

-- What `lseek` returns: an offset, or -1 with `errno` set.
pub data Seek : Type 0 where
  sought : ℕ → Seek
  seek_failed : Errno → Seek

-- A path or a string is the list of its bytes, without the final 0. A `FILE *` is its address, 0
-- for NULL. `World` is all the state that the C library and the host system keep.
pub record Platform : Type 1 where
  -- m68k.h: `m68k_get_reg(0, r)` and `m68k_set_reg(r, v)` on the current CPU context.
  pub Cpu : Type 0
  pub m68k_get_reg : Register → Cpu → ℕ
  pub m68k_set_reg : Register → ℕ → Cpu → Cpu
  -- stdio.h, termios.h, sys/select.h. `getchar` returns the bit pattern of an `int`.
  pub World : Type 0
  pub getchar : World → ℕ × World
  pub putchar : ℕ → World → World
  pub stdin_ready : World → Bool
  pub fgets : ℕ → World → Option (List ℕ) × World
  pub icanon : ℕ
  pub echo : ℕ
  pub tcgetattr : World → ℕ
  pub tcsetattr : ℕ → World → World
  -- stdlib.h and time.h. `malloc` says whether the memory was there.
  pub malloc : ℕ → World → Bool × World
  pub time : World → ℕ
  pub localtime : ℕ → World → Tm
  -- Files and directories.
  pub lseek : ℕ → ℕ → ℕ → World → Seek × World
  pub fstat : ℕ → World → Option Stat
  pub stat : List ℕ → World → Option Stat
  pub basename : List ℕ → List ℕ
  pub glob : List ℕ → World → Option (List (List ℕ))
  pub getcwd : World → List ℕ
  pub realpath : List ℕ → World → List ℕ
  pub chdir : List ℕ → World → Bool × World
  pub mkdir : List ℕ → World → Bool × World
  pub unlink : List ℕ → World → Bool × World
  pub creat : List ℕ → World → Option ℕ × World
  pub fdopen : ℕ → World → ℕ × World
  pub fopen : List ℕ → List ℕ → World → ℕ × World
  pub fclose : ℕ → World → World
  pub fread : ℕ → ℕ → World → List ℕ × World
  pub fwrite : List ℕ → ℕ → World → ℕ × World
  pub ferror : ℕ → World → Bool

-- The registers that hold a plain 32-bit value of their own in one processor mode.
abbrev pub IsPlain : Register → Type 0
IsPlain Register.sr = ⊥
IsPlain Register.usp = ⊥
IsPlain Register.isp = ⊥
IsPlain _ = Unit

abbrev pub supervisor_bit : ℕ
supervisor_bit = 0x2000

pub record CpuLaws (p : Platform) : Type 0 where
  pub reg_range : (r : Register) (c : p.Cpu) → p.m68k_get_reg r c < 2 ^ 32
  -- A value that is poked into a register is read back, and other registers keep theirs.
  pub get_set :
      (r : Register) (v : ℕ) (c : p.Cpu)
      → IsPlain r
      → v < 2 ^ 32
      → p.m68k_get_reg r (p.m68k_set_reg r v c) ≡ v
  pub get_set_ne :
      (r q : Register) (v : ℕ) (c : p.Cpu)
      → IsPlain r
      → IsPlain q
      → r ≢ q
      → p.m68k_get_reg r (p.m68k_set_reg q v c) ≡ p.m68k_get_reg r c
  pub sr_set :
      (q : Register) (v : ℕ) (c : p.Cpu)
      → IsPlain q
      → p.m68k_get_reg Register.sr (p.m68k_set_reg q v c) ≡ p.m68k_get_reg Register.sr c
  -- The supervisor bit of the status register is what was written, and selects what A7 is: the
  -- supervisor's stack pointer or the user's.
  pub set_sr :
      (v : ℕ) (c : p.Cpu)
      → bit_and (p.m68k_get_reg Register.sr (p.m68k_set_reg Register.sr v c)) supervisor_bit
        ≡ bit_and v supervisor_bit
  pub get_set_sr :
      (r : Register) (v : ℕ) (c : p.Cpu)
      → IsPlain r
      → r ≢ Register.a7
      → p.m68k_get_reg r (p.m68k_set_reg Register.sr v c) ≡ p.m68k_get_reg r c
  pub a7_user :
      (v : ℕ) (c : p.Cpu)
      → bit_and v supervisor_bit ≡ 0
      → p.m68k_get_reg Register.a7 (p.m68k_set_reg Register.sr v c) ≡ p.m68k_get_reg Register.usp c
  pub a7_supervisor :
      (v : ℕ) (c : p.Cpu)
      → bit_and v supervisor_bit ≡ supervisor_bit
      → p.m68k_get_reg Register.a7 (p.m68k_set_reg Register.sr v c) ≡ p.m68k_get_reg Register.isp c
  -- In user mode A7 is the user's stack pointer, which a change of mode keeps; in supervisor mode
  -- it is the other one.
  pub usp_user :
      (c : p.Cpu)
      → bit_and (p.m68k_get_reg Register.sr c) supervisor_bit ≡ 0
      → p.m68k_get_reg Register.usp c ≡ p.m68k_get_reg Register.a7 c
  pub usp_set_sr :
      (v : ℕ) (c : p.Cpu)
      → p.m68k_get_reg Register.usp (p.m68k_set_reg Register.sr v c) ≡ p.m68k_get_reg Register.usp c
  pub usp_supervisor :
      (q : Register) (v : ℕ) (c : p.Cpu)
      → IsPlain q
      → bit_and (p.m68k_get_reg Register.sr c) supervisor_bit ≡ supervisor_bit
      → p.m68k_get_reg Register.usp (p.m68k_set_reg q v c) ≡ p.m68k_get_reg Register.usp c
  -- The user's stack pointer is a register of its own, whatever the mode is.
  pub usp_set :
      (v : ℕ) (c : p.Cpu)
      → v < 2 ^ 32
      → p.m68k_get_reg Register.usp (p.m68k_set_reg Register.usp v c) ≡ v
  pub get_set_usp :
      (r : Register) (v : ℕ) (c : p.Cpu)
      → IsPlain r
      → r ≢ Register.a7
      → p.m68k_get_reg r (p.m68k_set_reg Register.usp v c) ≡ p.m68k_get_reg r c

-- What termios.h documents: the local modes are what was set last, and reading or writing a character
-- does not change them.
pub record TerminalLaws (p : Platform) : Type 0 where
  pub get_set : (f : ℕ) (w : p.World) → p.tcgetattr (p.tcsetattr f w) ≡ f
  pub get_getchar : (w : p.World) → p.tcgetattr (p.getchar w).1 ≡ p.tcgetattr w
  pub get_putchar : (c : ℕ) (w : p.World) → p.tcgetattr (p.putchar c w) ≡ p.tcgetattr w
