-- ===== src/Platform/Example.antt =====
-- A concrete platform, at which the hypotheses on the outside code hold: a register file with two
-- stack pointers, and a C library with a console, a fixed clock and one file.
pub mod Laws
use mathlib.Core.Path.{◌∙◌}
use tosemu.Base.{
  zero, suc, sym, ℕ, ◌/◌, ◌%◌, ◌^◌, ◌<◌, ◌≡◌, ◌≢◌, refl, ap, Bool, true, false, List, [], ◌∷◌, ◌++◌,
  Option, none, some, ◌==◌, if◌then◌else◌, arith, bit_and, length, take, ne→==, Bool-cases, ◌⊎◌,
  inl, inr,
}
use tosemu.Base.Bits.{bit_and_supervisor}
use tosemu.Platform.{Platform, Register, CpuLaws, IsPlain, seek_failed, ebadf, supervisor_bit}

abbrev pub code : Register → ℕ
code Register.d0 = 0
code Register.d3 = 1
code Register.d4 = 2
code Register.d5 = 3
code Register.d6 = 4
code Register.d7 = 5
code Register.a3 = 6
code Register.a4 = 7
code Register.a5 = 8
code Register.a6 = 9
code Register.a7 = 10
code Register.pc = 11
code Register.sr = 12
code Register.usp = 13
code Register.isp = 14

-- A7 is one of two registers, by the supervisor bit.
pub record Registers : Type 0 where
  pub status : ℕ
  pub user : ℕ
  pub super : ℕ
  pub other : ℕ → ℕ

abbrev pub in_supervisor : Registers → Bool
in_supervisor c = bit_and c.status supervisor_bit == supervisor_bit

unfoldable pub get : Register → Registers → ℕ
get Register.sr c = c.status % 2 ^ 16
get Register.a7 c = (if in_supervisor c then c.super else c.user) % 2 ^ 32
get Register.usp c = c.user % 2 ^ 32
get Register.isp c = c.super % 2 ^ 32
get r c = c.other (code r) % 2 ^ 32

unfoldable pub put : ℕ → ℕ → (ℕ → ℕ) → ℕ → ℕ
put i v f j = if i == j then v else f j

unfoldable pub set : Register → ℕ → Registers → Registers
unfolding put
set Register.sr v c = record c { status = v }
set Register.a7 v c = if in_supervisor c then record c { super = v } else record c { user = v }
set Register.usp v c = record c { user = v }
set Register.isp v c = record c { super = v }
set r v c = record c { other = put (code r) v c.other }

-- The console's input and output, the bytes of the one file, and the terminal's modes.
pub record Console : Type 0 where
  pub input : List ℕ
  pub output : List ℕ
  pub file : List ℕ
  pub modes : ℕ

unfoldable pub getc : List ℕ → Console → ℕ × Console
getc [] w = (0xffff_ffff, w)
getc (c ∷ cs) w = (c, record w { input = cs })

unfoldable pub is_empty : List ℕ → Bool
is_empty [] = true
is_empty (_ ∷ _) = false

unfoldable pub gets : List ℕ → Console → Option (List ℕ) × Console
gets [] w = (none, w)
gets (c ∷ cs) w = (some (c ∷ cs), record w { input = [] })

instance abbrev pub example : Platform
example = record {
  Cpu = Registers;
  m68k_get_reg = get;
  m68k_set_reg = set;
  World = Console;
  getchar = λ w. getc w.input w;
  putchar = λ c w. record w { output = w.output ++ c ∷ [] };
  stdin_ready = λ w. if is_empty w.input then false else true;
  fgets = λ n w. gets w.input w;
  icanon = 0x2;
  echo = 0x8;
  tcgetattr = λ w. w.modes;
  tcsetattr = λ f w. record w { modes = f };
  malloc = λ n w. (true, w);
  time = λ w. 0;
  localtime = λ t w. record {
    tm_sec = 58;
    tm_min = 30;
    tm_hour = 12;
    tm_mday = 24;
    tm_mon = 11;
    tm_year = 114;
  };
  lseek = λ fd offset whence w. (seek_failed ebadf, w);
  fstat = λ fd w. some (record { st_mode = 0; st_mtime = 0; st_size = length w.file });
  stat = λ path w. some (record { st_mode = 0; st_mtime = 0; st_size = length w.file });
  basename = λ path. path;
  glob = λ path w. some (path ∷ (path ++ b'2' ∷ []) ∷ []);
  getcwd = λ w. b'/' ∷ [];
  realpath = λ path w. path;
  chdir = λ path w. (true, w);
  mkdir = λ path w. (true, w);
  unlink = λ path w. (true, w);
  creat = λ path w. (some 3, w);
  fdopen = λ fd w. (77, w);
  fopen = λ path mode w. (77, w);
  fclose = λ f w. w;
  fread = λ f n w. (take n w.file, w);
  fwrite = λ bytes f w. (length bytes, record w { file = w.file ++ bytes });
  ferror = λ f w. false;
}
