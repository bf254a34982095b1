-- ===== src/GemdosCon.antt =====
-- gemdoscon.c: the console functions of GEMDOS.
pub mod Output
pub mod Input
pub mod Raw
use tosemu.Base.{
  ℕ, zero, suc, ◌-◌, List, [], ◌∷◌, Option, none, some, ◌==◌, ltb, if◌then◌else◌, bit_and, bit_or,
  add32, u32_mod, length, take,
}
use tosemu.Platform.{Platform}
use tosemu.Machine.{M, done, fault, out_of_fuel, pure, ◌>>=◌, ◌>>◌, ask, act}
use tosemu.Memory.{m68k_read_disassembler_8, m68k_read_memory_8, m68k_write_memory_8}
use tosemu.Cpu.{peek_u16, peek_u32}
use tosemu.Console.{console_input_available, getchar, putchar}

module _ ⦃p : Platform⦄ where
  unfoldable pub cconin : M ℕ
  unfolding getchar
  cconin = do c ← getchar; pure (bit_and c 0xff)

  unfoldable pub cnecin : M ℕ
  unfolding getchar
  cnecin = do c ← getchar; pure (bit_and c 0xff)

  unfoldable pub cconout : M ℕ
  unfolding putchar
  cconout = do c ← peek_u16 2; putchar (bit_and c 0xff); pure 0

  unfoldable pub cconis : M ℕ
  unfolding console_input_available
  cconis = do ready ← console_input_available; if ready then pure 0xffff_ffff else pure 0

  unfoldable pub cconos : M ℕ
  cconos = pure 0xffff_ffff

  -- The loop of Cconws, with a bound on its rounds.
  unfoldable pub cconws_loop : ℕ → ℕ → ℕ → M ℕ
  unfolding putchar
  cconws_loop zero adr res fuel m = out_of_fuel
  cconws_loop (suc rounds) adr res fuel m =
      (do
        ch ← m68k_read_disassembler_8 adr
        if ch == 0 then pure res else putchar ch >> cconws_loop rounds (add32 adr 1) (add32 res 1))
        fuel m

  unfoldable pub cconws : M ℕ
  unfolding cconws_loop
  cconws fuel = (do adr ← peek_u32 2; cconws_loop fuel adr 0) fuel

  -- The line without its final newline.
  unfoldable pub chomp : List ℕ → List ℕ
  chomp [] = []
  chomp (c ∷ []) = if c == b'\n' then [] else c ∷ []
  chomp (c ∷ d ∷ rest) = c ∷ chomp (d ∷ rest)

  -- The characters behind the first one are written up to the terminator, which is not written.
  unfoldable pub write_chars : List ℕ → ℕ → M (Unit {0})
  write_chars [] adr = pure tt
  write_chars (c ∷ rest) adr = m68k_write_memory_8 adr c >> write_chars rest (add32 adr 1)

  -- The do-while loop: its first round writes the terminator of an empty line.
  unfoldable pub write_line : List ℕ → ℕ → M (Unit {0})
  unfolding write_chars
  write_line [] adr = m68k_write_memory_8 adr 0
  write_line (c ∷ rest) adr = m68k_write_memory_8 adr c >> write_chars rest (add32 adr 1)

  -- What is done with the line that `fgets` has read into `buf`. If it has read nothing, `buf` holds
  -- indeterminate bytes, which are then used: a fault.
  unfoldable pub store_line : (lineptr maxlen : ℕ) → Option (List ℕ) → M ℕ
  unfolding chomp write_line
  store_line lineptr maxlen none fuel m = fault
  store_line lineptr maxlen (some []) fuel m = fault
  store_line lineptr maxlen (some (c ∷ cs)) fuel m =
      (do
        let text = chomp (c ∷ cs)
        let cut = if ltb maxlen (length text) then take maxlen text else text
        m68k_write_memory_8 (add32 lineptr 1) (length cut)
        write_line cut (add32 lineptr 2)
        pure 0)
        fuel m

  unfoldable pub cconrs : M ℕ
  unfolding store_line
  cconrs = do
    lineptr ← peek_u32 2
    maxlen ← m68k_read_memory_8 lineptr
    line ← act (p.fgets maxlen)
    store_line lineptr maxlen line

  set_terminal : ℕ → M (Unit {0})
  set_terminal lflag fuel m = done tt (record m { world = p.tcsetattr lflag m.world })

  -- A character is read with some local modes of the terminal switched off.
  unfoldable pub getchar_without : ℕ → M ℕ
  unfolding set_terminal getchar
  getchar_without modes = do
    temp ← ask p.tcgetattr
    set_terminal (bit_and temp (u32_mod - 1 - modes))
    c ← getchar
    set_terminal temp
    pure (bit_and c 0xff)

  unfoldable pub crawio : M ℕ
  unfolding getchar_without console_input_available putchar
  crawio = do
    w ← peek_u16 2
    if w == 0xff
        then (do
          ready ← console_input_available
          if ready then getchar_without p.icanon else pure 0)
        else putchar (bit_and w 0xff) >> pure 0

  unfoldable pub crawcin : M ℕ
  unfolding getchar_without console_input_available
  crawcin = do
    ready ← console_input_available
    if ready then getchar_without (bit_or p.icanon p.echo) else pure 0
