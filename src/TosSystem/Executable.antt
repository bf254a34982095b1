-- ===== src/TosSystem/Executable.antt =====
-- tossystem.c: the format of an executable file, and the base page as a list of bytes.
use tosemu.Base.{
  ℕ, zero, suc, ◌+◌, ◌-◌, ◌/◌, ◌%◌, ◌^◌, ◌≤◌, ◌<◌, ◌≡◌, ◌≢◌, inl, refl, ap, ◌∙◌, List, [], ◌∷◌,
  ◌++◌, arith, length, length-append, length-replicate, take, replicate, u16_mod, u32_mod,
}
use mathlib.Core.List.{append-nil}
use mathlib.Core.Path.{ap₂}
use tosemu.Machine.{update}
use tosemu.Utils.Reversal.{reversed_32}
use tosemu.GemdosFile.Search.{store_bytes, load_le}
use tosemu.GemdosFile.Reading.{bytes_from}
use tosemu.GemdosFile.Dta.{store_bytes_outside, update_at}
use tosemu.TosSystem.Loader.{cmdlin_bytes, copy_cmdlin}
use tosemu.TosSystem.Header.{
  Segments, byte_at, swap, segments, exec_header, init_basepage, basepage_words, words_bytes,
  le_bytes, basepage_bytes,
}

-- A number as a big-endian long word of a file.
abbrev pub long_bytes : ℕ → List ℕ
long_bytes n = n / 2 ^ 24 % 256 ∷ n / 2 ^ 16 % 256 ∷ n / 2 ^ 8 % 256 ∷ n % 256 ∷ []

-- An executable by its parts.
pub record Executable : Type 0 where
  pub text_bytes : List ℕ
  pub data_bytes : List ℕ
  pub symbol_bytes : List ℕ
  pub bss : ℕ
  pub reserved : ℕ
  pub flags : ℕ
  pub absflag : ℕ

abbrev pub word_bytes : ℕ → List ℕ
word_bytes n = n / 2 ^ 8 % 256 ∷ n % 256 ∷ []

abbrev pub contents : Executable → List ℕ
contents e = e.text_bytes ++ e.data_bytes ++ e.symbol_bytes

-- The file, big-endian: the magic number, the sizes of text, data, bss and symbols, two long words, the flag
-- against relocation, and the segments; anything may follow.
abbrev pub file_bytes : Executable → (behind : List ℕ) → List ℕ
file_bytes e behind =
    word_bytes 0x601a
    ++ long_bytes (length e.text_bytes)
    ++ long_bytes (length e.data_bytes)
    ++ long_bytes e.bss
    ++ long_bytes (length e.symbol_bytes)
    ++ long_bytes e.reserved
    ++ long_bytes e.flags
    ++ word_bytes e.absflag
    ++ contents e
    ++ behind

-- The long words of the base page: the bounds of the program's memory, the address and the length of text,
-- data and bss, the DTA, the parent, a reserved word and the environment.
abbrev pub page_words : Executable → List ℕ
page_words e =
    0x800
    ∷ 0xf9ffff
    ∷ 0x900
    ∷ length e.text_bytes
    ∷ (0x900 + length e.text_bytes)
    ∷ length e.data_bytes
    ∷ (0x900 + length e.text_bytes + length e.data_bytes)
    ∷ e.bss
    ∷ 0x80080000
    ∷ 0
    ∷ 0
    ∷ 0x830
    ∷ []

-- The arguments, with a space between two of them.
abbrev pub joined : List ℕ → List (List ℕ) → List ℕ
joined arg [] = arg
joined arg (next ∷ rest) = arg ++ b' ' ∷ joined next rest

-- The command line of the base page: its length, the arguments, and a terminator.
abbrev pub command_line : List ℕ → List (List ℕ) → List ℕ
command_line arg args = length (joined arg args) ∷ joined arg args ++ 0 ∷ []

pub take-append : (xs ys : List ℕ) (n : ℕ) → n ≡ length xs → take n (xs ++ ys) ≡ xs
take-append [] ys zero e = refl
take-append [] ys (suc n) e = absurd (omega arith)
take-append (x ∷ xs) ys zero e = absurd (omega arith)
take-append (x ∷ xs) ys (suc n) e = ap (λ l. x ∷ l) (take-append xs ys n (omega arith))

-- The header of the file is read as it was written.
module _ (e : Executable) (behind : List ℕ) where
  abbrev pub sizes : Segments
  sizes = record {
    tsize = length e.text_bytes;
    dsize = length e.data_bytes;
    bsize = e.bss;
    ssize = length e.symbol_bytes;
  }

  abbrev size_field : ℕ → ℕ
  size_field offset = swap (load_le (byte_at (file_bytes e behind)) offset 4)

  pub segments-file_bytes :
      length e.text_bytes < u32_mod
      → length e.data_bytes < u32_mod
      → e.bss < u32_mod
      → length e.symbol_bytes < u32_mod
      → segments (exec_header (file_bytes e behind)) ≡ sizes
  unfolding segments exec_header load_le byte_at
  segments-file_bytes wt wd wb ws =
      let t : size_field 2 ≡ length e.text_bytes = rw (reversed_32 0 _) (omega arith) in
      let d : size_field 6 ≡ length e.data_bytes = rw (reversed_32 0 _) (omega arith) in
      let b : size_field 10 ≡ e.bss = rw (reversed_32 0 _) (omega arith) in
      let l : size_field 14 ≡ length e.symbol_bytes = rw (reversed_32 0 _) (omega arith) in
      λ i. record { tsize = t i; dsize = d i; bsize = b i; ssize = l i }

  pub absflag-file_bytes :
      e.absflag < u16_mod → e.absflag ≢ 0 → (exec_header (file_bytes e behind)).absflag ≢ 0
  unfolding exec_header load_le byte_at
  absflag-file_bytes small set = λ clear. set (omega arith)

-- A part of the bytes that are stored.
stored_first :
    (h : ℕ → ℕ) (c : ℕ) (ys zs : List ℕ)
    → bytes_from (store_bytes h c (ys ++ zs)) c (length ys) ≡ ys
unfolding bytes_from store_bytes
stored_first h c [] zs = refl
stored_first h c (y ∷ ys) zs =
    ap₂ ◌∷◌
      (store_bytes_outside (update h c y) (c + 1) (ys ++ zs) c (inl (omega arith))
        ∙ update_at h c y)
      (stored_first (update h c y) (c + 1) ys zs)

pub stored_part :
    (h : ℕ → ℕ) (c : ℕ) (xs ys zs : List ℕ)
    → bytes_from (store_bytes h c (xs ++ (ys ++ zs))) (c + length xs) (length ys) ≡ ys
unfolding store_bytes
stored_part h c [] ys zs = let e : c + 0 ≡ c = omega arith in rw e (stored_first h c ys zs)
stored_part h c (x ∷ xs) ys zs =
    let e : c + suc (length xs) ≡ c + 1 + length xs = omega arith in
    rw e (stored_part (update h c x) (c + 1) xs ys zs)

append-cmdlin_bytes :
    (arg : List ℕ) (args : List (List ℕ)) → arg ++ cmdlin_bytes args ≡ joined arg args
unfolding cmdlin_bytes
append-cmdlin_bytes arg [] = append-nil arg
append-cmdlin_bytes arg (next ∷ rest) = ap (λ l. arg ++ b' ' ∷ l) (append-cmdlin_bytes next rest)

copy_cmdlin-command_line :
    (arg : List ℕ) (args : List (List ℕ))
    → length (joined arg args) < 256
    → copy_cmdlin (arg ∷ args) ≡ command_line arg args
unfolding copy_cmdlin cmdlin_bytes
copy_cmdlin-command_line arg args short =
    let count : length (joined arg args) % 256 ≡ length (joined arg args) = omega arith in
    ap (λ l. (length l % 256) ∷ l ++ 0 ∷ []) (append-cmdlin_bytes arg args)
    ∙ ap (λ n. n ∷ joined arg args ++ 0 ∷ []) count

-- The bytes of the base page, as long as the command line fits.
module _ (s : Segments) (arg : List ℕ) (args : List (List ℕ))
    (short : length (joined arg args) + 2 ≤ 128) where
  abbrev pub page_head : List ℕ
  page_head = words_bytes (basepage_words (init_basepage s (arg ∷ args))) ++ replicate 80 0

  abbrev pub page_tail : List ℕ
  page_tail = replicate (128 - length (command_line arg args)) 0

  length-page_head : length page_head ≡ 128
  unfolding words_bytes le_bytes init_basepage
  length-page_head = refl

  length-command_line : length (command_line arg args) ≡ length (joined arg args) + 2
  length-command_line = omega (arith, length-append (joined arg args) (0 ∷ []))

  pub basepage_bytes-parts :
      basepage_bytes (init_basepage s (arg ∷ args))
      ≡ page_head ++ (command_line arg args ++ page_tail)
  unfolding basepage_bytes init_basepage
  basepage_bytes-parts =
      ap (λ l. page_head ++ (l ++ replicate (128 - length l) 0))
        (copy_cmdlin-command_line arg args (omega arith))

  pub length-basepage_bytes : length (basepage_bytes (init_basepage s (arg ∷ args))) ≡ 256
  length-basepage_bytes = rw basepage_bytes-parts (
      omega (
        arith,
        length-append page_head (command_line arg args ++ page_tail),
        length-append (command_line arg args) page_tail,
        length-replicate {A = ℕ} (128 - length (command_line arg args)) 0,
        length-page_head,
        length-command_line,
      ))
